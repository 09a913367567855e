-- ===== src/Repository/Notification/Isolation.antt =====
-- Whose notifications a write may touch, whether it reports an error or not.
use r2_notify_server.Prelude.{
  String, ◌≡◌, refl, ◌∙◌, ap, ◌≢◌, true, false, List, [], ◌∷◌, Result, ok, err, eqb, eq_iff, select,
  find_first, change_where, arith, some,
}
use r2_notify_server.Models.{ObjectId, Time, UserId, Notification}
use r2_notify_server.Mongo.{Collection, Lawful, ObjectIds, select-Partly, all_meet}
use r2_notify_server.Repository.Notification.{
  only_error, clean, read_update, mark_as_read, mark_app_as_read, mark_group_as_read,
  delete_notifications, delete_app_notifications, delete_group_notifications, delete_notification,
  delete_converted,
}
use r2_notify_server.Repository.Notification.Schema.{notification_schema, Cond, user_is, id_is}
use r2_notify_server.Repository.Notification.Scope.{
  Scope, everything, app, group, one, is_of, has_id, as_read, mark, delete,
}
use r2_notify_server.Repository.Notification.Writes.{view-mark, only_error-state}

-- A filter under the user selects nothing of another user.
not_of_other :
    (user other : UserId) (f : List Cond) (n : Notification)
    → other ≢ user
    → all_meet notification_schema (user_is user ∷ f) n ≡ true
    → is_of other n ≡ false
not_of_other user other f n apart h = ground (arith, eq_iff n.user_id user, eq_iff n.user_id other)

module _ (coll : Collection notification_schema) (ids : ObjectIds) (law : Lawful coll)
    (user other : UserId) (apart : other ≢ user) where
  updated_apart :
      (f : List Cond) (now : Time) (s : coll.State)
      → let p = coll.update_many (user_is user ∷ f) (read_update now) s in
        select (is_of other) (coll.view (only_error p).1) ≡ select (is_of other) (coll.view s)
  updated_apart f now s =
      ap (λ t. select (is_of other) (coll.view t)) (only_error-state _)
      ∙ select-Partly (is_of other) (λ n h. not_of_other user other f n apart h)
          (λ n h. ground (arith, not_of_other user other f n apart h))
          (law.update_many_partly (user_is user ∷ f) (read_update now) s)

  deleted_apart :
      (f : List Cond) (s : coll.State)
      → let p = coll.delete_many (user_is user ∷ f) s in
        select (is_of other) (coll.view (only_error p).1) ≡ select (is_of other) (coll.view s)
  deleted_apart f s =
      ap (λ t. select (is_of other) (coll.view t)) (only_error-state _)
      ∙ select-Partly (is_of other) (λ n h. not_of_other user other f n apart h) (λ n h. refl)
          (law.delete_many_partly (user_is user ∷ f) s)

  deleted_converted_apart :
      (r : Result ObjectId) (s : coll.State)
      → select (is_of other) (coll.view (delete_converted coll ids user r s).1)
        ≡ select (is_of other) (coll.view s)
  unfolding delete_converted
  deleted_converted_apart (err e) s = refl
  deleted_converted_apart (ok i) s =
      ap (λ t. select (is_of other) (coll.view t)) (only_error-state _)
      ∙ select-Partly (is_of other) (λ n h. not_of_other user other (id_is i ∷ []) n apart h)
          (λ n h. refl) (law.delete_one_partly (user_is user ∷ id_is i ∷ []) s)

  -- Whatever its outcome, a deletion leaves the notifications of every other user as they were.
  pub delete-other_user :
      (scope : Scope) (s : coll.State)
      → select (is_of other) (coll.view (delete coll ids scope user s).1)
        ≡ select (is_of other) (coll.view s)
  unfolding delete delete_notifications delete_app_notifications delete_group_notifications
      delete_notification
  delete-other_user everything s = deleted_apart [] s
  delete-other_user (app a) s = deleted_apart _ s
  delete-other_user (group a g) s = deleted_apart _ s
  delete-other_user (one id) s = deleted_converted_apart (ids.from_hex (clean id)) s

  -- Whatever its outcome, a marking of all, of an app or of a group leaves the notifications of
  -- every other user as they were.
  pub mark-other_user :
      (scope : Scope) (now : Time) (s : coll.State)
      → ((id : String) → scope ≢ one id)
      → select (is_of other) (coll.view (mark coll ids scope now user s).1)
        ≡ select (is_of other) (coll.view s)
  unfolding mark mark_as_read mark_app_as_read mark_group_as_read
  mark-other_user everything now s h = updated_apart [] now s
  mark-other_user (app a) now s h = updated_apart _ now s
  mark-other_user (group a g) now s h = updated_apart _ now s
  mark-other_user (one id) now s h = absurd (h id refl)

module _ (coll : Collection notification_schema) (ids : ObjectIds) (law : Lawful coll) where
  found_as_read :
      (i : ObjectId) (now : Time) (n : Notification) (ns : List Notification)
      → find_first (λ m. eqb m.id i) ns ≡ some n
      → find_first (λ m. eqb m.id i) (change_where (λ m. eqb m.id i) (as_read now) ns)
        ≡ some (as_read now n)
  found_as_read i now n [] h = cc
  found_as_read i now n (m ∷ ms) h = ground (arith, found_as_read i now n ms)

  -- When the marking of a single notification reports no error, the stored notification with that
  -- id is read afterwards, whoever the caller and whoever the owner.
  pub mark-one_any_owner :
      (id : String) (i : ObjectId) (now : Time) (caller : UserId) (n : Notification)
      (s : coll.State)
      → ids.from_hex (clean id) ≡ ok i
      → find_first (λ m. eqb m.id i) (coll.view s) ≡ some n
      → (mark coll ids (one id) now caller s).0 ≡ ok tt
      → find_first (λ m. eqb m.id i) (coll.view (mark coll ids (one id) now caller s).1)
        ≡ some (as_read now n)
  mark-one_any_owner id i now caller n s e h done =
      ap (find_first (λ m. eqb m.id i)) (view-mark coll ids law (one id) now caller s done)
      ∙ ap (λ r. find_first (λ m. eqb m.id i) (change_where (has_id r) (as_read now) (coll.view s)))
          e
      ∙ found_as_read i now n (coll.view s) h
