-- ===== src/Repository/Notification/Writes.antt =====
-- What the marking and the deleting methods leave in the collection, when they report no error.
use mathlib.Core.Path.{fun_ext}
use r2_notify_server.Prelude.{
  ◌≡◌, refl, ◌∙◌, ap, Bool, not, ◌&&◌, List, [], ◌∷◌, Result, ok, err, eqb, select, change_where,
  drop_first, arith,
}
use r2_notify_server.Mongo.Keys.{change_first-eq-change_where, drop_first-eq-select}
use r2_notify_server.Models.{ObjectId, Time, UserId, Notification}
use r2_notify_server.Mongo.{Collection, Lawful, ObjectIds, all_meet}
use r2_notify_server.Repository.Notification.{
  clean, only_error, read_update, mark_as_read, mark_app_as_read, mark_group_as_read,
  mark_notification_as_read, update_converted, delete_converted, delete_notifications,
  delete_app_notifications, delete_group_notifications, delete_notification,
}
use r2_notify_server.Repository.Notification.Schema.{notification_schema, Cond, user_is, id_is}
use r2_notify_server.Repository.Notification.Scope.{
  Scope, everything, app, group, one, is_of, has_id, as_read, covers, reaches, mark, delete,
}

pub only_error-state : {A S : Type 0} (p : Result A × S) → (only_error p).1 ≡ p.1
only_error-state (ok a, s) = refl
only_error-state (err e, s) = refl

pub only_error-ok :
    {A S : Type 0} (p : Result A × S) → (only_error p).0 ≡ ok tt → (a : A) × (p.0 ≡ ok a)
only_error-ok (ok a, s) h = (a, refl)
only_error-ok (err e, s) h = cc

change_where_congr {ℓ} :
    {A : Type ℓ} (p q : A → Bool) (f : A → A) (xs : List A)
    → ((x : A) → p x ≡ q x)
    → change_where p f xs ≡ change_where q f xs
change_where_congr p q f xs h = rw (fun_ext h)

two_conditions :
    (user : UserId) (i : ObjectId) (n : Notification)
    → all_meet notification_schema (user_is user ∷ id_is i ∷ []) n ≡ (is_of user n && eqb n.id i)
two_conditions user i n = ground arith

module _ (coll : Collection notification_schema) (ids : ObjectIds) (law : Lawful coll) where
  -- What an UpdateMany of the read status leaves, when the test of its filter is `test`.
  marked_many :
      (f : List Cond) (test : Notification → Bool) (now : Time) (s : coll.State)
      → ((n : Notification) → all_meet notification_schema f n ≡ test n)
      → (only_error (coll.update_many f (read_update now) s)).0 ≡ ok tt
      → coll.view (only_error (coll.update_many f (read_update now) s)).1
        ≡ change_where test (as_read now) (coll.view s)
  marked_many f test now s same h =
      let p = coll.update_many f (read_update now) s in
      let (r, e) = only_error-ok p h in
      ap coll.view (only_error-state p)
      ∙ law.update_many_changes f (read_update now) s r e
      ∙ change_where_congr _ test (as_read now) (coll.view s) same

  -- What a DeleteMany leaves.
  dropped_many :
      (f : List Cond) (test : Notification → Bool) (s : coll.State)
      → ((n : Notification) → all_meet notification_schema f n ≡ test n)
      → (only_error (coll.delete_many f s)).0 ≡ ok tt
      → coll.view (only_error (coll.delete_many f s)).1 ≡ select (λ n. not (test n)) (coll.view s)
  dropped_many f test s same h =
      let p = coll.delete_many f s in
      let (r, e) = only_error-ok p h in
      ap coll.view (only_error-state p)
      ∙ law.delete_many_drops f s r e
      ∙ ap (λ t. select (λ n. not (t n)) (coll.view s)) (fun_ext same)

  marked_one :
      (i : ObjectId) (now : Time) (s : coll.State)
      → (only_error (coll.update_by_id i (read_update now) s)).0 ≡ ok tt
      → coll.view (only_error (coll.update_by_id i (read_update now) s)).1
        ≡ change_where (λ n. eqb n.id i) (as_read now) (coll.view s)
  marked_one i now s h =
      let p = coll.update_by_id i (read_update now) s in
      let (r, e) = only_error-ok p h in
      ap coll.view (only_error-state p)
      ∙ law.update_by_id_changes i (read_update now) s r e
      ∙ change_first-eq-change_where notification_schema (as_read now) i (coll.view s)
          (law.keys_distinct s)

  dropped_one :
      (user : UserId) (i : ObjectId) (s : coll.State)
      → (only_error (coll.delete_one (user_is user ∷ id_is i ∷ []) s)).0 ≡ ok tt
      → coll.view (only_error (coll.delete_one (user_is user ∷ id_is i ∷ []) s)).1
        ≡ select (λ n. not (is_of user n && eqb n.id i)) (coll.view s)
  dropped_one user i s h =
      let f = user_is user ∷ id_is i ∷ [] in
      let p = coll.delete_one f s in
      let (r, e) = only_error-ok p h in
      ap coll.view (only_error-state p)
      ∙ law.delete_one_drops f s r e
      ∙ ap (λ t. drop_first t (coll.view s))
          (fun_ext (λ (n : Notification). two_conditions user i n))
      ∙ drop_first-eq-select notification_schema (is_of user) i (coll.view s) (law.keys_distinct s)

  marked_converted :
      (r : Result ObjectId) (now : Time) (s : coll.State)
      → (update_converted coll ids now r s).0 ≡ ok tt
      → coll.view (update_converted coll ids now r s).1
        ≡ change_where (has_id r) (as_read now) (coll.view s)
  unfolding update_converted
  marked_converted (ok i) now s h = marked_one i now s h
  marked_converted (err e) now s h = cc

  dropped_converted :
      (user : UserId) (r : Result ObjectId) (s : coll.State)
      → (delete_converted coll ids user r s).0 ≡ ok tt
      → coll.view (delete_converted coll ids user r s).1
        ≡ select (λ n. not (is_of user n && has_id r n)) (coll.view s)
  unfolding delete_converted
  dropped_converted user (ok i) s h = dropped_one user i s h
  dropped_converted user (err e) s h = cc

  -- A marking that reports no error sets the read status and the update time of exactly the
  -- notifications that the method reaches, and changes nothing else.
  pub view-mark :
      (scope : Scope) (now : Time) (user : UserId) (s : coll.State)
      → (mark coll ids scope now user s).0 ≡ ok tt
      → coll.view (mark coll ids scope now user s).1
        ≡ change_where (reaches ids scope user) (as_read now) (coll.view s)
  unfolding mark mark_as_read mark_app_as_read mark_group_as_read mark_notification_as_read
  view-mark everything now user s h = marked_many _ _ now s (λ n. ground arith) h
  view-mark (app a) now user s h = marked_many _ _ now s (λ n. ground arith) h
  view-mark (group a g) now user s h = marked_many _ _ now s (λ n. ground arith) h
  view-mark (one id) now user s h = marked_converted (ids.from_hex (clean id)) now s h

  -- A deletion that reports no error removes exactly the user's notifications in the scope.
  pub view-delete :
      (scope : Scope) (user : UserId) (s : coll.State)
      → (delete coll ids scope user s).0 ≡ ok tt
      → coll.view (delete coll ids scope user s).1
        ≡ select (λ n. not (covers ids scope user n)) (coll.view s)
  unfolding delete delete_notifications delete_app_notifications delete_group_notifications
      delete_notification
  view-delete everything user s h = dropped_many _ _ s (λ n. ground arith) h
  view-delete (app a) user s h = dropped_many _ _ s (λ n. ground arith) h
  view-delete (group a g) user s h = dropped_many _ _ s (λ n. ground arith) h
  view-delete (one id) user s h = dropped_converted user (ids.from_hex (clean id)) s h
