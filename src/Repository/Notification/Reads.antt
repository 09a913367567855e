-- ===== src/Repository/Notification/Reads.antt =====
-- What the reading methods give, and what a user reads after a write.
use mathlib.Core.Path.{fun_ext, subst}
use r2_notify_server.Prelude.{
  ◌≡◌, refl, sym, ◌∙◌, ap, Bool, true, false, not, Option, none, some, List, [], ◌∷◌, ◌++◌, map,
  Result, ok, err, Error, >>=-ok, eqb, any, select, find_first, change_where, arith, select-append,
  eq_refl, eq_of_some, if◌then◌else◌,
}
use r2_notify_server.Models.{ObjectId, Time, UserId, Notification}
use r2_notify_server.Mongo.{
  Collection, Lawful, ObjectIds, all_meet, object_id, other_id, InsertedId, SingleResult, failed,
  found, HasDistinctKeys, has_key,
}
use r2_notify_server.Repository.Notification.{
  find_all, find_by_id, create, read_all, read_one, inserted_id,
}
use r2_notify_server.Repository.Notification.Schema.{
  notification_schema, user_is, read_is, id_is, stored,
}
use r2_notify_server.Repository.Notification.Scope.{
  Scope, is_of, is_unread, as_read, covers, reaches, mark, delete,
}
use r2_notify_server.Repository.Notification.Writes.{view-mark, view-delete}

-- The loop gives a list only when every document decodes and the cursor does not fail.
read_all-ok :
    (items : List (Result Notification)) (failure : Option Error) (ds : List Notification)
    → read_all items failure ≡ ok ds
    → (items ≡ map ok ds) × (failure ≡ none)
unfolding read_all
read_all-ok [] none [] h = (refl, refl)
read_all-ok [] none (d ∷ ds) h = cc
read_all-ok [] (some e) ds h = cc
read_all-ok (item ∷ items) failure ds h =
    let (d, e, g) = >>=-ok item _ h in
    let (ds', e', g') = >>=-ok (read_all items failure) _ g in
    let (rest, whole) = read_all-ok items failure ds' e' in (ground arith, whole)

unread_test :
    (user : UserId) (n : Notification)
    → all_meet notification_schema (user_is user ∷ read_is false ∷ []) n ≡ is_unread user n
unread_test user n = ground arith

select-change_where :
    (user : UserId) (p : Notification → Bool) (now : Time) (ns : List Notification)
    → select (is_unread user) (change_where p (as_read now) ns)
      ≡ select (λ n. not (p n)) (select (is_unread user) ns)
select-change_where user p now [] = refl
select-change_where user p now (n ∷ ns) = ground (arith, select-change_where user p now ns)

select-select :
    (p q : Notification → Bool) (ns : List Notification)
    → select p (select q ns) ≡ select q (select p ns)
select-select p q [] = refl
select-select p q (n ∷ ns) = ground (arith, select-select p q ns)

any_last :
    (q : Notification → Bool) (d : Notification) (ns : List Notification)
    → any q (ns ++ d ∷ []) ≡ false
    → q d ≡ false
any_last q d [] h = ground arith
any_last q d (n ∷ ns) h = ground (arith, any_last q d ns)

-- The last document is the one found under its own key.
find_first-last :
    (p : Notification → Bool) (d : Notification) (ns : List Notification)
    → ((n : Notification) → p n ≡ true → eqb n.id d.id ≡ true)
    → p d ≡ true
    → HasDistinctKeys notification_schema (ns ++ d ∷ [])
    → find_first p (ns ++ d ∷ []) ≡ some d
find_first-last p d [] only holds distinct = ground arith
find_first-last p d (n ∷ ns) only holds distinct = ground (
  arith,
  only n,
  any_last (has_key notification_schema n.id) d ns distinct.0,
  find_first-last p d ns only holds distinct.1,
)

read_one-ok :
    (r : SingleResult Notification) (d : Notification) → read_one r ≡ ok d → r ≡ found (ok d)
unfolding read_one
read_one-ok (failed e) d h = ground arith
read_one-ok (found (ok n)) d h = cc
read_one-ok (found (err e)) d h = cc

module _ (coll : Collection notification_schema) (ids : ObjectIds) (law : Lawful coll) where
  -- A list that FindAll gives without an error is all of the user's unread notifications, in
  -- order, and the collection is as it was.
  pub find_all-view :
      (user : UserId) (s : coll.State) (ds : List Notification)
      → (find_all coll ids user s).0 ≡ ok ds
      → (ds ≡ select (is_unread user) (coll.view s))
        × (coll.view (find_all coll ids user s).1 ≡ coll.view s)
  unfolding find_all
  find_all-view user s ds h =
      let f = user_is user ∷ read_is false ∷ [] in
      let (c, e, g) = >>=-ok (coll.find f s).0 _ h in
      let (items, whole) = read_all-ok c.items c.failure ds g in
      (
        law.find_complete f s c ds e whole items
            ∙ ap (λ t. select t (coll.view s)) (fun_ext (unread_test user)),
        law.find_reads f s,
      )

  -- After a marking without an error, a user who reads the list without an error gets what was
  -- unread and outside what the marking reached.
  pub find_all-mark :
      (scope : Scope) (now : Time) (user : UserId) (s : coll.State) (ds : List Notification)
      → (mark coll ids scope now user s).0 ≡ ok tt
      → (find_all coll ids user (mark coll ids scope now user s).1).0 ≡ ok ds
      → ds ≡ select (λ n. not (reaches ids scope user n)) (select (is_unread user) (coll.view s))
  find_all-mark scope now user s ds h g =
      (find_all-view user _ ds g).0
      ∙ ap (select (is_unread user)) (view-mark coll ids law scope now user s h)
      ∙ select-change_where user (reaches ids scope user) now (coll.view s)

  -- After a deletion without an error, a user who reads the list without an error gets what was
  -- unread and outside the scope.
  pub find_all-delete :
      (scope : Scope) (user : UserId) (s : coll.State) (ds : List Notification)
      → (delete coll ids scope user s).0 ≡ ok tt
      → (find_all coll ids user (delete coll ids scope user s).1).0 ≡ ok ds
      → ds ≡ select (λ n. not (covers ids scope user n)) (select (is_unread user) (coll.view s))
  find_all-delete scope user s ds h g =
      (find_all-view user _ ds g).0
      ∙ ap (select (is_unread user)) (view-delete coll ids law scope user s h)
      ∙ select-select (is_unread user) (λ n. not (covers ids scope user n)) (coll.view s)

  -- A creation that gives an id has appended the notification under that id, its times cut to
  -- milliseconds.
  pub view-create :
      (n : Notification) (s : coll.State) (i : ObjectId)
      → (create coll ids n s).0 ≡ ok i
      → coll.view (create coll ids n s).1 ≡ coll.view s ++ stored i n ∷ []
  unfolding create inserted_id
  view-create n s i h =
      let (inserted, e, g) = >>=-ok (coll.insert_one n s).0 inserted_id h in
      law.insert_one_adds n s i (e ∙ ap ok (of_object_id inserted g))
    where
      of_object_id : (x : InsertedId) → inserted_id x ≡ ok i → x ≡ object_id i
      of_object_id (object_id j) p = cc
      of_object_id other_id p = cc

  -- After the creation of an unread notification, a reader without an error gets what the reader
  -- had unread, and behind it the new one if it is the reader's.
  find_all-create :
      (n : Notification) (reader : UserId) (s : coll.State) (i : ObjectId) (ds : List Notification)
      → n.read_status ≡ false
      → (create coll ids n s).0 ≡ ok i
      → (find_all coll ids reader (create coll ids n s).1).0 ≡ ok ds
      → ds
        ≡ select (is_unread reader) (coll.view s)
          ++ (if is_of reader n then stored i n ∷ [] else [])
  find_all-create n reader s i ds unread h g =
      (find_all-view reader _ ds g).0
      ∙ ap (select (is_unread reader)) (view-create n s i h)
      ∙ select-append (is_unread reader) (coll.view s) (stored i n ∷ [])
      ∙ ap (λ t. select (is_unread reader) (coll.view s) ++ t) (ground arith)

  -- A result of FindById under the id and the user of a new notification is that notification.
  find_by_id-create :
      (n d : Notification) (s : coll.State) (i : ObjectId)
      → (create coll ids n s).0 ≡ ok i
      → (find_by_id coll ids i n.user_id (create coll ids n s).1).0 ≡ ok d
      → d ≡ stored i n
  unfolding find_by_id
  find_by_id-create n d s i h g =
      let s' = (create coll ids n s).1 in
      let p = all_meet notification_schema (id_is i ∷ user_is n.user_id ∷ []) in
      let distinct =
        subst (HasDistinctKeys notification_schema) (view-create n s i h) (law.keys_distinct s') in
      let last =
        find_first-last p (stored i n) (coll.view s) (λ m e. ground arith)
          (ground (arith, eq_refl n.user_id)) distinct in
      eq_of_some (
        sym (law.find_one_found (id_is i ∷ user_is n.user_id ∷ []) s' d (read_one-ok _ d g))
        ∙ ap (find_first p) (view-create n s i h)
        ∙ last)
