-- ===== src/Repository/Configuration/Laws.antt =====
-- What a user's configuration is after a write, and when the writes report an error.
use mathlib.Core.Path.{fun_ext}
use r2_notify_server.Prelude.{
  ◌≡◌, refl, sym, ◌∙◌, ap, ◌≢◌, Bool, true, false, Option, none, some, List, [], ◌∷◌, ◌++◌, Result,
  ok, err, >>=-ok, ◌==◌, eq_iff, eq_refl, eq_of_some, any, find_first, change_first, arith,
  if◌then◌else◌, eqb,
}
use r2_notify_server.Models.{ObjectId, UserId, Configuration, nil_object_id}
use r2_notify_server.Mongo.{
  Collection, Lawful, SingleResult, failed, found, InsertedId, object_id, other_id, UpdateResult,
  all_meet, assign_all,
}
use r2_notify_server.Repository.Configuration.{
  find_by_app_and_user, create, update, decode_one, inserted_id, set_fields, some_matched,
}
use r2_notify_server.Repository.Configuration.Schema.{configuration_schema, user_is, stored}

abbrev pub is_of : UserId → Configuration → Bool
is_of user c = c.user_id == user

-- The configuration that the server takes for the user's: the first in the collection.
abbrev pub configuration_of : UserId → List Configuration → Option Configuration
configuration_of user = find_first (is_of user)

-- A configuration with the settings of another, under its own id if that has none.
abbrev pub overwritten : Configuration → Configuration → Configuration
overwritten c old = record c { id = if eqb c.id nil_object_id then old.id else c.id }

find_first_changed :
    (c old : Configuration) (user : UserId) (cs : List Configuration)
    → find_first (is_of c.user_id) cs ≡ some old
    → find_first (is_of user) (
        change_first
          (all_meet configuration_schema (user_is c.user_id ∷ []))
          (assign_all configuration_schema (set_fields c))
          cs)
      ≡ (if c.user_id == user then some (overwritten c old) else find_first (is_of user) cs)
find_first_changed c old user [] h = cc
find_first_changed c old user (d ∷ ds) h = ground (
  arith,
  find_first_changed c old user ds,
  eq_iff d.user_id c.user_id,
  eq_iff d.user_id user,
  eq_iff c.user_id user,
)

find_first_added :
    (c : Configuration) (cs : List Configuration) (i : ObjectId)
    → find_first (is_of c.user_id) cs ≡ none
    → find_first (is_of c.user_id) (cs ++ stored i c ∷ []) ≡ some (stored i c)
find_first_added c [] i h = ground (arith, eq_refl c.user_id)
find_first_added c (d ∷ ds) i h = ground (arith, find_first_added c ds i)

any-find_first :
    (p : Configuration → Bool) (cs : List Configuration)
    → any p cs ≡ (elim (find_first p cs) [ none ↦ false | some c ↦ true ])
any-find_first p [] = refl
any-find_first p (c ∷ cs) = ground (arith, any-find_first p cs)

one_condition : (user : UserId) → all_meet configuration_schema (user_is user ∷ []) ≡ is_of user
one_condition user = fun_ext (λ (c : Configuration). ground arith)

decode_one-ok :
    (r : SingleResult Configuration) (c : Configuration) → decode_one r ≡ ok c → r ≡ found (ok c)
unfolding decode_one
decode_one-ok (failed e) c h = cc
decode_one-ok (found r) c h = ap found h

some_matched-ok :
    (r : Result UpdateResult)
    → some_matched r ≡ ok tt
    → (u : UpdateResult) × (r ≡ ok u) × (eqb u.matched_count 0 ≡ false)
unfolding some_matched
some_matched-ok (err e) h = cc
some_matched-ok (ok u) h = (u, refl, ground arith)

module _ (coll : Collection configuration_schema) (law : Lawful coll) where
  -- A configuration that FindByAppAndUser gives is the user's first in the collection, which is as
  -- it was.
  find_by_app_and_user-view :
      (user : UserId) (s : coll.State) (c : Configuration)
      → (find_by_app_and_user coll user s).0 ≡ ok c
      → (configuration_of user (coll.view s) ≡ some c)
        × (coll.view (find_by_app_and_user coll user s).1 ≡ coll.view s)
  unfolding find_by_app_and_user
  find_by_app_and_user-view user s c h =
      let f = user_is user ∷ [] in
      (
        ap (λ t. find_first t (coll.view s)) (sym (one_condition user))
            ∙ law.find_one_found f s c (decode_one-ok _ c h),
        law.find_one_reads f s,
      )

  view-create :
      (c : Configuration) (i : ObjectId) (s : coll.State)
      → (create coll c s).0 ≡ ok i
      → coll.view (create coll c s).1 ≡ coll.view s ++ stored i c ∷ []
  unfolding create inserted_id
  view-create c i s h =
      let (inserted, e, g) = >>=-ok (coll.insert_one c s).0 inserted_id h in
      law.insert_one_adds c s i (e ∙ ap ok (of_object_id inserted g))
    where
      of_object_id : (x : InsertedId) → inserted_id x ≡ ok i → x ≡ object_id i
      of_object_id (object_id j) p = cc
      of_object_id other_id p = cc

  -- The count that Update tests is positive only if the user has a configuration.
  updated_one :
      (c : Configuration) (s : coll.State) (u : UpdateResult)
      → (coll.update_one (user_is c.user_id ∷ []) (set_fields c) s).0 ≡ ok u
      → eqb u.matched_count 0 ≡ false
      → configuration_of c.user_id (coll.view s) ≢ none
  updated_one c s u e positive absent = ground (
    arith,
    law.update_one_matched (user_is c.user_id ∷ []) (set_fields c) s u e,
    ap (λ t. any t (coll.view s)) (one_condition c.user_id),
    any-find_first (is_of c.user_id) (coll.view s),
  )

  -- Updating the settings of a user who has no configuration reports an error.
  update_missing :
      (c : Configuration) (s : coll.State)
      → configuration_of c.user_id (coll.view s) ≡ none
      → (update coll c s).0 ≢ ok tt
  unfolding update
  update_missing c s absent h =
      let (u, e, positive) = some_matched-ok _ h in updated_one c s u e positive absent

  -- An update without an error, for a user who has a configuration, overwrites the configuration
  -- of that user and leaves every other user the configuration that they had.
  pub update-view :
      (c old : Configuration) (user : UserId) (s : coll.State)
      → configuration_of c.user_id (coll.view s) ≡ some old
      → (update coll c s).0 ≡ ok tt
      → configuration_of user (coll.view (update coll c s).1) ≡ (
          if c.user_id == user
          then some (overwritten c old)
          else configuration_of user (coll.view s))
  unfolding update
  update-view c old user s present h =
      let (u, e, _) = some_matched-ok _ h in
      ap (configuration_of user)
        (law.update_one_changes (user_is c.user_id ∷ []) (set_fields c) s u e)
      ∙ find_first_changed c old user (coll.view s) present

  -- The first configuration of a user, once created, is the one that is found.
  find-create :
      (c d : Configuration) (i : ObjectId) (s : coll.State)
      → configuration_of c.user_id (coll.view s) ≡ none
      → (create coll c s).0 ≡ ok i
      → (find_by_app_and_user coll c.user_id (create coll c s).1).0 ≡ ok d
      → d ≡ stored i c
  find-create c d i s absent h g = eq_of_some (
      sym (find_by_app_and_user-view c.user_id _ d g).0
      ∙ ap (configuration_of c.user_id) (view-create c i s h)
      ∙ find_first_added c (coll.view s) i absent)
