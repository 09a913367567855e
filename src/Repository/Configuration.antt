-- ===== src/Repository/Configuration.antt =====
-- repository/configuration/*.go.
pub mod Schema
pub mod Laws
use r2_notify_server.Prelude.{
  ℕ, Bool, true, false, List, [], ◌∷◌, Result, ok, err, Error, no_documents, no_document_to_update,
  no_document_to_delete, inserted_id_not_object_id, Exec, ◌>>=◌, eqb, if◌then◌else◌,
}
use r2_notify_server.Models.{ObjectId, UserId, Configuration, nil_object_id}
use r2_notify_server.Mongo.{
  Collection, SingleResult, failed, found, InsertedId, object_id, other_id, UpdateResult,
}
use Schema.{
  configuration_schema, Cond, user_is, Assign, set_id, set_user_id, set_enable_notifications,
}

-- The interface that the service is given.
pub record ConfigurationRepository (S : Type 0) : Type 0 where
  pub find_by_app_and_user : UserId → Exec S Configuration
  pub create : Configuration → Exec S ObjectId
  pub update : Configuration → Exec S (Unit {0})
  pub delete : UserId → Exec S (Unit {0})

-- `Decode` of a SingleResult gives the result's own error first.
unfoldable pub decode_one : SingleResult Configuration → Result Configuration
decode_one (failed e) = err e
decode_one (found r) = r

unfoldable pub inserted_id : InsertedId → Result ObjectId
inserted_id (object_id id) = ok id
inserted_id other_id = err inserted_id_not_object_id

-- The fields of a `$set` of the whole struct: the tag `_id,omitempty` leaves a nil id out.
abbrev pub set_fields : Configuration → List Assign
set_fields c =
    let fields = set_user_id c.user_id ∷ set_enable_notifications c.enable_notifications ∷ [] in
    if eqb c.id nil_object_id then fields else set_id c.id ∷ fields

-- The tests on the counts that Update and Delete end with.
unfoldable pub some_matched : Result UpdateResult → Result (Unit {0})
some_matched (err e) = err e
some_matched (ok r) = if eqb r.matched_count 0 then err no_document_to_update else ok tt

unfoldable pub some_deleted : Result ℕ → Result (Unit {0})
some_deleted (err e) = err e
some_deleted (ok n) = if eqb n 0 then err no_document_to_delete else ok tt

module _ (coll : Collection configuration_schema) where
  open coll use {State, find_one, insert_one, update_one, delete_one}

  unfoldable pub find_by_app_and_user : UserId → Exec State Configuration
  unfolding decode_one
  find_by_app_and_user user s = let (r, s') = find_one (user_is user ∷ []) s in (decode_one r, s')

  unfoldable pub create : Configuration → Exec State ObjectId
  unfolding inserted_id
  create configuration s = let (r, s') = insert_one configuration s in (r >>= inserted_id, s')

  unfoldable pub update : Configuration → Exec State (Unit {0})
  unfolding some_matched
  update configuration s =
      let (r, s') = update_one (user_is configuration.user_id ∷ []) (set_fields configuration) s in
      (some_matched r, s')

  unfoldable pub delete : UserId → Exec State (Unit {0})
  unfolding some_deleted
  delete user s = let (r, s') = delete_one (user_is user ∷ []) s in (some_deleted r, s')

  -- NewConfigurationRepositoryImpl
  abbrev pub configuration_repository : ConfigurationRepository State
  configuration_repository = record {
    find_by_app_and_user = find_by_app_and_user;
    create = create;
    update = update;
    delete = delete;
  }
