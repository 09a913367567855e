-- ===== src/Service/Configuration.antt =====
-- services/configuration/*.go, over any implementation of the repository's interface.
use r2_notify_server.Prelude.{Bool, true, false, Result, ok, err, validator_nil, Exec, ◌>>=◌}
use r2_notify_server.Models
use r2_notify_server.Models.{ObjectId, UserId}
use r2_notify_server.Data
use r2_notify_server.Data.{list_configurations}
use r2_notify_server.Mongo.{ObjectIds}
use r2_notify_server.Repository.Configuration.{ConfigurationRepository}

-- The interface that the websocket handler is given.
pub record ConfigurationService (S : Type 0) : Type 0 where
  pub find_by_app_and_user : UserId → Exec S Data.Configuration
  pub create : Models.Configuration → Exec S ObjectId
  pub update : Models.Configuration → Exec S (Unit {0})
  pub delete : UserId → Exec S (Unit {0})

unfoldable pub listed : ObjectIds → Models.Configuration → Data.Configuration
listed ids c = record {
  event = list_configurations;
  content = record {
    id = ids.hex c.id;
    user_id = c.user_id;
    enable_notification = c.enable_notifications;
  };
}

module _ {S : Type 0} (repository : ConfigurationRepository S) (ids : ObjectIds) where
  unfoldable pub find_by_app_and_user : UserId → Exec S Data.Configuration
  find_by_app_and_user user s =
      let (result, s') = repository.find_by_app_and_user user s in
      (result >>= λ model. ok (listed ids model), s')

  unfoldable pub create : Models.Configuration → Exec S ObjectId
  create configuration s = repository.create configuration s

  unfoldable pub update : Models.Configuration → Exec S (Unit {0})
  update configuration s = repository.update configuration s

  unfoldable pub delete : UserId → Exec S (Unit {0})
  delete user s = repository.delete user s

  abbrev pub configuration_service : ConfigurationService S
  configuration_service = record {
    find_by_app_and_user = find_by_app_and_user;
    create = create;
    update = update;
    delete = delete;
  }

  -- NewConfigurationServiceImpl: whether a validator is given.
  unfoldable pub new_configuration_service : Bool → Result (ConfigurationService S)
  new_configuration_service false = err validator_nil
  new_configuration_service true = ok configuration_service
