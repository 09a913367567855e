-- ===== src/ClientStore.antt =====
-- services/client_store.go. `clientsMutex` makes each operation one step.
pub mod Writing
pub mod Delivery
pub mod Registry
pub mod Deleting
pub mod Keeping
pub mod Completion
pub mod Operations
pub mod Register
use Prim.Native.String
use r2_notify_server.Prelude.{
  String, Bool, true, false, not, ◌&&◌, Option, none, some, List, [], ◌∷◌, ◌++◌, Result, ok, err,
  Error, user_not_connected, notifications_disabled, Exec, ◌>>=◌, select, eqb, if◌then◌else◌,
}
use r2_notify_server.Models.{UserId, Conn, ClientInfo}
use r2_notify_server.Data.{EventNotification, NotificationList, Configuration}
use r2_notify_server.Json.{Json, Bytes}
use r2_notify_server.Json.Encode.{
  encode_client_info, encode_configuration, encode_event_notification, encode_notification_list,
  bytes_of,
}
use r2_notify_server.Json.Decode.{unmarshal_client_info}
use r2_notify_server.World.{Backend, World, conns_of, put, remove}

unfoldable pub client_key : UserId → String
client_key user = String.◌++◌ "client:" user

abbrev pub as_result : Option Error → Result (Unit {0})
as_result none = ok tt
as_result (some e) = err e

abbrev pub without : Conn → List Conn → List Conn
without conn = select (λ c. not (eqb c conn))

module _ (b : Backend) where
  -- `Set` of the client's JSON under its key, the end of StoreClient and of UpdateClientInfo.
  abbrev pub save_info : ClientInfo → Exec (World b) (Unit {0})
  save_info info w =
      let (e, redis') =
        b.redis.set (client_key info.id) (bytes_of (encode_client_info b.times info)) w.redis in
      (as_result e, record w { redis = redis' })

  unfoldable pub store_client : ClientInfo → Conn → Exec (World b) (Unit {0})
  store_client info conn w =
      save_info info
        (record w { clients = put info.id (conns_of w.clients info.id ++ conn ∷ []) w.clients })

  unfoldable pub delete_client : UserId → Exec (World b) (Unit {0})
  delete_client id w =
      let (e, redis') = b.redis.del (client_key id) w.redis in
      (as_result e, record w { clients = remove id w.clients; redis = redis' })

  -- The end of RemoveConnection, on the connections that remain.
  unfoldable pub keep_remaining : UserId → List Conn → World b → World b
  keep_remaining user [] w = record w {
    clients = remove user w.clients;
    redis = (b.redis.del (client_key user) w.redis).1;
  }
  keep_remaining user (c ∷ cs) w = record w { clients = put user (c ∷ cs) w.clients }

  unfoldable pub remove_found : UserId → Conn → Option (List Conn) → World b → World b
  unfolding keep_remaining
  remove_found user conn none w = w
  remove_found user conn (some conns) w = keep_remaining user (without conn conns) w

  unfoldable pub remove_connection : UserId → Conn → World b → World b
  unfolding remove_found
  remove_connection user conn w = remove_found user conn (w.clients user) w

  unfoldable pub get_client_info : UserId → Exec (World b) ClientInfo
  get_client_info id w =
      let (r, redis') = b.redis.get (client_key id) w.redis in
      (r >>= unmarshal_client_info b.times, record w { redis = redis' })

  unfoldable pub update_client_info : ClientInfo → Exec (World b) (Unit {0})
  update_client_info info w = save_info info w

  -- The loop of sendToUser: writes to each connection, and gives those that took the message.
  unfoldable pub write_all : List Conn → Json → b.sockets.State → List Conn × b.sockets.State
  write_all [] j k = ([], k)
  write_all (c ∷ cs) j k =
      let (e, k') = b.sockets.write c j k in
      let (active, k'') = write_all cs j k' in (elim e [ none ↦ c ∷ active | some _ ↦ active ], k'')

  -- sendToUser behind its checks.
  abbrev pub deliver : UserId → List Conn → Json → World b → World b
  deliver user conns j w =
      let (active, k) = write_all conns j w.sockets in
      record w { sockets = k; clients = put user active w.clients }

  -- sendToUser from json.Marshal on.
  unfoldable pub send_marshalled : UserId → List Conn → Result Json → Exec (World b) (Unit {0})
  send_marshalled user conns (err e) w = (err e, w)
  send_marshalled user conns (ok j) w = (ok tt, deliver user conns j w)

  -- sendToUser behind getConnAndInfo.
  unfoldable pub send_checked :
      UserId → List Conn → Result ClientInfo → Result Json → Bool → Exec (World b) (Unit {0})
  unfolding send_marshalled
  send_checked user conns (err e) payload bypass w = (err e, w)
  send_checked user conns (ok info) payload bypass w =
      if not bypass && not info.enable_notification
      then (err notifications_disabled, w)
      else send_marshalled user conns payload w

  -- getConnAndInfo on what the map has for the user, and the rest of sendToUser.
  unfoldable pub send_found :
      UserId → Option (List Conn) → Result Json → Bool → Exec (World b) (Unit {0})
  unfolding send_checked
  send_found user none payload bypass w = (err user_not_connected, w)
  send_found user (some conns) payload bypass w =
      let (info, w') = get_client_info user w in send_checked user conns info payload bypass w'

  unfoldable pub send_to_user : UserId → Result Json → Bool → Exec (World b) (Unit {0})
  unfolding send_found
  send_to_user user payload bypass w = send_found user (w.clients user) payload bypass w

  unfoldable pub send_notification_to_user : EventNotification → Bool → Exec (World b) (Unit {0})
  send_notification_to_user payload bypass =
      send_to_user payload.content.user_id (encode_event_notification b.times payload) bypass

  unfoldable pub send_configuration_to_user : Configuration → Bool → Exec (World b) (Unit {0})
  send_configuration_to_user payload bypass =
      send_to_user payload.content.user_id (ok (encode_configuration payload)) bypass

  unfoldable pub send_notification_list_to_user :
      UserId → NotificationList → Bool → Exec (World b) (Unit {0})
  send_notification_list_to_user user notifications bypass =
      send_to_user user (encode_notification_list b.times notifications) bypass
