-- ===== src/World.antt =====
-- The state that the server's requests and goroutines share: the two collections, Redis, the
-- websockets, and the map of services/client_store.go. MongoDB, Redis and gorilla/websocket are
-- parameters; what they are documented to do is in the `Lawful` records.
use r2_notify_server.Prelude.{
  String, ◌≡◌, ◌≢◌, Option, none, some, List, [], ◌∷◌, ◌++◌, Result, ok, Error, ◌==◌, eqb,
  if◌then◌else◌,
}
use r2_notify_server.Models.{Conn, UserId}
use r2_notify_server.Json.{Json, Bytes, TimeText}
use r2_notify_server.Mongo.{Collection, ObjectIds}
use r2_notify_server.Repository.Notification.Schema.{notification_schema}
use r2_notify_server.Repository.Configuration.Schema.{configuration_schema}

-- `Get`, `Set` and `Del` of the Redis client. A missing key is an error of `Get`.
pub record Redis : Type 1 where
  pub State : Type 0
  pub get : String → State → Result Bytes × State
  pub set : String → Bytes → State → Option Error × State
  pub del : String → State → Option Error × State
  pub view : State → String → Option Bytes

pub record LawfulRedis (redis : Redis) : Type 0 where
  pub get_reads : (k j : String) (s : redis.State) → redis.view (redis.get k s).1 j ≡ redis.view s j
  pub get_found :
      (k : String) (s : redis.State) (v : Bytes)
      → (redis.get k s).0 ≡ ok v
      → redis.view s k ≡ some v
  pub set_stores :
      (k : String) (v : Bytes) (s : redis.State)
      → (redis.set k v s).0 ≡ none
      → redis.view (redis.set k v s).1 k ≡ some v
  pub set_spares :
      (k j : String) (v : Bytes) (s : redis.State)
      → j ≢ k
      → redis.view (redis.set k v s).1 j ≡ redis.view s j
  pub del_removes :
      (k : String) (s : redis.State)
      → (redis.del k s).0 ≡ none
      → redis.view (redis.del k s).1 k ≡ none
  pub del_spares :
      (k j : String) (s : redis.State) → j ≢ k → redis.view (redis.del k s).1 j ≡ redis.view s j

-- `WriteMessage` of text messages and of pings, and `Close`, on the connections of the server.
pub record Sockets : Type 1 where
  pub State : Type 0
  pub write : Conn → Json → State → Option Error × State
  pub ping : Conn → State → Option Error × State
  pub close : Conn → State → State
  -- The text messages written to a connection so far.
  pub sent : State → Conn → List Json

pub record LawfulSockets (sockets : Sockets) : Type 0 where
  pub write_sends :
      (c d : Conn) (j : Json) (s : sockets.State)
      → (sockets.write c j s).0 ≡ none
      → sockets.sent (sockets.write c j s).1 d
        ≡ (if eqb c d then sockets.sent s d ++ j ∷ [] else sockets.sent s d)
  pub write_fails :
      (c d : Conn) (j : Json) (s : sockets.State) (e : Error)
      → (sockets.write c j s).0 ≡ some e
      → sockets.sent (sockets.write c j s).1 d ≡ sockets.sent s d
  pub ping_sends_no_text :
      (c d : Conn) (s : sockets.State) → sockets.sent (sockets.ping c s).1 d ≡ sockets.sent s d
  pub close_sends_nothing :
      (c d : Conn) (s : sockets.State) → sockets.sent (sockets.close c s) d ≡ sockets.sent s d

pub record Backend : Type 1 where
  pub notifications : Collection notification_schema
  pub configurations : Collection configuration_schema
  pub redis : Redis
  pub sockets : Sockets
  pub ids : ObjectIds
  pub times : TimeText

-- `map[string][]*websocket.Conn`
abbrev pub Clients : Type 0
Clients = UserId → Option (List Conn)

-- Indexing a missing key gives the nil slice.
abbrev pub connections : Option (List Conn) → List Conn
connections none = []
connections (some conns) = conns

abbrev pub conns_of : Clients → UserId → List Conn
conns_of clients user = connections (clients user)

abbrev pub put : UserId → List Conn → Clients → Clients
put user conns clients u = if user == u then some conns else clients u

abbrev pub remove : UserId → Clients → Clients
remove user clients u = if user == u then none else clients u

pub record World (b : Backend) : Type 0 where
  pub notifications : b.notifications.State
  pub configurations : b.configurations.State
  pub redis : b.redis.State
  pub sockets : b.sockets.State
  pub clients : Clients
