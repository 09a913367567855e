-- ===== src/Interleaving/Threads.antt =====
-- Goroutines that run handlers at the same time. A step is one call of a service or of the store.
use r2_notify_server.Prelude.{
  ℕ, String, ◌≡◌, Option, none, some, Result, ok, err, eqb, if◌then◌else◌,
}
use r2_notify_server.Text.{strip_prefix}
use r2_notify_server.Models.{UserId, Conn}
use r2_notify_server.Data.{EventHubNotificationPayload}
use r2_notify_server.Json.Decode.{unmarshal_event_hub_payload}
use r2_notify_server.World.{Backend, World}
use r2_notify_server.Utils.{Jwt, validate_token}
use r2_notify_server.Controller.{bearer_prefix}
use r2_notify_server.Server.{notifications, configurations}
use r2_notify_server.Interleaving.Program.{Program, returns, calls}
use r2_notify_server.Interleaving.Sequence.{
  Handler, frame, tick, handshake, request, event, program,
}

abbrev pub user_of_result : Result UserId → Option UserId
user_of_result (ok user) = some user
user_of_result (err e) = none

abbrev pub user_of_token : Jwt → String → Option String → Option UserId
user_of_token jwt secret none = none
user_of_token jwt secret (some token) = user_of_result (validate_token jwt token secret)

abbrev pub user_of_payload : Result EventHubNotificationPayload → Option UserId
user_of_payload (ok p) = some p.user_id
user_of_payload (err e) = none

module _ (b : Backend) where
  abbrev pub ServerHandler : Type 0
  ServerHandler = Handler b (notifications b) (configurations b)

  -- For whom a handler works.
  abbrev pub user_of : ServerHandler → Option UserId
  user_of (frame now f user conn) = some user
  user_of (tick user conn) = some user
  user_of (handshake jwt secret allowed now r conn) =
      user_of_result (validate_token jwt r.token secret)
  user_of (request binding jwt secret made changed r) =
      user_of_token jwt secret (strip_prefix bearer_prefix r.authorization)
  user_of (event made changed body) = user_of_payload (unmarshal_event_hub_payload body)

  -- A goroutine, with the user that its handler works for.
  pub data Thread : Type 1 where
    idle : Thread
    runs : Option UserId → {A : Type 0} → Program (World b) A → Thread

  -- `users` has the user of each connection that was let in.
  pub record State : Type 1 where
    pub world : World b
    pub users : Conn → Option UserId
    pub threads : ℕ → Thread

  abbrev pub at_thread : (ℕ → Thread) → ℕ → Thread → ℕ → Thread
  at_thread threads i thread j = if eqb j i then thread else threads j

  -- Messages and pings come on a connection of the user, and a new connection was not there before.
  abbrev pub MayStart : (Conn → Option UserId) → ServerHandler → Type 0
  MayStart users (frame now f user conn) = users conn ≡ some user
  MayStart users (tick user conn) = users conn ≡ some user
  MayStart users (handshake jwt secret allowed now r conn) = users conn ≡ none
  MayStart users _ = Unit

  abbrev pub users_with : ServerHandler → (Conn → Option UserId) → Conn → Option UserId
  users_with (handshake jwt secret allowed now r conn) users c =
      if eqb c conn then user_of_result (validate_token jwt r.token secret) else users c
  users_with _ users c = users c

  pub data Step (s : State) : State → Type 1 where
    starts :
        (i : ℕ) (h : ServerHandler)
        → s.threads i ≡ idle
        → MayStart s.users h
        → Step s (record {
          world = s.world;
          users = users_with h s.users;
          threads =
              at_thread s.threads i
                (runs (user_of h) (program b (notifications b) (configurations b) h));
        })
    does :
        (i : ℕ) (who : Option UserId) {A B : Type 0} (op : World b → B × World b)
        (next : B → Program (World b) A)
        → s.threads i ≡ runs who (calls op next)
        → Step s (record {
          world = (op s.world).1;
          users = s.users;
          threads = at_thread s.threads i (runs who (next (op s.world).0));
        })
    ends :
        (i : ℕ) (who : Option UserId) {A : Type 0} (a : A)
        → s.threads i ≡ runs who (returns a)
        → Step s (record s { threads = at_thread s.threads i idle })

  pub data Reach (s : State) : State → Type 1 where
    here : Reach s s
    later : {t u : State} → Reach s t → Step t u → Reach s u
