-- ===== src/Samples/Interleaved.antt =====
-- The theorems on handlers whose calls come between each other's: ann turns notifications off and on.
use r2_notify_server.Prelude.{
  ℕ, String, ◌≡◌, ◌≢◌, refl, ap, Bool, true, false, none, some, Option, [], ok, eqb, eqb_iff, ◌==◌,
  ◌||◌, eq_iff, arith, if◌then◌else◌, Result, List,
}
use r2_notify_server.Data
use r2_notify_server.Json.{Json, json}
use r2_notify_server.Json.Encode.{encode_configuration}
use r2_notify_server.Json.Decode.{unmarshal_configuration, unmarshal_event}
use r2_notify_server.World.{World}
use r2_notify_server.ClientStore.{update_client_info, send_to_user, send_notification_list_to_user}
use r2_notify_server.WebSocket.Events.{text}
use r2_notify_server.Repository
use r2_notify_server.Service
use r2_notify_server.Server.{notifications, configurations}
use r2_notify_server.Interleaving.Program.{returns, calls}
use r2_notify_server.Interleaving.Frames.{
  on_frame_calls, handle_message_calls, handle_parsed_calls, handle_event_calls, set_status_calls,
}
use r2_notify_server.Interleaving.Sequence.{frame, program}
use r2_notify_server.Interleaving.Threads.{
  ServerHandler, Thread, idle, runs, State, Reach, here, later, starts, does, at_thread,
}
use r2_notify_server.Interleaving.Safe.{IsOwned}
use r2_notify_server.Interleaving.Ownership.{Reach-threads-IsOwned, does_private}
use r2_notify_server.Models.{ClientInfo}
use r2_notify_server.WebSocket.Actions.{set_notification_status_action, set_status}
use r2_notify_server.Interleaving.Undisturbed.{info_to, set_notification_status_action_agrees}
use r2_notify_server.Interleaving.Race.{statuses_disagree}
use r2_notify_server.Repository.Configuration.Laws.{configuration_of}
use r2_notify_server.Repository.Configuration.Schema.{configuration_schema}
use r2_notify_server.Samples.Memory.{memory-Lawful}
use r2_notify_server.Samples.Parts.{logs, logs-Lawful, redis_cells-Lawful}
use r2_notify_server.Samples.Start.{backend, two_users, ann_settings}
use r2_notify_server.Samples.Sessions.{off, off_message}

-- Ann turns notifications off.
abbrev ann_turns_off : ServerHandler backend
ann_turns_off = frame 0 (text off_message) "ann" 3

abbrev on : Data.Configuration
on = record {
  event = "setNotificationStatus";
  content = record { id = ""; user_id = "ann"; enable_notification = true };
}

abbrev ann_turns_on : ServerHandler backend
ann_turns_on = frame 0 (text (json (encode_configuration on))) "ann" 9

abbrev two_at_rest : State backend
two_at_rest = record {
  world = two_users;
  users = λ c. if eqb c 4 then some "bob" else if eqb c 3 || eqb c 9 then some "ann" else none;
  threads = λ i. idle;
}

two_at_rest-IsOwned : IsOwned two_at_rest.users two_users.clients
two_at_rest-IsOwned u c =
    ground (arith, eq_iff u "ann", eq_iff u "bob", eqb_iff c 3, eqb_iff c 4, eqb_iff c 9)

-- Both of ann's goroutines have read their messages.
abbrev both_start : State backend
both_start = record {
  world = two_users;
  users = two_at_rest.users;
  threads =
      at_thread backend
        (at_thread backend two_at_rest.threads 0 (
          runs (some "ann")
            (program backend (notifications backend) (configurations backend) ann_turns_off)))
        1
        (runs (some "ann")
          (program backend (notifications backend) (configurations backend) ann_turns_on));
}

abbrev both_started : Reach backend two_at_rest both_start
both_started =
    later (later here (starts 0 ann_turns_off refl refl)) (starts 1 ann_turns_on refl refl)

-- Goroutine `i` has made its next call.
abbrev called : State backend → ℕ → Thread backend → State backend
called s i idle = s
called s i (runs who (returns a)) = s
called s i (runs who (calls op next)) =
    let (r, w) = op s.world in
    record {
      world = w;
      users = s.users;
      threads = at_thread backend s.threads i (runs who (next r));
    }

-- The first one has changed the database and Redis.
abbrev written : State backend
written = let s = called both_start 0 (both_start.threads 0) in called s 0 (s.threads 0)

written_reached : Reach backend two_at_rest written
unfolding on_frame_calls handle_message_calls handle_parsed_calls handle_event_calls
    set_status_calls unmarshal_event unmarshal_configuration encode_configuration
written_reached =
    later (later both_started (does 0 (some "ann") _ _ refl)) (does 0 (some "ann") _ _ refl)

Reach-threads-IsOwned_example : IsOwned written.users written.world.clients
Reach-threads-IsOwned_example =
    Reach-threads-IsOwned backend logs-Lawful two_at_rest written (λ i. refl) two_at_rest-IsOwned
      written_reached

abbrev named : Option String → Bool
named none = false
named (some user) = user == "ann"

abbrev no_list : World backend → Result (Unit {0}) × World backend
no_list =
    send_notification_list_to_user backend "ann"
      (record { event = Data.list_notifications; content = [] }) true

does_private_example :
    ◌≡◌ {A = List Json}
      (logs.sent (no_list written.world).1.sockets 4)
      (logs.sent written.world.sockets 4)
unfolding on_frame_calls unmarshal_event encode_configuration handle_event_calls
    unmarshal_configuration
does_private_example =
    does_private backend logs-Lawful two_at_rest written (λ i. refl) two_at_rest-IsOwned
      written_reached 0 (some "ann") no_list _ 4 "bob" refl refl
      (λ e. let differ : true ≡ false = ap (λ (o : Option String). named o) e in cc)

statuses_disagree_example :
    (t : State backend) × Reach backend both_start t
    × (t.threads 0 ≡ idle)
    × (t.threads 1 ≡ idle)
    × (configuration_of "ann" (backend.configurations.view t.world.configurations)
        ≡ some ann_settings)
    × ((payload : Result Json) → (send_to_user backend "ann" payload false t.world).0 ≢ ok tt)
unfolding set_status_calls on_frame_calls unmarshal_event encode_configuration handle_event_calls
    unmarshal_configuration Service.Configuration.update Repository.Configuration.update
    update_client_info
statuses_disagree_example =
    statuses_disagree backend redis_cells-Lawful (memory-Lawful configuration_schema) "ann"
      both_start 0 1 off on ann_settings "0001-01-01T00:00:00Z" (λ e. absurd (omega arith)) refl
      refl refl refl refl refl refl refl refl refl

abbrev ann_off : ClientInfo
ann_off = record { id = "ann"; connected_at = 0; enable_notification = false }

abbrev off_at : World backend
off_at =
    set_notification_status_action backend (notifications backend) (configurations backend)
      off_message "ann" two_users

set_notification_status_action_agrees_example :
    (configuration_of "ann" (backend.configurations.view off_at.configurations)
      ≡ some (record ann_settings { enable_notifications = false; user_id = "ann" }))
    × (ann_off
        ≡ info_to backend redis_cells-Lawful (memory-Lawful configuration_schema) "ann" false)
unfolding encode_configuration unmarshal_configuration r2_notify_server.Service.Configuration.update
    r2_notify_server.Repository.Configuration.update r2_notify_server.ClientStore.update_client_info
    r2_notify_server.ClientStore.get_client_info
    r2_notify_server.WebSocket.Actions.set_notification_status_action
    r2_notify_server.WebSocket.Actions.send_configurations_to_client
    r2_notify_server.Service.Configuration.find_by_app_and_user
    r2_notify_server.Repository.Configuration.find_by_app_and_user
    r2_notify_server.WebSocket.Actions.send_empty_notification_list_to_client
    r2_notify_server.ClientStore.send_notification_list_to_user
    r2_notify_server.ClientStore.send_to_user r2_notify_server.ClientStore.client_key
    r2_notify_server.Json.Decode.unmarshal_client_info
    r2_notify_server.Json.Encode.encode_client_info
    r2_notify_server.Json.Encode.encode_notification_list r2_notify_server.Json.Encode.encode_all
    r2_notify_server.ClientStore.send_configuration_to_user
    r2_notify_server.ClientStore.send_checked r2_notify_server.ClientStore.send_found
    r2_notify_server.ClientStore.send_marshalled r2_notify_server.ClientStore.write_all
    r2_notify_server.WebSocket.Actions.send_found_configuration
    r2_notify_server.WebSocket.Actions.set_status
set_notification_status_action_agrees_example =
    set_notification_status_action_agrees backend redis_cells-Lawful
      (memory-Lawful configuration_schema) "ann" off_message off ann_settings ann_off
      "0001-01-01T00:00:00Z" two_users refl refl refl refl refl refl refl
