-- ===== src/Samples/Lifetime.antt =====
-- The theorems on the end of the process, with an event hub of two partitions.
use r2_notify_server.Prelude.{
  String, ◌≡◌, refl, true, none, [], ◌∷◌, ok, Error, ◌==◌, if◌then◌else◌,
}
use r2_notify_server.Strconv
use r2_notify_server.Config
use r2_notify_server.Config.{Environment, load_config, get_env_bool}
use r2_notify_server.Logger.{Logger, new_test_sink, info, buffer}
use r2_notify_server.Process.{
  EventHub, Setting, Running, waits, returned, listen_and_serve, announce_server, on_signal, cancel,
  shut_down, start_event_hub_consumer, consumer_starts, listens, announces, signal_comes, cancels,
  shuts_down, exits, flush_log, flushes, main_returns, Reach, here, later, services_made, exit_zero,
}
use r2_notify_server.Process.Endings.{IsOutcome, Reach-ending}
use r2_notify_server.Process.Stopping.{Reach-stopped}
use r2_notify_server.Samples.Process.{cores}

abbrev two_partitions : EventHub
two_partitions = record {
  Hub = String;
  new_hub = λ text. ok text;
  partition_ids = λ cancelled hub. ok ("0" ∷ "1" ∷ []);
}

abbrev with_hub : Environment
with_hub key = if key == "ENABLE_EVENT_HUB" then "true" else ""

abbrev sink : Logger
sink = new_test_sink info

abbrev text_of : Error → String
text_of e = "error"

abbrev setting : Setting
setting = record {
  zap = cores;
  logger = sink;
  error_text = text_of;
  hubs = two_partitions;
  env = with_hub;
}

abbrev Now : Type 0
Now = Running setting

abbrev made : Now
made = services_made setting []

-- The consumer has its partitions.
abbrev consuming : Now
consuming = start_event_hub_consumer setting 1 made

abbrev consuming_reached : Reach setting made consuming
consuming_reached = later here refl (consumer_starts 1 refl)

Reach-stopped_example :
    ((u : Now) × Reach setting consuming u
      × (u.ending ≡ exit_zero sink)
      × (u.consumer ≡ returned)
      × (u.closed ≡ true))
    × ((u : Now) × Reach setting consuming u
        × (u.ending ≡ exit_zero sink)
        × (u.consumer ≡ waits ";EntityPath=" ("0" ∷ "1" ∷ []))
        × (u.closed ≡ consuming.closed))
unfolding start_event_hub_consumer load_config get_env_bool Strconv.parse_bool Config.get_env
Reach-stopped_example =
    Reach-stopped setting 2 [] consuming ";EntityPath=" ("0" ∷ "1" ∷ []) consuming_reached refl
      (λ e. cc) refl

-- A signal comes when the server listens.
abbrev serving_now : Now
serving_now = announce_server setting 2 (listen_and_serve setting made)

abbrev shutting_now : Now
shutting_now = cancel setting (on_signal setting 3 serving_now)

abbrev stopped : Now
stopped = exits setting 0 (flush_log setting (shut_down setting 4 none shutting_now))

abbrev stopped_reached : Reach setting made stopped
unfolding shut_down
stopped_reached =
    let shutting : Reach setting made shutting_now =
      later
        (later (later (later here refl (listens refl)) refl (announces 2 refl)) refl
          (signal_comes 3 refl))
        refl (cancels refl) in
    later (later (later shutting refl (shuts_down 4 none refl)) refl (flushes refl)) refl
      (main_returns refl)

Reach-ending_example : IsOutcome setting stopped (record { code = 0; flushed = buffer ∷ [] })
unfolding shut_down
Reach-ending_example =
    Reach-ending setting [] stopped stopped_reached (record { code = 0; flushed = buffer ∷ [] })
      refl
