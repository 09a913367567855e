-- ===== src/Process.antt =====
-- main.go behind its start, and event-hub/consumer/consumer.go around its callback: the goroutines of
-- main, of the consumer and of the server, and how the process ends.
pub mod Endings
pub mod Stopping
use Prim.Native.String.{◌++◌}
use r2_notify_server.Prelude
use r2_notify_server.Prelude.{
  ℕ, ◌≡◌, Option, none, some, String, Bool, true, false, List, [], Result, ok, err, other, Error,
  if◌then◌else◌,
}
use r2_notify_server.Config.{Environment, load_config}
use r2_notify_server.Models.{Time}
use r2_notify_server.Logger.{
  Zap, Logger, LogPayload, Sink, Output, log_info, log_debug, log_error, flush,
}

-- eventhub.NewHubFromConnectionString, and GetRuntimeInformation with a context that is cancelled or
-- not.
pub record EventHub : Type 1 where
  pub Hub : Type 0
  pub new_hub : String → Result Hub
  pub partition_ids : (cancelled : Bool) → Hub → Result (List String)

-- Where main is: `shutting` before its call of Shutdown, `failing` before its os.Exit, `unwinding`
-- before its deferred calls, and `log_flushed` behind them.
pub data MainAt : Type 0 where
  launching : MainAt
  launched : MainAt
  serving : MainAt
  signalled : MainAt
  shutting : MainAt
  failing : MainAt
  unwinding : MainAt
  log_flushed : MainAt

pub data ServerAt : Type 0 where
  not_begun : ServerAt
  listening : ServerAt
  listen_failed : ServerAt
  server_closed : ServerAt

-- `waits` for the end of the context, with a receiver for each partition.
pub data ConsumerAt (Hub : Type 0) : Type 0 where
  begins : ConsumerAt Hub
  waits : Hub → List String → ConsumerAt Hub
  closes : Hub → ConsumerAt Hub
  returned : ConsumerAt Hub
  consumer_failed : ConsumerAt Hub

-- The exit code, and the sinks that were flushed until then.
pub record Ending : Type 0 where
  pub code : ℕ
  pub flushed : List Sink

pub record Process (Hub : Type 0) : Type 0 where
  pub main : MainAt
  pub consumer : ConsumerAt Hub
  pub server : ServerAt
  pub cancelled : Bool
  pub closed : Bool
  pub output : Output
  pub flushed : List Sink
  pub ending : Option Ending

-- The ending of a main that has returned.
abbrev pub exit_zero : Logger → Option Ending
exit_zero logger = some (record { code = 0; flushed = flush logger.destination })

abbrev payload : String → String → String → Option String → LogPayload
payload component operation message problem = record {
  component = component;
  operation = operation;
  message = message;
  correlation_id = "";
  user_id = "";
  app_id = "";
  error = problem;
}

abbrev pub main_payload : String → String → Option String → LogPayload
main_payload operation message problem = payload "Main" operation message problem

abbrev consumer_payload : String → String → LogPayload
consumer_payload operation message =
    payload "Azure EventHub Consumer Consumer" operation message none

-- What the goroutines are given; `error_text` is the method Error.
pub record Setting : Type 1 where
  pub zap : Zap
  pub logger : Logger
  pub error_text : Error → String
  pub hubs : EventHub
  pub env : Environment

module _ (p : Setting) where
  abbrev pub Running : Type 0
  Running = Process p.hubs.Hub

  -- The process is over. os.Exit does not make the deferred calls.
  abbrev pub exits : ℕ → Running → Running
  exits code s = record s { ending = some (record { code = code; flushed = s.flushed }) }

  -- The consumer's goroutine in main, when StartEventHubConsumer gives an error, up to os.Exit.
  abbrev pub consumer_fails : Time → Error → Running → Running
  consumer_fails now e s = record s {
    output =
        log_error p.zap p.logger now
          (main_payload "EventHubConsumer" "Failed to start Event Hub consumer"
            (some (p.error_text e)))
          s.output;
    consumer = consumer_failed;
  }

  -- StartEventHubConsumer behind GetRuntimeInformation.
  unfoldable pub partitions_found : Time → p.hubs.Hub → Result (List String) → Running → Running
  partitions_found now hub (err e) s = consumer_fails now e s
  partitions_found now hub (ok ids) s = record s { consumer = waits hub ids }

  -- StartEventHubConsumer behind NewHubFromConnectionString.
  unfoldable pub hub_found : Time → Result p.hubs.Hub → Running → Running
  unfolding partitions_found
  hub_found now (err e) s =
      consumer_fails now (other ("failed to connect to Event Hub: " ++ p.error_text e)) s
  hub_found now (ok hub) s =
      partitions_found now hub (p.hubs.partition_ids s.cancelled hub) (record s {
        output =
            log_debug p.zap p.logger now
              (consumer_payload "StartEventHubConsumer" "Connected to Event Hub") s.output;
      })

  -- StartEventHubConsumer until it waits for the end of the context.
  unfoldable pub start_event_hub_consumer : Time → Running → Running
  unfolding hub_found
  start_event_hub_consumer now s =
      let c = load_config p.env in
      if c.enable_event_hub
      then hub_found now
          (p.hubs.new_hub (
            c.event_hub_namespace_con_string ++ ";EntityPath="
            ++ c.event_hub_notification_event_name))
          s
      else record s {
        consumer = returned;
        output =
            log_info p.zap p.logger now
              (consumer_payload "StartEventHubConsumer" "Event Hub consumer is disabled") s.output;
      }

  -- Behind `<-ctx.Done()`.
  abbrev pub consumer_done : Time → p.hubs.Hub → Running → Running
  consumer_done now hub s = record s {
    consumer = closes hub;
    output =
        log_info p.zap p.logger now
          (consumer_payload "Shutdown EventHub Consumer" "Shutting down event hub consumer")
          s.output;
  }

  abbrev pub close_hub : Running → Running
  close_hub s = record s { consumer = returned; closed = true }

  abbrev pub listen_and_serve : Running → Running
  listen_and_serve s = record s { main = launched; server = listening }

  abbrev pub announce_server : Time → Running → Running
  announce_server now s = record s {
    main = serving;
    output =
        log_info p.zap p.logger now
          (main_payload "Startup" ("Server started on port " ++ (load_config p.env).port) none)
          s.output;
  }

  abbrev pub on_signal : Time → Running → Running
  on_signal now s = record s {
    main = signalled;
    output =
        log_info p.zap p.logger now (main_payload "Startup" "Received shutdown signal" none)
          s.output;
  }

  abbrev pub cancel : Running → Running
  cancel s = record s { main = shutting; cancelled = true }

  -- main behind its call of Shutdown, up to os.Exit or the deferred calls.
  unfoldable pub shut_down : Time → Option Error → Running → Running
  shut_down now none s = record s {
    output =
        log_info p.zap p.logger now (main_payload "Exit" "Server exited properly" none) s.output;
    main = unwinding;
  }
  shut_down now (some e) s = record s {
    output =
        log_error p.zap p.logger now
          (main_payload "Startup" "Received shutdown signal" (some (p.error_text e))) s.output;
    main = failing;
  }

  -- The deferred calls: the contexts are cancelled already, and the log is flushed.
  abbrev pub flush_log : Running → Running
  flush_log s = record s { main = log_flushed; flushed = flush p.logger.destination }

  -- What a goroutine does next. log.Fatalf writes to the standard error and exits. The handlers and
  -- the consumer's callback may log at any time, and may end the process by a fatal error of Go.
  pub data Move (s : Running) : Running → Type 0 where
    consumer_starts : (now : Time) → s.consumer ≡ begins → Move s (start_event_hub_consumer now s)
    context_done :
        (now : Time) (hub : p.hubs.Hub) (ids : List String)
        → s.consumer ≡ waits hub ids
        → s.cancelled ≡ true
        → Move s (consumer_done now hub s)
    hub_closes : (hub : p.hubs.Hub) → s.consumer ≡ closes hub → Move s (close_hub s)
    listens : s.main ≡ launching → Move s (listen_and_serve s)
    listen_fails : s.server ≡ listening → Move s (record s { server = listen_failed })
    server_exits : s.server ≡ listen_failed → Move s (exits 1 s)
    consumer_exits : s.consumer ≡ consumer_failed → Move s (exits 1 s)
    listen_ends :
        s.server ≡ listening → s.cancelled ≡ true → Move s (record s { server = server_closed })
    announces : (now : Time) → s.main ≡ launched → Move s (announce_server now s)
    signal_comes : (now : Time) → s.main ≡ serving → Move s (on_signal now s)
    cancels : s.main ≡ signalled → Move s (cancel s)
    shuts_down : (now : Time) (e : Option Error) → s.main ≡ shutting → Move s (shut_down now e s)
    main_exits : s.main ≡ failing → Move s (exits 1 s)
    flushes : s.main ≡ unwinding → Move s (flush_log s)
    main_returns : s.main ≡ log_flushed → Move s (exits 0 s)
    handlers_log : (lines : Output) → Move s (record s { output = Prelude.◌++◌ s.output lines })
    crashes : Move s (exits 2 s)

  -- Nothing moves when the process has ended.
  pub data Reach (s : Running) : Running → Type 0 where
    here : Reach s s
    later : {t u : Running} → Reach s t → t.ending ≡ none → Move t u → Reach s u

  -- main when it has made its services, with what has been logged until then.
  abbrev pub services_made : Output → Running
  services_made out = record {
    main = launching;
    consumer = begins;
    server = not_begun;
    cancelled = false;
    closed = false;
    output = out;
    flushed = [];
    ending = none;
  }
