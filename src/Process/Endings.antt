-- ===== src/Process/Endings.antt =====
-- How the process ends.
use r2_notify_server.Prelude.{
  ℕ, ◌≡◌, refl, sym, ◌∙◌, ap, Option, none, some, String, Bool, true, false, not, List, [], ◌++◌,
  Result, ok, err, Error, ◌⊎◌, inl, inr, Bool-cases, eq_of_some, if◌then◌else◌,
}
use mathlib.Core.List.{append-nil, append_assoc}
use r2_notify_server.Config.{load_config}
use r2_notify_server.Models.{Time}
use r2_notify_server.Logger.{
  Zap, Logger, LogPayload, Destination, azure, zap_cores, Level, Sink, Output, write, should_log,
  info, debug, error, log_info, log_debug, log_error, flush,
}
use r2_notify_server.Process.{
  Setting, MainAt, shutting, failing, unwinding, log_flushed, listen_failed, consumer_failed,
  Ending, main_payload, Running, exits, partitions_found, hub_found, start_event_hub_consumer,
  shut_down, Move, consumer_starts, context_done, hub_closes, listens, listen_fails, server_exits,
  consumer_exits, listen_ends, announces, signal_comes, cancels, shuts_down, main_exits, flushes,
  main_returns, handlers_log, crashes, Reach, here, later, services_made,
}

-- A log that has been gone on with.
abbrev Extends : Output → Output → Type 0
Extends before after = (more : Output) × (after ≡ before ++ more)

Extends-refl : (out : Output) → Extends out out
Extends-refl out = ([], sym (append-nil out))

Extends-trans : (a b c : Output) → Extends a b → Extends b c → Extends a c
Extends-trans a b c (m, e) (n, f) = (m ++ n, rw (f, e) (append_assoc a m n))

write-Extends :
    (zap : Zap) (d : Destination) (level : Level) (now : Time) (problem : Option String)
    (p : LogPayload) (out : Output)
    → Extends out (write zap d level now problem p out)
write-Extends zap (azure key) level now problem p out = (_, refl)
write-Extends zap (zap_cores core sinks) level now problem p out =
    elim (Bool-cases (zap.enabled core level)) [
      | inl on ↦ rw on (_, refl)
      | inr off ↦ rw off (Extends-refl out)
    ]

unless-Extends :
    (quiet : Bool) (out after : Output)
    → Extends out after
    → Extends out (if quiet then out else after)
unless-Extends true out after h = Extends-refl out
unless-Extends false out after h = h

module _ (zap : Zap) (logger : Logger) (now : Time) (p : LogPayload) (out : Output) where
  log_info-Extends : Extends out (log_info zap logger now p out)
  unfolding log_info
  log_info-Extends =
      unless-Extends (not (should_log logger info)) out _
        (write-Extends zap logger.destination info now none p out)

  log_debug-Extends : Extends out (log_debug zap logger now p out)
  unfolding log_debug
  log_debug-Extends =
      unless-Extends (not (should_log logger debug)) out _
        (write-Extends zap logger.destination debug now none p out)

  log_error-Extends : Extends out (log_error zap logger now p out)
  unfolding log_error
  log_error-Extends =
      unless-Extends (not (should_log logger error)) out _
        (write-Extends zap logger.destination error now p.error p out)

-- Behind the cancellation of the consumer's context.
abbrev is_late : MainAt → Bool
is_late shutting = true
is_late failing = true
is_late unwinding = true
is_late log_flushed = true
is_late _ = false

-- Behind the line that says that the server has exited.
abbrev has_said : MainAt → Bool
has_said unwinding = true
has_said log_flushed = true
has_said _ = false

module _ (p : Setting) where
  abbrev Now : Type 0
  Now = Running p

  abbrev Reaches : Now → Now → Type 0
  Reaches = Reach p

  abbrev Moves : Now → Now → Type 0
  Moves = Move p

  abbrev pub flushed_at : MainAt → List Sink
  flushed_at log_flushed = flush p.logger.destination
  flushed_at _ = []

  -- The logger was called with the line, and maybe with others afterwards.
  abbrev pub HasExitLine : Output → Type 0
  HasExitLine out =
      (now : Time) × (before : Output) × Extends
        (log_info p.zap p.logger now (main_payload "Exit" "Server exited properly" none) before) out

  -- What an ending tells of the process: main has returned, or an error was met, or Go gave up.
  abbrev pub IsOutcome : Now → Ending → Type 0
  IsOutcome t e =
      ((e.code ≡ 0)
        × (e.flushed ≡ flush p.logger.destination)
        × (t.cancelled ≡ true)
        × HasExitLine t.output)
      ⊎ (((e.code ≡ 1)
            × (((t.main ≡ failing) × (t.cancelled ≡ true) × (e.flushed ≡ []))
                ⊎ ((t.consumer ≡ consumer_failed) ⊎ (t.server ≡ listen_failed))))
          ⊎ (e.code ≡ 2))

  pub record IsSound (s : Now) : Type 0 where
    pub late : is_late s.main ≡ true → s.cancelled ≡ true
    pub said : has_said s.main ≡ true → HasExitLine s.output
    pub flushing : s.flushed ≡ flushed_at s.main
    pub ended : (e : Ending) → s.ending ≡ some e → IsOutcome s e

  more_said : (out after : Output) → Extends out after → HasExitLine out → HasExitLine after
  more_said out after h (now, before, g) = (now, before, Extends-trans _ out after g h)

  -- Another goroutine than main has gone on.
  beside :
      {s t : Now}
      → IsSound s
      → t.main ≡ s.main
      → t.flushed ≡ s.flushed
      → t.cancelled ≡ s.cancelled
      → Extends s.output t.output
      → t.ending ≡ none
      → IsSound t
  beside {s = s} {t = t} sound main flushed cancelled log running = record {
    late = λ h. cancelled ∙ sound.late (ap is_late (sym main) ∙ h);
    said = λ h. more_said s.output t.output log (sound.said (ap has_said (sym main) ∙ h));
    flushing = flushed ∙ sound.flushing ∙ ap flushed_at (sym main);
    ended = λ e h. cc;
  }

  -- main has gone on before the cancellation.
  early :
      {t : Now}
      → is_late t.main ≡ false
      → has_said t.main ≡ false
      → t.flushed ≡ flushed_at t.main
      → t.ending ≡ none
      → IsSound t
  early late said flushed running = record {
    late = λ h. cc;
    said = λ h. cc;
    flushing = flushed;
    ended = λ e h. cc;
  }

  leaves :
      (code : ℕ) (s : Now)
      → IsSound s
      → IsOutcome s (record { code = code; flushed = s.flushed })
      → IsSound (exits p code s)
  leaves code s sound outcome = record {
    late = sound.late;
    said = sound.said;
    flushing = sound.flushing;
    ended = λ e h. rw (sym (eq_of_some h)) outcome;
  }

  partitions-IsSound :
      (s : Now) (sound : IsSound s) (running : s.ending ≡ none) (now : Time) (hub : p.hubs.Hub)
      (r : Result (List String))
      → IsSound (partitions_found p now hub r s)
  unfolding partitions_found
  partitions-IsSound s sound running now hub (err e) =
      beside sound refl refl refl (log_error-Extends p.zap p.logger now _ s.output) running
  partitions-IsSound s sound running now hub (ok ids) =
      beside sound refl refl refl (Extends-refl s.output) running

  hub-IsSound :
      (s : Now) (sound : IsSound s) (running : s.ending ≡ none) (now : Time) (r : Result p.hubs.Hub)
      → IsSound (hub_found p now r s)
  unfolding hub_found
  hub-IsSound s sound running now (err e) =
      beside sound refl refl refl (log_error-Extends p.zap p.logger now _ s.output) running
  hub-IsSound s sound running now (ok hub) =
      partitions-IsSound _
        (beside sound refl refl refl (log_debug-Extends p.zap p.logger now _ s.output) running)
        running now hub (p.hubs.partition_ids s.cancelled hub)

  consumer-IsSound :
      (s : Now) (sound : IsSound s) (running : s.ending ≡ none) (now : Time)
      → IsSound (start_event_hub_consumer p now s)
  unfolding start_event_hub_consumer
  consumer-IsSound s sound running now = elim (Bool-cases (load_config p.env).enable_event_hub) [
    | inl on ↦ rw on (hub-IsSound s sound running now _)
    | inr off ↦
        rw off
          (beside sound refl refl refl (log_info-Extends p.zap p.logger now _ s.output) running)
  ]

  shut_down-IsSound :
      (s : Now) (sound : IsSound s) (running : s.ending ≡ none) (at : s.main ≡ shutting)
      (now : Time) (e : Option Error)
      → IsSound (shut_down p now e s)
  unfolding shut_down
  shut_down-IsSound s sound running at now none = record {
    late = λ _. sound.late (ap is_late at);
    said = λ _. (now, s.output, Extends-refl _);
    flushing = sound.flushing ∙ ap flushed_at at;
    ended = λ e h. cc;
  }
  shut_down-IsSound s sound running at now (some e) = record {
    late = λ _. sound.late (ap is_late at);
    said = λ h. cc;
    flushing = sound.flushing ∙ ap flushed_at at;
    ended = λ e h. cc;
  }

  Move-IsSound : (s t : Now) → Moves s t → s.ending ≡ none → IsSound s → IsSound t
  Move-IsSound s _ (consumer_starts now at) running sound = consumer-IsSound s sound running now
  Move-IsSound s _ (context_done now hub ids at off) running sound =
      beside sound refl refl refl (log_info-Extends p.zap p.logger now _ s.output) running
  Move-IsSound s _ (hub_closes hub at) running sound =
      beside sound refl refl refl (Extends-refl s.output) running
  Move-IsSound s _ (listens at) running sound =
      early refl refl (sound.flushing ∙ ap flushed_at at) running
  Move-IsSound s _ (listen_fails at) running sound =
      beside sound refl refl refl (Extends-refl s.output) running
  Move-IsSound s _ (server_exits at) running sound =
      leaves 1 s sound (inr (inl (refl, inr (inr at))))
  Move-IsSound s _ (consumer_exits at) running sound =
      leaves 1 s sound (inr (inl (refl, inr (inl at))))
  Move-IsSound s _ (listen_ends at off) running sound =
      beside sound refl refl refl (Extends-refl s.output) running
  Move-IsSound s _ (announces now at) running sound =
      early refl refl (sound.flushing ∙ ap flushed_at at) running
  Move-IsSound s _ (signal_comes now at) running sound =
      early refl refl (sound.flushing ∙ ap flushed_at at) running
  Move-IsSound s _ (cancels at) running sound = record {
    late = λ _. refl;
    said = λ h. cc;
    flushing = sound.flushing ∙ ap flushed_at at;
    ended = λ e h. cc;
  }
  Move-IsSound s _ (shuts_down now e at) running sound = shut_down-IsSound s sound running at now e
  Move-IsSound s _ (main_exits at) running sound =
      leaves 1 s sound
        (inr (inl (refl, inl (at, sound.late (ap is_late at), sound.flushing ∙ ap flushed_at at))))
  Move-IsSound s _ (flushes at) running sound = record {
    late = λ _. sound.late (ap is_late at);
    said = λ _. sound.said (ap has_said at);
    flushing = refl;
    ended = λ e h. cc;
  }
  Move-IsSound s _ (main_returns at) running sound = leaves 0 s sound (
      inl (
        refl,
        sound.flushing ∙ ap flushed_at at,
        sound.late (ap is_late at),
        sound.said (ap has_said at),
      ))
  Move-IsSound s _ (handlers_log lines) running sound =
      beside sound refl refl refl (lines, refl) running
  Move-IsSound s _ crashes running sound = leaves 2 s sound (inr (inr refl))

  Reach-IsSound : (s t : Now) → Reaches s t → IsSound s → IsSound t
  Reach-IsSound s _ here sound = sound
  Reach-IsSound s _ (later {t = u} r running m) sound =
      Move-IsSound u _ m running (Reach-IsSound s u r sound)

  module _ (out : Output) (t : Now) (r : Reaches (services_made p out) t) where
    pub reached-IsSound : IsSound t
    reached-IsSound =
        Reach-IsSound _ t r
          (record { late = λ h. cc; said = λ h. cc; flushing = refl; ended = λ e h. cc })

    -- However the goroutines of main, of the consumer, of the server and of the handlers go on,
    -- when the process has ended, one of three things holds: the code is 0, the consumer's context
    -- has been cancelled, the logger has been called with `Server exited properly`, and the log
    -- has been flushed; or the code is 1, and Shutdown has reported an error, with nothing
    -- flushed, or the start of the consumer has, or the listening; or the code is 2, of a fatal
    -- error of Go.
    pub Reach-ending : (e : Ending) → t.ending ≡ some e → IsOutcome t e
    Reach-ending e h = reached-IsSound.ended e h
