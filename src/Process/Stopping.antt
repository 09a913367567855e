-- ===== src/Process/Stopping.antt =====
-- How a process that runs can be brought to its end.
use r2_notify_server.Prelude.{◌≡◌, ◌≢◌, refl, ap, some, ◌∙◌, none, String, true, List}
use r2_notify_server.Models.{Time}
use r2_notify_server.Logger.{Output, flush}
use r2_notify_server.Process.{
  Setting, MainAt, launching, launched, serving, signalled, shutting, failing, unwinding,
  log_flushed, flush_log, exits, flushes, main_returns, waits, returned, exit_zero, Running,
  consumer_done, close_hub, listen_and_serve, announce_server, on_signal, cancel, shut_down,
  context_done, hub_closes, listens, announces, signal_comes, cancels, shuts_down, Reach, here,
  later, services_made,
}
use r2_notify_server.Process.Endings.{IsSound, reached-IsSound, flushed_at}

module _ (p : Setting) where
  abbrev Now : Type 0
  Now = Running p

  abbrev Reaches : Now → Now → Type 0
  Reaches = Reach p

  Reach-trans : {s t u : Now} → Reaches s t → Reaches t u → Reaches s u
  Reach-trans p here = p
  Reach-trans p (later q running m) = later (Reach-trans p q) running m

  -- main has made its deferred calls, while the consumer has waited.
  record Comes (s : Now) : Type 0 where
    pub final : Now
    pub comes : Reaches s final
    pub at : final.main ≡ log_flushed
    pub flushed_all : final.flushed ≡ flush p.logger.destination
    pub off : final.cancelled ≡ true
    pub runs : final.ending ≡ none
    pub same_consumer : final.consumer ≡ s.consumer
    pub same_closed : final.closed ≡ s.closed

  preceded :
      {s t : Now} → Reaches s t → t.consumer ≡ s.consumer → t.closed ≡ s.closed → Comes t → Comes s
  preceded r consumer closed rest = record {
    final = rest.final;
    comes = Reach-trans r rest.comes;
    at = rest.at;
    flushed_all = rest.flushed_all;
    off = rest.off;
    runs = rest.runs;
    same_consumer = rest.same_consumer ∙ consumer;
    same_closed = rest.same_closed ∙ closed;
  }

  module _ (now : Time) where
    from_unwinding : (s : Now) → s.main ≡ unwinding → s.cancelled ≡ true → s.ending ≡ none → Comes s
    from_unwinding s at off running = record {
      final = flush_log p s;
      comes = later here running (flushes at);
      at = refl;
      flushed_all = refl;
      off = off;
      runs = running;
      same_consumer = refl;
      same_closed = refl;
    }

    from_shutting : (s : Now) → s.main ≡ shutting → s.cancelled ≡ true → s.ending ≡ none → Comes s
    unfolding shut_down
    from_shutting s at off running =
        preceded (later here running (shuts_down now none at)) refl refl
          (from_unwinding (shut_down p now none s) refl off running)

    from_signalled : (s : Now) → s.main ≡ signalled → s.ending ≡ none → Comes s
    from_signalled s at running =
        preceded (later here running (cancels at)) refl refl
          (from_shutting (cancel p s) refl refl running)

    from_serving : (s : Now) → s.main ≡ serving → s.ending ≡ none → Comes s
    from_serving s at running =
        preceded (later here running (signal_comes now at)) refl refl
          (from_signalled (on_signal p now s) refl running)

    from_launched : (s : Now) → s.main ≡ launched → s.ending ≡ none → Comes s
    from_launched s at running =
        preceded (later here running (announces now at)) refl refl
          (from_serving (announce_server p now s) refl running)

    arrives :
        (m : MainAt) (s : Now) → s.main ≡ m → m ≢ failing → IsSound p s → s.ending ≡ none → Comes s
    arrives launching s at goes sound running =
        preceded (later here running (listens at)) refl refl
          (from_launched (listen_and_serve p s) refl running)
    arrives launched s at goes sound running = from_launched s at running
    arrives serving s at goes sound running = from_serving s at running
    arrives signalled s at goes sound running = from_signalled s at running
    arrives shutting s at goes sound running = from_shutting s at (sound.late (rw at refl)) running
    arrives failing s at goes sound running = absurd (goes refl)
    arrives unwinding s at goes sound running =
        from_unwinding s at (sound.late (rw at refl)) running
    arrives log_flushed s at goes sound running = record {
      final = s;
      comes = here;
      at = at;
      flushed_all = sound.flushing ∙ ap (flushed_at p) at;
      off = sound.late (rw at refl);
      runs = running;
      same_consumer = refl;
      same_closed = refl;
    }

    -- When the process runs, Shutdown has not reported an error and the consumer waits on its hub,
    -- then wherever main is, the process can come to its end with code 0 and the log flushed in
    -- two ways: with the hub closed and the consumer returned, and with the consumer still waiting
    -- and the hub not closed since.
    pub Reach-stopped :
        (out : Output) (t : Now) (hub : p.hubs.Hub) (ids : List String)
        → Reaches (services_made p out) t
        → t.ending ≡ none
        → t.main ≢ failing
        → t.consumer ≡ waits hub ids
        → ((u : Now) × Reaches t u
            × (u.ending ≡ exit_zero p.logger)
            × (u.consumer ≡ returned)
            × (u.closed ≡ true))
          × ((u : Now) × Reaches t u
              × (u.ending ≡ exit_zero p.logger)
              × (u.consumer ≡ waits hub ids)
              × (u.closed ≡ t.closed))
    Reach-stopped out t hub ids r running goes waiting =
        let c = arrives t.main t refl goes (reached-IsSound p out t r) running in
        let still : c.final.consumer ≡ waits hub ids = c.same_consumer ∙ waiting in
        let done = consumer_done p now hub c.final in
        let closed =
          later (later c.comes c.runs (context_done now hub ids still c.off)) c.runs
            (hub_closes hub refl) in
        let code_zero : some (record { code = 0; flushed = c.final.flushed }) ≡ exit_zero p.logger =
          ap (λ f. some (record { code = 0; flushed = f })) c.flushed_all in
        (
          (
            exits p 0 (close_hub p done),
            later closed c.runs (main_returns c.at),
            code_zero,
            refl,
            refl,
          ),
          (
            exits p 0 c.final,
            later c.comes c.runs (main_returns c.at),
            code_zero,
            still,
            c.same_closed,
          ),
        )
