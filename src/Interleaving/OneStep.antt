-- ===== src/Interleaving/OneStep.antt =====
-- A goroutine that runs on while the others wait.
use r2_notify_server.Prelude.{
  ℕ, ◌≡◌, ◌≢◌, refl, sym, ◌∙◌, ap, Option, eqb, eqb_iff, eqb_refl, inl, inr, Bool-cases,
}
use r2_notify_server.Models.{UserId}
use r2_notify_server.World.{Backend, World}
use r2_notify_server.Server.{notifications, configurations}
use r2_notify_server.Interleaving.Program.{Program, returns, calls, run}
use r2_notify_server.Interleaving.Sequence.{program, handle, run-program}
use r2_notify_server.Interleaving.Threads.{
  ServerHandler, user_of, Thread, idle, runs, State, at_thread, MayStart, users_with, starts, does,
  ends, Reach, here, later,
}

module _ (b : Backend) where
  pub Reach-trans : (s t u : State b) → Reach b s t → Reach b t u → Reach b s u
  Reach-trans s t _ p here = p
  Reach-trans s t _ p (later {t = v} q st) = later (Reach-trans s t v p q) st

  -- From `s` on, goroutine `i` alone has come to its end, with the world `w`.
  pub record Finishes (s : State b) (i : ℕ) (w : World b) : Type 1 where
    pub final : State b
    pub reached : Reach b s final
    pub world_is : final.world ≡ w
    pub users_same : final.users ≡ s.users
    pub ended : final.threads i ≡ idle
    pub others_same : (j : ℕ) → j ≢ i → final.threads j ≡ s.threads j

  pub at_other :
      (threads : ℕ → Thread b) (i j : ℕ) (t : Thread b)
      → j ≢ i
      → at_thread b threads i t j ≡ threads j
  at_other threads i j t apart = elim (Bool-cases (eqb j i)) [
    | inl same ↦ absurd (apart ((eqb_iff j i).0 same))
    | inr other ↦ rw other refl
  ]

  pub finishes :
      {A : Type 0} (p : Program (World b) A) (s : State b) (i : ℕ) (who : Option UserId)
      → s.threads i ≡ runs who p
      → Finishes s i (run p s.world).1
  finishes (returns a) s i who e = record {
    final = record s { threads = at_thread b s.threads i idle };
    reached = later here (ends i who a e);
    world_is = refl;
    users_same = refl;
    ended = rw eqb_refl refl;
    others_same = λ j apart. at_other s.threads i j idle apart;
  }
  finishes (calls op next) s i who e =
      let (r, w) = op s.world in
      let threads = at_thread b s.threads i (runs who (next r)) in
      let rest =
        finishes (next r) (record { world = w; users = s.users; threads = threads }) i who
          (rw eqb_refl refl) in
      record {
        final = rest.final;
        reached = Reach-trans s _ rest.final (later here (does i who op next e)) rest.reached;
        world_is = rest.world_is;
        users_same = rest.users_same;
        ended = rest.ended;
        others_same = λ j apart. rest.others_same j apart ∙ at_other s.threads i j _ apart;
      }

  -- A handler that may start on an idle goroutine can run to its end while all others wait; then
  -- the state is the one that the handler as one step leaves, and every goroutine is as before.
  pub Reach-handle :
      (s : State b) (i : ℕ) (h : ServerHandler b)
      → s.threads i ≡ idle
      → MayStart b s.users h
      → (t : State b) × Reach b s t
        × (t.world ≡ (handle b (notifications b) (configurations b) h s.world).1)
        × (t.users ≡ users_with b h s.users)
        × ((j : ℕ) → t.threads j ≡ s.threads j)
  Reach-handle s i h free may =
      let p = program b (notifications b) (configurations b) h in
      let started : State b = record {
        world = s.world;
        users = users_with b h s.users;
        threads = at_thread b s.threads i (runs (user_of b h) p);
      } in
      let rest = finishes p started i (user_of b h) (rw eqb_refl refl) in
      (
        rest.final,
        Reach-trans s started rest.final (later here (starts i h free may)) rest.reached,
        rest.world_is
            ∙ ap (λ r. r.1) (run-program b (notifications b) (configurations b) h s.world),
        rest.users_same,
        λ j. elim (Bool-cases (eqb j i)) [
          | inl same ↦ rw ((eqb_iff j i).0 same) (rest.ended ∙ sym free)
          | inr other ↦
              let apart : j ≢ i = λ e. cc (other, (eqb_iff j i).1 e) in
              rest.others_same j apart ∙ at_other s.threads i j _ apart
        ],
      )
