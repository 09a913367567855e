-- ===== src/Locking/Invariant.antt =====
-- services/client_store.go between its locks: what a run keeps of the map and of every goroutine.
use mathlib.Core.Path.{subst}
use r2_notify_server.Prelude.{ℕ, ◌≡◌, refl, Bool, true, false, eqb, arith, Bool-cases, inl, inr}
use r2_notify_server.Models.{UserId}
use r2_notify_server.World.{Clients}
use r2_notify_server.Locking.{
  Pc, idle, looking, written, holds_write, holds, begins_write, Move, Threads, update, at_pc, Step,
  locks, rlocks, moves, unlocks, runlocks,
}
use r2_notify_server.Locking.Exclusive.{IsExclusive}

-- A property of the map and one of where a goroutine stands, which the allowed moves keep.
pub record MapInvariant : Type 1 where
  pub holds_of : Clients → Type 0
  pub passes : Pc → Bool
  pub Allowed : {m m' : Clients} {p q : Pc} → Move m p m' q → Type 0
  pub free_passes : (p : Pc) → holds p ≡ false → passes p ≡ true
  pub begun_passes : (p : Pc) → begins_write p ≡ true → passes p ≡ true
  pub looking_passes : (user : UserId) → passes (looking user) ≡ true
  pub move_map :
      (m m' : Clients) (p q : Pc) (mv : Move m p m' q)
      → Allowed mv
      → passes p ≡ true
      → holds_of m
      → holds_of m'
  pub move_passes :
      (m m' : Clients) (p q : Pc) (mv : Move m p m' q)
      → Allowed mv
      → holds_of m
      → passes p ≡ true
      → passes q ≡ true

module _ (inv : MapInvariant) where
  pub record IsMet (s : Threads) : Type 0 where
    pub in_map : inv.holds_of s.clients
    pub at_all : (i : ℕ) → inv.passes (s.pc i) ≡ true

  abbrev pub StepAllowed : {s t : Threads} → Step s t → Type 0
  StepAllowed (moves i e mv) = inv.Allowed mv
  StepAllowed _ = Unit

  updated_passes :
      (pc : ℕ → Pc) (i : ℕ) (p : Pc)
      → ((j : ℕ) → inv.passes (pc j) ≡ true)
      → inv.passes p ≡ true
      → (j : ℕ) → inv.passes (update pc i p j) ≡ true
  updated_passes pc i p all h j = elim (Bool-cases (eqb i j)) [
    | inl here ↦ rw here h
    | inr apart ↦ rw apart (all j)
  ]

  at_pc-IsMet : (s : Threads) (i : ℕ) (p : Pc) → IsMet s → inv.passes p ≡ true → IsMet (at_pc s i p)
  at_pc-IsMet s i p k h = record { in_map = k.in_map; at_all = updated_passes s.pc i p k.at_all h }

  Step-IsMet : (s t : Threads) (st : Step s t) → StepAllowed st → IsMet s → IsMet t
  Step-IsMet s _ (locks i p e w free) allowed k = at_pc-IsMet s i p k (inv.begun_passes p w)
  Step-IsMet s _ (rlocks i user e free) allowed k =
      at_pc-IsMet s i (looking user) k (inv.looking_passes user)
  Step-IsMet s _ (unlocks i e) allowed k = at_pc-IsMet s i idle k (inv.free_passes idle refl)
  Step-IsMet s _ (runlocks i e) allowed k = at_pc-IsMet s i idle k (inv.free_passes idle refl)
  Step-IsMet s _ (moves i {q = q} e mv) allowed k =
      let before = subst (λ p. inv.passes p ≡ true) e (k.at_all i) in
      let after = inv.move_passes _ _ _ _ mv allowed k.in_map before in
      record {
        in_map = inv.move_map _ _ _ _ mv allowed before k.in_map;
        at_all = updated_passes s.pc i q k.at_all after;
      }

  -- A run of allowed steps.
  pub data Run (s : Threads) : Threads → Type 0 where
    stays : Run s s
    goes : {t v : Threads} → Run s t → (st : Step t v) → StepAllowed st → Run s v

  pub Run-IsMet : (s t : Threads) → IsMet s → Run s t → IsMet t
  Run-IsMet s t k stays = k
  Run-IsMet s t k (goes {t = v} r st allowed) = Step-IsMet v t st allowed (Run-IsMet s v k r)

  -- When the only goroutine with the lock has written a map with the property, all is met.
  pub written-IsMet :
      (s : Threads) (m : Clients) (i : ℕ)
      → IsExclusive s
      → holds_write (s.pc i) ≡ true
      → inv.holds_of m
      → inv.passes written ≡ true
      → IsMet (record { clients = m; pc = update s.pc i written })
  written-IsMet s m i ex has_lock h passed = record {
    in_map = h;
    at_all = λ j. elim (Bool-cases (eqb i j)) [
      | inl here ↦ rw here passed
      | inr apart ↦ rw apart (elim (Bool-cases (holds (s.pc j))) [
        | inl busy ↦ ground (arith, ex i j has_lock busy)
        | inr free ↦ inv.free_passes (s.pc j) free
      ])
    ];
  }
