-- ===== src/Locking/Race.antt =====
-- services/client_store.go between its locks: two goroutines that send.
use r2_notify_server.Prelude.{
  ℕ, ◌≡◌, ◌≢◌, refl, sym, ◌∙◌, ap, false, some, List, [], ◌∷◌, ◌++◌, eqb, eqb_iff, eqb_refl,
  Bool-cases, inl, inr, arith,
}
use mathlib.Core.List.{append_assoc, append-nil}
use r2_notify_server.Models.{UserId, Conn}
use r2_notify_server.Locking.{
  Pc, idle, looking, sending, storing, holds_write, Move, look, takes, ends, Threads, at_pc, rlocks,
  moves, Reach, start, later,
}

pub Reach-trans : (s t u : Threads) → Reach s t → Reach t u → Reach s u
Reach-trans s t _ p start = p
Reach-trans s t _ p (later {t = v} q st) = later (Reach-trans s t v p q) st

-- Goroutine `i` alone has come to `p`, and the map is as it was.
pub record Advances (s : Threads) (i : ℕ) (p : Pc) (t : Threads) : Type 0 where
  pub reached : Reach s t
  pub here : t.pc i ≡ p
  pub map_same : t.clients ≡ s.clients
  pub others_same : (j : ℕ) → j ≢ i → t.pc j ≡ s.pc j

pub moved :
    (s t : Threads) (i : ℕ) (p q : Pc)
    → Advances s i p t
    → Move t.clients p t.clients q
    → Advances s i q (at_pc t i q)
moved s t i p q a mv = record {
  reached = later a.reached (moves i a.here mv);
  here = rw eqb_refl;
  map_same = a.map_same;
  others_same = λ j apart. ground (arith, a.others_same j);
}

-- The loop, when every write is taken.
loop_to_storing :
    (s : Threads) (i : ℕ) (user : UserId) (rest active : List Conn) (t : Threads)
    → Advances s i (sending user rest active) t
    → (v : Threads) × Advances s i (storing user (active ++ rest)) v
loop_to_storing s i user [] active t a =
    (at_pc t i (storing user active), rw append-nil (moved s t i _ _ a (ends user active)))
loop_to_storing s i user (c ∷ cs) active t a =
    let (v, b) =
      loop_to_storing s i user cs (active ++ c ∷ []) _
        (moved s t i _ _ a (takes user c cs active)) in
    (v, rw append_assoc at b)

send_to_storing :
    (s : Threads) (i : ℕ) (user : UserId) (conns : List Conn)
    → s.pc i ≡ idle
    → ((j : ℕ) → holds_write (s.pc j) ≡ false)
    → s.clients user ≡ some conns
    → (v : Threads) × Advances s i (storing user conns) v
send_to_storing s i user conns free quiet found =
    let locked : Advances s i (looking user) (at_pc s i (looking user)) = record {
      reached = later start (rlocks i user free quiet);
      here = rw eqb_refl;
      map_same = refl;
      others_same = λ j apart. ground (arith);
    } in
    loop_to_storing s i user conns [] _ (moved s _ i _ _ locked (look user conns found))

still_readable :
    (s t : Threads) (i : ℕ) (p : Pc)
    → Advances s i p t
    → ((j : ℕ) → s.pc j ≡ idle)
    → holds_write p ≡ false
    → (j : ℕ) → holds_write (t.pc j) ≡ false
still_readable s t i p a quiet h j = elim (Bool-cases (eqb j i)) [
  | inl same ↦ rw ((eqb_iff j i).0 same, a.here) h
  | inr other ↦
      let apart : j ≢ i = λ e. ground (arith, eqb_iff j i) in
      rw (a.others_same j apart, quiet j) refl
]

-- When no goroutine is in the store and two users are connected, the locks let two goroutines that
-- send to them come to where both write the map at the same time.
pub sends_race :
    (s : Threads) (i k : ℕ) (user other : UserId) (conns others : List Conn)
    → ((j : ℕ) → s.pc j ≡ idle)
    → i ≢ k
    → s.clients user ≡ some conns
    → s.clients other ≡ some others
    → (t : Threads) × Reach s t × (t.pc i ≡ storing user conns) × (t.pc k ≡ storing other others)
sends_race s i k user other conns others quiet apart found found' =
    let (v, a) = send_to_storing s i user conns (quiet i) (λ j. cc (quiet j)) found in
    let (w, b) =
      send_to_storing v k other others (a.others_same k (λ e. apart (sym e)) ∙ quiet k)
        (still_readable s v i _ a quiet refl) (ap (λ m. m other) a.map_same ∙ found') in
    (w, Reach-trans s v w a.reached b.reached, b.others_same i apart ∙ a.here, b.here)
