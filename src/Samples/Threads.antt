-- ===== src/Samples/Threads.antt =====
-- The theorems on goroutines: two of them send to ann and to bob at the same time, and another one
-- stores a connection of ann.
use r2_notify_server.Prelude.{ℕ, ◌≡◌, refl, arith, true, false, ok, List, [], ◌∷◌}
use r2_notify_server.Json.{str}
use r2_notify_server.World.{conns_of}
use r2_notify_server.ClientStore.Writing.{has}
use r2_notify_server.Locking.{
  idle, appending, filtering, storing, Threads, at_pc, locks, rlocks, moves, unlocks, look, takes,
  fails, Reach, start, later, looking, sending, holds,
}
use r2_notify_server.Locking.Invariant.{stays, goes}
use r2_notify_server.Locking.Kept.{stored_by, append_kept}
use r2_notify_server.Locking.Gone.{removed_by, filter_gone}
use r2_notify_server.Locking.Race.{sends_race}
use r2_notify_server.Locking.Sequential.{ReachesMap, Reach-carry_out_all}
use r2_notify_server.ClientStore.Register.{view, Promises, view-carry_out}
use r2_notify_server.ClientStore.Operations.{
  Operation, stores, sends, removes, carry_out, carry_out_all,
}
use r2_notify_server.Samples.Start.{backend, two_users}

abbrev at_rest : Threads
at_rest = record { clients = two_users.clients; pc = λ i. idle }

sends_race_example :
    (t : Threads) × Reach at_rest t
    × (t.pc 0 ≡ storing "ann" (3 ∷ 9 ∷ []))
    × (t.pc 1 ≡ storing "bob" (4 ∷ []))
sends_race_example =
    sends_race at_rest 0 1 "ann" "bob" (3 ∷ 9 ∷ []) (4 ∷ []) (λ j. refl) (λ e. absurd (omega arith))
      refl refl

-- StoreClient has the lock; behind it a send to ann takes connection 3 and loses connection 9.
abbrev begun : Threads
begun = at_pc at_rest 0 (appending "ann" 5)

abbrev unlocked : Threads
unlocked = at_pc (stored_by "ann" 5 0 begun) 0 idle

abbrev looks : Threads
looks = at_pc unlocked 1 (looking "ann")

abbrev looked : Threads
looked = at_pc looks 1 (sending "ann" (3 ∷ 9 ∷ 5 ∷ []) [])

abbrev taken : Threads
taken = at_pc looked 1 (sending "ann" (9 ∷ 5 ∷ []) (3 ∷ []))

abbrev lost_one : Threads
lost_one = at_pc taken 1 (sending "ann" (5 ∷ []) (3 ∷ []))

nobody_holds : (j : ℕ) → holds (unlocked.pc j) ≡ false
nobody_holds j = ground arith

append_kept_example : has 5 (conns_of lost_one.clients "ann") ≡ true
append_kept_example =
    append_kept "ann" 5 at_rest begun lost_one 0 (λ j. refl)
      (later start (locks 0 (appending "ann" 5) refl refl (λ j. refl))) refl
      (goes
        (goes
          (goes
            (goes (goes stays (unlocks 0 refl) tt)
              (rlocks 1 "ann" refl (λ j. ground (arith, nobody_holds j))) tt)
            (moves 1 refl (look "ann" (3 ∷ 9 ∷ 5 ∷ []) refl)) tt)
          (moves 1 refl (takes "ann" 3 (9 ∷ 5 ∷ []) [])) tt)
        (moves 1 refl (fails "ann" 9 (5 ∷ []) (3 ∷ []))) (λ e. omega arith))

-- One after another: ann's connection 5 is stored, ann is sent a text, bob's connection is removed.
abbrev three : List Operation
three =
    stores (record { id = "ann"; connected_at = 0; enable_notification = true }) 5
    ∷ sends "ann" (ok (str "hello")) false
    ∷ removes "bob" 4
    ∷ []

Reach-carry_out_all_example : ReachesMap at_rest (carry_out_all backend three two_users).clients
Reach-carry_out_all_example = Reach-carry_out_all backend three two_users at_rest (λ j. refl) refl

-- A send to ann loses the broken connection 9.
abbrev hello_ann : Operation
hello_ann = sends "ann" (ok (str "hello")) false

view-carry_out_example :
    Promises hello_ann
      (view two_users.clients)
      (view (carry_out backend hello_ann two_users).clients)
view-carry_out_example = view-carry_out backend hello_ann two_users

-- RemoveConnection has the lock for ann's connection 3; behind it a send to ann begins.
abbrev filters : Threads
filters = at_pc at_rest 0 (filtering "ann" 3)

abbrev released : Threads
released = at_pc (removed_by "ann" 3 0 filters) 0 idle

filter_gone_example : has 3 (conns_of (at_pc released 1 (looking "ann")).clients "ann") ≡ false
filter_gone_example =
    filter_gone "ann" 3 at_rest filters (at_pc released 1 (looking "ann")) 0 (λ j. refl)
      (later start (locks 0 (filtering "ann" 3) refl refl (λ j. refl))) refl
      (goes (goes stays (unlocks 0 refl) tt) (rlocks 1 "ann" refl (λ j. ground arith)) tt)
