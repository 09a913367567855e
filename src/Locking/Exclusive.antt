-- ===== src/Locking/Exclusive.antt =====
-- services/client_store.go between its locks: who holds the lock.
use r2_notify_server.Prelude.{ℕ, ◌≡◌, refl, ap, true, ◌||◌, List, [], ◌∷◌, ◌++◌, arith}
use r2_notify_server.Models.{Conn}
use r2_notify_server.World.{Clients}
use r2_notify_server.ClientStore.Writing.{has}
use r2_notify_server.Locking.{
  Pc, holds_write, holds_read, holds, Move, append, delete, filter, refuse, look, takes, fails,
  ends, store, Threads, Step, locks, rlocks, moves, unlocks, runlocks, Reach, start, later,
}

-- A goroutine that holds the lock for writing is the only one that holds it.
abbrev pub IsExclusive : Threads → Type 0
IsExclusive s = (i j : ℕ) → holds_write (s.pc i) ≡ true → holds (s.pc j) ≡ true → i ≡ j

Move-holds :
    (m m' : Clients) (p q : Pc)
    → Move m p m' q
    → (holds_write q ≡ holds_write p) × (holds_read q ≡ holds_read p)
Move-holds m _ _ _ (append user conn) = (refl, refl)
Move-holds m _ _ _ (delete user) = (refl, refl)
Move-holds m _ _ _ (filter user conn) = (refl, refl)
Move-holds m _ _ _ (refuse user) = (refl, refl)
Move-holds m _ _ _ (look user conns e) = (refl, refl)
Move-holds m _ _ _ (takes user conn rest active) = (refl, refl)
Move-holds m _ _ _ (fails user conn rest active) = (refl, refl)
Move-holds m _ _ _ (ends user active) = (refl, refl)
Move-holds m _ _ _ (store user active) = (refl, refl)

Step-IsExclusive : (s t : Threads) → IsExclusive s → Step s t → IsExclusive t
Step-IsExclusive s _ inv (locks i p e w free) = λ j k hj hk. ground (arith, free j, free k)
Step-IsExclusive s _ inv (rlocks i user e free) =
    λ j k hj hk. ground (arith, free j, free k, inv j k)
Step-IsExclusive s _ inv (moves i e mv) = λ j k hj hk.
    let (w, r) = Move-holds _ _ _ _ mv in ground (arith, inv j k, ap holds_write e, ap holds_read e)
Step-IsExclusive s _ inv (unlocks i e) = λ j k hj hk. ground (arith, inv j k)
Step-IsExclusive s _ inv (runlocks i e) = λ j k hj hk. ground (arith, inv j k)

pub Reach-IsExclusive : (s t : Threads) → IsExclusive s → Reach s t → IsExclusive t
Reach-IsExclusive s t inv start = inv
Reach-IsExclusive s t inv (later {t = u} r st) =
    Step-IsExclusive u t (Reach-IsExclusive s u inv r) st

pub has-append : (c : Conn) (xs ys : List Conn) → has c (xs ++ ys) ≡ (has c xs || has c ys)
has-append c [] ys = refl
has-append c (x ∷ xs) ys = ground (arith, has-append c xs ys)
