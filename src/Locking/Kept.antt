-- ===== src/Locking/Kept.antt =====
-- services/client_store.go between its locks: a connection that was stored.
use mathlib.Core.Path.{subst}
use r2_notify_server.Prelude.{
  ℕ, ◌≡◌, ◌≢◌, refl, sym, ◌∙◌, ap, Bool, true, false, ◌||◌, Option, none, some, List, [], ◌∷◌, ◌++◌,
  ◌==◌, eq_iff, eq_refl, if◌then◌else◌, arith, Bool-cases, inl, inr,
}
use r2_notify_server.Models.{UserId, Conn}
use r2_notify_server.World.{Clients, conns_of, connections, put, remove}
use r2_notify_server.ClientStore.{without}
use r2_notify_server.ClientStore.Writing.{has}
use r2_notify_server.Locking.{
  Pc, idle, appending, deleting, filtering, written, looking, sending, storing, sent, holds_write,
  holds, begins_write, kept_under, filtered, Move, append, delete, filter, refuse, look, takes,
  fails, ends, store, Threads, update, Reach,
}
use r2_notify_server.Locking.Exclusive.{Reach-IsExclusive, has-append}
use r2_notify_server.Locking.Invariant.{MapInvariant, Run, Run-IsMet, written-IsMet}

without_keeps :
    (c d : Conn) (cs : List Conn) → d ≢ c → has c cs ≡ true → has c (without d cs) ≡ true
without_keeps c d [] apart h = h
without_keeps c d (x ∷ xs) apart h = ground (arith, without_keeps c d xs apart)

module _ (u : UserId) (c : Conn) where
  -- A send for the user that is under way still has the connection.
  abbrev carried : Pc → Bool
  carried (sending user rest active) = if user == u then has c rest || has c active else true
  carried (storing user active) = if user == u then has c active else true
  carried _ = true

  -- A move that does not take the connection away: no write to it fails, it is not removed, and the
  -- user is not deleted.
  abbrev pub Spares : {m m' : Clients} {p q : Pc} → Move m p m' q → Type 0
  Spares (fails user conn rest active) = (user ≡ u) → conn ≢ c
  Spares (filter user conn) = (user ≡ u) → conn ≢ c
  Spares (delete user) = user ≢ u
  Spares _ = Unit

  remove_keeps :
      (user : UserId) (m : Clients)
      → user ≢ u
      → has c (conns_of m u) ≡ true
      → has c (conns_of (remove user m) u) ≡ true
  remove_keeps user m apart h = elim (Bool-cases (user == u)) [
    | inl yours ↦ absurd (apart ((eq_iff user u).0 yours))
    | inr other ↦ rw other h
  ]

  put_keeps :
      (user : UserId) (cs : List Conn) (m : Clients)
      → (user ≡ u → has c cs ≡ true)
      → has c (conns_of m u) ≡ true
      → has c (conns_of (put user cs m) u) ≡ true
  put_keeps user cs m same h = elim (Bool-cases (user == u)) [
    | inl yours ↦ rw yours (same ((eq_iff user u).0 yours))
    | inr other ↦ rw other h
  ]

  kept_under_keeps :
      (user : UserId) (cs : List Conn) (m : Clients)
      → (user ≡ u → has c cs ≡ true)
      → has c (conns_of m u) ≡ true
      → has c (conns_of (kept_under user cs m) u) ≡ true
  kept_under_keeps user [] m same h = remove_keeps user m (λ e. absurd (cc (same e))) h
  kept_under_keeps user (d ∷ ds) m same h = put_keeps user (d ∷ ds) m same h

  filtered_keeps :
      (user : UserId) (conn : Conn) (found : Option (List Conn)) (m : Clients)
      → m user ≡ found
      → (user ≡ u → conn ≢ c)
      → has c (conns_of m u) ≡ true
      → has c (conns_of (filtered user conn found m) u) ≡ true
  filtered_keeps user conn none m e apart h = h
  filtered_keeps user conn (some conns) m e apart h =
      kept_under_keeps user (without conn conns) m
        (λ same.
          without_keeps c conn conns (apart same)
            (subst (λ o. has c (connections o) ≡ true) (ap m (sym same) ∙ e) h))
        h

  pub Move-in_map :
      (m m' : Clients) (p q : Pc) (mv : Move m p m' q)
      → Spares mv
      → carried p ≡ true
      → has c (conns_of m u) ≡ true
      → has c (conns_of m' u) ≡ true
  Move-in_map m _ _ _ (append user conn) s k h =
      put_keeps user _ m (λ e. ground (arith, has-append c (conns_of m user) (conn ∷ []))) h
  Move-in_map m _ _ _ (delete user) s k h = remove_keeps user m s h
  Move-in_map m _ _ _ (filter user conn) s k h = filtered_keeps user conn (m user) m refl s h
  Move-in_map m _ _ _ (store user active) s k h =
      put_keeps user active m (λ e. ground (arith, eq_iff user u)) h
  Move-in_map m _ _ _ (refuse user) s k h = h
  Move-in_map m _ _ _ (look user conns e) s k h = h
  Move-in_map m _ _ _ (takes user conn rest active) s k h = h
  Move-in_map m _ _ _ (fails user conn rest active) s k h = h
  Move-in_map m _ _ _ (ends user active) s k h = h

  without_failed :
      (conn : Conn) (rest active : List Conn)
      → conn ≢ c
      → (has c (conn ∷ rest) || has c active) ≡ true
      → (has c rest || has c active) ≡ true
  without_failed conn rest active apart h = ground arith

  pub Move-carried :
      (m m' : Clients) (p q : Pc) (mv : Move m p m' q)
      → Spares mv
      → has c (conns_of m u) ≡ true
      → carried p ≡ true
      → carried q ≡ true
  Move-carried m _ _ _ (append user conn) s h k = refl
  Move-carried m _ _ _ (delete user) s h k = refl
  Move-carried m _ _ _ (filter user conn) s h k = refl
  Move-carried m _ _ _ (store user active) s h k = refl
  Move-carried m _ _ _ (refuse user) s h k = refl
  Move-carried m _ _ _ (look user conns e) s h k = ground (arith, eq_iff user u)
  Move-carried m _ _ _ (takes user conn rest active) s h k =
      ground (arith, has-append c active (conn ∷ []))
  Move-carried m _ _ _ (fails user conn rest active) s h k = elim (Bool-cases (user == u)) [
    | inl yours ↦
        rw yours (without_failed conn rest active (s ((eq_iff user u).0 yours)) (rw yours at k))
    | inr other ↦ rw other
  ]
  Move-carried m _ _ _ (ends user active) s h k = ground (arith, eq_iff user u)

  pub begun : (p : Pc) → begins_write p ≡ true → carried p ≡ true
  begun (appending user conn) h = refl
  begun (deleting user) h = refl
  begun (filtering user conn) h = refl
  begun idle h = cc
  begun written h = cc
  begun (looking user) h = cc
  begun (sending user rest active) h = cc
  begun (storing user active) h = cc
  begun sent h = cc

  pub idle_carried : (p : Pc) → holds p ≡ false → carried p ≡ true
  idle_carried (sending user rest active) h = cc
  idle_carried (storing user active) h = cc
  idle_carried idle h = refl
  idle_carried (appending user conn) h = refl
  idle_carried (deleting user) h = refl
  idle_carried (filtering user conn) h = refl
  idle_carried written h = refl
  idle_carried (looking user) h = refl
  idle_carried sent h = refl

  -- The connection is under its user, and every send for the user will leave it there.
  abbrev pub staying : MapInvariant
  staying = record {
    holds_of = λ m. has c (conns_of m u) ≡ true;
    passes = carried;
    Allowed = Spares;
    free_passes = idle_carried;
    begun_passes = begun;
    looking_passes = λ user. refl;
    move_map = Move-in_map;
    move_passes = Move-carried;
  }

  -- StoreClient's step on the map.
  abbrev pub stored_by : ℕ → Threads → Threads
  stored_by i s = record {
    clients = put u (conns_of s.clients u ++ c ∷ []) s.clients;
    pc = update s.pc i written;
  }

  -- From a state with no goroutine in the store, whatever goroutines do to the map at the same
  -- time, a connection that StoreClient has appended stays under its user, as long as no write to
  -- it fails and neither the connection is removed nor the user deleted: no send that is under way
  -- overwrites the user's list with one that lacks it.
  pub append_kept :
      (s v t : Threads) (i : ℕ)
      → ((j : ℕ) → s.pc j ≡ idle)
      → Reach s v
      → v.pc i ≡ appending u c
      → Run staying (stored_by i v) t
      → has c (conns_of t.clients u) ≡ true
  append_kept s v t i quiet r e run =
      let ex = Reach-IsExclusive s v (λ j k hj hk. cc (quiet j, hj)) r in
      let stored : has c (conns_of (stored_by i v).clients u) ≡ true =
        rw eq_refl (ground (arith, has-append c (conns_of v.clients u) (c ∷ []))) in
      (Run-IsMet staying (stored_by i v) t
        (written-IsMet staying v (stored_by i v).clients i ex (ap holds_write e) stored refl)
        run).in_map
