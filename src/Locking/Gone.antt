-- ===== src/Locking/Gone.antt =====
-- services/client_store.go between its locks: a connection that was removed.
use mathlib.Core.Path.{subst}
use r2_notify_server.Prelude.{
  ℕ, ◌≡◌, ◌≢◌, refl, sym, ◌∙◌, ap, Bool, true, false, not, ◌&&◌, Option, none, some, List, [], ◌∷◌,
  ◌==◌, eq_iff, eq_refl, if◌then◌else◌, arith, Bool-cases, inl, inr,
}
use r2_notify_server.Models.{UserId, Conn}
use r2_notify_server.World.{Clients, conns_of, connections, put, remove}
use r2_notify_server.ClientStore.{without}
use r2_notify_server.ClientStore.Writing.{has, has-without}
use r2_notify_server.Locking.{
  Pc, idle, appending, deleting, filtering, written, looking, sending, storing, sent, holds_write,
  holds, begins_write, kept_under, filtered, Move, append, delete, filter, refuse, look, takes,
  fails, ends, store, Threads, update, Reach,
}
use r2_notify_server.Locking.Exclusive.{Reach-IsExclusive, has-append}
use r2_notify_server.Locking.Invariant.{MapInvariant, Run, Run-IsMet, written-IsMet}

module _ (u : UserId) (c : Conn) where
  -- A send for the user that is under way does not have the connection.
  abbrev lacks : Pc → Bool
  lacks (sending user rest active) =
      if user == u then not (has c rest) && not (has c active) else true
  lacks (storing user active) = if user == u then not (has c active) else true
  lacks _ = true

  -- A move that does not store the connection again.
  abbrev pub Omits : {m m' : Clients} {p q : Pc} → Move m p m' q → Type 0
  Omits (append user conn) = (user ≡ u) → conn ≢ c
  Omits _ = Unit

  remove_lacks :
      (user : UserId) (m : Clients)
      → has c (conns_of m u) ≡ false
      → has c (conns_of (remove user m) u) ≡ false
  remove_lacks user m h = elim (Bool-cases (user == u)) [
    | inl yours ↦ rw yours refl
    | inr other ↦ rw other h
  ]

  put_lacks :
      (user : UserId) (cs : List Conn) (m : Clients)
      → (user ≡ u → has c cs ≡ false)
      → has c (conns_of m u) ≡ false
      → has c (conns_of (put user cs m) u) ≡ false
  put_lacks user cs m same h = elim (Bool-cases (user == u)) [
    | inl yours ↦ rw yours (same ((eq_iff user u).0 yours))
    | inr other ↦ rw other h
  ]

  kept_under_lacks :
      (user : UserId) (cs : List Conn) (m : Clients)
      → (user ≡ u → has c cs ≡ false)
      → has c (conns_of m u) ≡ false
      → has c (conns_of (kept_under user cs m) u) ≡ false
  kept_under_lacks user [] m same h = remove_lacks user m h
  kept_under_lacks user (d ∷ ds) m same h = put_lacks user (d ∷ ds) m same h

  without_lacks : (d : Conn) (cs : List Conn) → has c cs ≡ false → has c (without d cs) ≡ false
  without_lacks d [] h = h
  without_lacks d (x ∷ xs) h = ground (arith, without_lacks d xs)

  filtered_lacks :
      (user : UserId) (conn : Conn) (found : Option (List Conn)) (m : Clients)
      → m user ≡ found
      → has c (conns_of m u) ≡ false
      → has c (conns_of (filtered user conn found m) u) ≡ false
  filtered_lacks user conn none m e h = h
  filtered_lacks user conn (some conns) m e h =
      kept_under_lacks user (without conn conns) m
        (λ same.
          without_lacks conn conns
            (subst (λ o. has c (connections o) ≡ false) (ap m (sym same) ∙ e) h))
        h

  pub Move-not_in_map :
      (m m' : Clients) (p q : Pc) (mv : Move m p m' q)
      → Omits mv
      → lacks p ≡ true
      → has c (conns_of m u) ≡ false
      → has c (conns_of m' u) ≡ false
  Move-not_in_map m _ _ _ (append user conn) s k h =
      put_lacks user _ m
        (λ e.
          let apart : conn ≢ c = s e in
          let none_there : has c (conns_of m user) ≡ false = ap (λ v. has c (conns_of m v)) e ∙ h in
          ground (arith, has-append c (conns_of m user) (conn ∷ [])))
        h
  Move-not_in_map m _ _ _ (delete user) s k h = remove_lacks user m h
  Move-not_in_map m _ _ _ (filter user conn) s k h = filtered_lacks user conn (m user) m refl h
  Move-not_in_map m _ _ _ (store user active) s k h =
      put_lacks user active m (λ e. ground (arith, eq_iff user u)) h
  Move-not_in_map m _ _ _ (refuse user) s k h = h
  Move-not_in_map m _ _ _ (look user conns e) s k h = h
  Move-not_in_map m _ _ _ (takes user conn rest active) s k h = h
  Move-not_in_map m _ _ _ (fails user conn rest active) s k h = h
  Move-not_in_map m _ _ _ (ends user active) s k h = h

  looked_lacks :
      (user : UserId) (conns : List Conn) (m : Clients)
      → m user ≡ some conns
      → has c (conns_of m u) ≡ false
      → lacks (sending user conns []) ≡ true
  looked_lacks user conns m e h = elim (Bool-cases (user == u)) [
    | inl yours ↦
        let none_there : has c conns ≡ false =
          subst (λ o. has c (connections o) ≡ false) (ap m (sym ((eq_iff user u).0 yours)) ∙ e) h in
        rw (yours, none_there) refl
    | inr other ↦ rw other refl
  ]

  pub Move-lacks :
      (m m' : Clients) (p q : Pc) (mv : Move m p m' q)
      → Omits mv
      → has c (conns_of m u) ≡ false
      → lacks p ≡ true
      → lacks q ≡ true
  Move-lacks m _ _ _ (append user conn) s h k = refl
  Move-lacks m _ _ _ (delete user) s h k = refl
  Move-lacks m _ _ _ (filter user conn) s h k = refl
  Move-lacks m _ _ _ (store user active) s h k = refl
  Move-lacks m _ _ _ (refuse user) s h k = refl
  Move-lacks m _ _ _ (look user conns e) s h k = looked_lacks user conns m e h
  Move-lacks m _ _ _ (takes user conn rest active) s h k =
      ground (arith, has-append c active (conn ∷ []))
  Move-lacks m _ _ _ (fails user conn rest active) s h k = ground arith
  Move-lacks m _ _ _ (ends user active) s h k = ground arith

  pub begun_lacks : (p : Pc) → begins_write p ≡ true → lacks p ≡ true
  begun_lacks (appending user conn) h = refl
  begun_lacks (deleting user) h = refl
  begun_lacks (filtering user conn) h = refl
  begun_lacks idle h = cc
  begun_lacks written h = cc
  begun_lacks (looking user) h = cc
  begun_lacks (sending user rest active) h = cc
  begun_lacks (storing user active) h = cc
  begun_lacks sent h = cc

  pub free_lacks : (p : Pc) → holds p ≡ false → lacks p ≡ true
  free_lacks (sending user rest active) h = cc
  free_lacks (storing user active) h = cc
  free_lacks idle h = refl
  free_lacks (appending user conn) h = refl
  free_lacks (deleting user) h = refl
  free_lacks (filtering user conn) h = refl
  free_lacks written h = refl
  free_lacks (looking user) h = refl
  free_lacks sent h = refl

  -- The connection is not under its user, and no send for the user will bring it back.
  abbrev pub absent : MapInvariant
  absent = record {
    holds_of = λ m. has c (conns_of m u) ≡ false;
    passes = lacks;
    Allowed = Omits;
    free_passes = free_lacks;
    begun_passes = begun_lacks;
    looking_passes = λ user. refl;
    move_map = Move-not_in_map;
    move_passes = Move-lacks;
  }

  kept_under_own :
      (cs : List Conn) (m : Clients)
      → has c cs ≡ false
      → has c (conns_of (kept_under u cs m) u) ≡ false
  kept_under_own [] m h = rw (eq_refl u) refl
  kept_under_own (d ∷ ds) m h = rw (eq_refl u) h

  filtered_own :
      (found : Option (List Conn)) (m : Clients)
      → m u ≡ found
      → has c (conns_of (filtered u c found m) u) ≡ false
  filtered_own none m e = rw e refl
  filtered_own (some conns) m e = kept_under_own (without c conns) m (has-without c conns)

  -- RemoveConnection's step on the map.
  abbrev pub removed_by : ℕ → Threads → Threads
  removed_by i s = record {
    clients = filtered u c (s.clients u) s.clients;
    pc = update s.pc i written;
  }

  -- From a state with no goroutine in the store, whatever goroutines do to the map at the same
  -- time, a connection that RemoveConnection has taken out does not come back under its user, as
  -- long as StoreClient does not store it again.
  pub filter_gone :
      (s v t : Threads) (i : ℕ)
      → ((j : ℕ) → s.pc j ≡ idle)
      → Reach s v
      → v.pc i ≡ filtering u c
      → Run absent (removed_by i v) t
      → has c (conns_of t.clients u) ≡ false
  filter_gone s v t i quiet r e run =
      let ex = Reach-IsExclusive s v (λ j k hj hk. cc (quiet j, hj)) r in
      let removed = filtered_own (v.clients u) v.clients refl in
      (Run-IsMet absent (removed_by i v) t
        (written-IsMet absent v (removed_by i v).clients i ex (ap holds_write e) removed refl)
        run).in_map
