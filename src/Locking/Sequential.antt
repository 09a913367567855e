-- ===== src/Locking/Sequential.antt =====
-- services/client_store.go: its functions one after another, and the steps between the locks.
use r2_notify_server.Prelude.{
  ℕ, ◌≡◌, refl, sym, ap, Bool, true, Option, none, some, List, [], ◌∷◌, ◌++◌, Result, Error, arith,
}
use mathlib.Core.Path.{subst}
use mathlib.Core.List.{append_assoc, append-nil}
use r2_notify_server.Models.{UserId, Conn}
use r2_notify_server.Json.{Json}
use r2_notify_server.World.{Backend, World, Clients, put}
use r2_notify_server.ClientStore.{
  without, store_client, delete_client, remove_connection, remove_found, keep_remaining,
  get_client_info, write_all,
}
use r2_notify_server.ClientStore.Operations.{
  Operation, stores, deletes, removes, sends, carry_out, carry_out_all,
}
use r2_notify_server.ClientStore.Delivery.{Outcome, refused, carried_out, send_to_user-Outcome}
use r2_notify_server.Locking.{
  Pc, idle, appending, deleting, filtering, written, looking, sending, storing, begins_write,
  kept_under, filtered, Move, append, delete, filter, refuse, look, takes, fails, ends, store,
  Threads, at_pc, locks, rlocks, moves, unlocks, runlocks, Reach, start, later,
}
use r2_notify_server.Locking.Race.{Advances, Reach-trans, moved}

-- Every goroutine is outside the store.
abbrev pub IsQuiet : Threads → Type 0
IsQuiet s = (j : ℕ) → s.pc j ≡ idle

-- From one state, another one in which nobody is in the store and the map is the given one.
abbrev pub ReachesMap : Threads → Clients → Type 0
ReachesMap s m = (t : Threads) × Reach s t × (t.clients ≡ m) × IsQuiet t

locked :
    (s : Threads) (p : Pc) (m : Clients)
    → IsQuiet s
    → begins_write p ≡ true
    → Move s.clients p m written
    → ReachesMap s m
locked s p m quiet begins mv = (
  _,
  later (later (later start (locks 0 p (quiet 0) begins λ j. cc (quiet j))) (moves 0 refl mv))
      (unlocks 0 refl),
  refl,
  λ j. ground (arith, quiet j),
)

looked :
    (s : Threads) (user : UserId)
    → IsQuiet s
    → Advances s 0 (looking user) (at_pc s 0 (looking user))
looked s user quiet = record {
  reached = later start (rlocks 0 user (quiet 0) λ j. cc (quiet j));
  here = refl;
  map_same = refl;
  others_same = λ j apart. ground (arith);
}

refused_alone : (s : Threads) (user : UserId) → IsQuiet s → ReachesMap s s.clients
refused_alone s user quiet =
    let a = moved s _ 0 _ _ (looked s user quiet) (refuse user) in
    (_, later a.reached (runlocks 0 refl), refl, λ j. ground (arith, quiet j))

module _ (b : Backend) where
  -- The loop, when the writes go as they do on the sockets.
  module _ (s : Threads) (i : ℕ) (user : UserId) (j : Json) where
    abbrev Loops : List Conn → List Conn → List Conn → Type 0
    Loops rest active more =
        (t : Threads)
        → Advances s i (sending user rest active) t
        → (v : Threads) × Advances s i (storing user (active ++ more)) v

    loop_round :
        (e : Option Error) (c : Conn) (rest active more : List Conn)
        → ((active' : List Conn) → Loops rest active' more)
        → Loops (c ∷ rest) active (elim e [ none ↦ c ∷ more | some _ ↦ more ])
    loop_round none c rest active more next t a =
        let (v, a') = next (active ++ c ∷ []) _ (moved s t i _ _ a (takes user c rest active)) in
        (v, rw append_assoc at a')
    loop_round (some e) c rest active more next t a =
        next active _ (moved s t i _ _ a (fails user c rest active))

    loop_to_storing :
        (rest active : List Conn) (k : b.sockets.State) → Loops rest active (write_all b rest j k).0
    unfolding write_all
    loop_to_storing [] active k t a =
        (at_pc t i (storing user active), rw append-nil (moved s t i _ _ a (ends user active)))
    loop_to_storing (c ∷ cs) active k t a =
        let (e, k') = b.sockets.write c j k in
        loop_round e c cs active _ (λ active'. loop_to_storing cs active' k') t a

  carried_out_alone :
      (s : Threads) (user : UserId) (conns : List Conn) (j : Json) (k : b.sockets.State)
      → IsQuiet s
      → s.clients user ≡ some conns
      → ReachesMap s (put user (write_all b conns j k).0 s.clients)
  carried_out_alone s user conns j k quiet found =
      let (v, a) =
        loop_to_storing s 0 user j conns [] k _
          (moved s _ 0 _ _ (looked s user quiet) (look user conns found)) in
      (
        _,
        later (later a.reached (moves 0 a.here (store user _))) (runlocks 0 refl),
        ap (put user _) a.map_same,
        λ i. ground (arith, a.others_same i, quiet i),
      )

  remaining_map :
      (user : UserId) (conns : List Conn) (w : World b)
      → kept_under user conns w.clients ≡ (keep_remaining b user conns w).clients
  unfolding keep_remaining
  remaining_map user [] w = refl
  remaining_map user (c ∷ cs) w = refl

  filtered_map :
      (user : UserId) (conn : Conn) (found : Option (List Conn)) (w : World b)
      → filtered user conn found w.clients ≡ (remove_found b user conn found w).clients
  unfolding remove_found
  filtered_map user conn none w = refl
  filtered_map user conn (some conns) w = remaining_map user (without conn conns) w

  sent_map :
      (user : UserId) (payload : Result Json) (bypass : Bool) (w : World b) (pc : ℕ → Pc)
      (p : Result (Unit {0}) × World b)
      → IsQuiet (record { clients = w.clients; pc = pc })
      → Outcome b user payload bypass w p
      → ReachesMap (record { clients = w.clients; pc = pc }) p.1.clients
  unfolding get_client_info
  sent_map user payload bypass w pc p quiet (refused e r sockets clients) =
      rw clients (refused_alone _ user quiet)
  sent_map user payload bypass w pc p quiet
        (carried_out conns info j r found known may encoded end) =
      rw end (carried_out_alone _ user conns j w.sockets quiet found)

  one_map :
      (o : Operation) (w : World b) (pc : ℕ → Pc)
      → IsQuiet (record { clients = w.clients; pc = pc })
      → ReachesMap (record { clients = w.clients; pc = pc }) (carry_out b o w).clients
  unfolding store_client delete_client remove_connection
  one_map (stores info conn) w pc quiet =
      locked _ (appending info.id conn) _ quiet refl (append info.id conn)
  one_map (deletes user) w pc quiet = locked _ (deleting user) _ quiet refl (delete user)
  one_map (removes user conn) w pc quiet =
      rw (sym (filtered_map user conn (w.clients user) w))
        (locked _ (filtering user conn) _ quiet refl (filter user conn))
  one_map (sends user payload bypass) w pc quiet =
      sent_map user payload bypass w pc _ quiet (send_to_user-Outcome b user w payload bypass)

  -- When no goroutine is in the store, the map that any sequence of calls of StoreClient,
  -- DeleteClient, RemoveConnection and sendToUser leaves, each taken as one step, is reached by
  -- the steps between the locks, and no goroutine is in the store then.
  pub Reach-carry_out_all :
      (os : List Operation) (w : World b) (s : Threads)
      → IsQuiet s
      → s.clients ≡ w.clients
      → ReachesMap s (carry_out_all b os w).clients
  Reach-carry_out_all [] w s quiet same = (s, start, same, quiet)
  Reach-carry_out_all (o ∷ os) w s quiet same =
      let (t, r, map_t, quiet_t) =
        subst (λ m. ReachesMap (record { clients = m; pc = s.pc }) (carry_out b o w).clients)
          (sym same) (one_map o w s.pc quiet) in
      let (u, q, map_u, quiet_u) = Reach-carry_out_all os (carry_out b o w) t quiet_t map_t in
      (u, Reach-trans s t u r q, map_u, quiet_u)
