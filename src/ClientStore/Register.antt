-- ===== src/ClientStore/Register.antt =====
-- The connections of each user, without their order: what the functions of the store promise.
use Prim.Native.Nat.{◌+◌}
use mathlib.Core.Path.{fun_ext}
use mathlib.Core.Quot
use mathlib.Core.Quot.{Quot, Quot-set}
use r2_notify_server.Prelude.{
  ℕ, ◌≡◌, refl, sym, ◌∙◌, ap, Bool, false, not, Option, none, some, List, [], ◌∷◌, ◌++◌, Result,
  Error, select, eqb, eqb_iff, eqb_refl, ◌==◌, eq_iff, eq_refl, if◌then◌else◌, inl, inr, Bool-cases,
  arith,
}
use r2_notify_server.Models.{UserId, Conn}
use r2_notify_server.Json.{Json}
use r2_notify_server.World.{Backend, World, Clients, conns_of, connections, put, remove}
use r2_notify_server.ClientStore.{
  without, store_client, delete_client, remove_connection, get_client_info, write_all,
}
use r2_notify_server.ClientStore.Registry.{conns_of-remove_connection}
use r2_notify_server.ClientStore.Delivery.{Outcome, refused, carried_out, send_to_user-Outcome}
use r2_notify_server.ClientStore.Operations.{Operation, stores, deletes, removes, sends, carry_out}

abbrev pub count : Conn → List Conn → ℕ
count a [] = 0
count a (x ∷ xs) = (if eqb x a then 1 else 0) + count a xs

-- Two lists hold the same connections, as often.
abbrev pub SameConns : List Conn → List Conn → Type 0
SameConns xs ys = (a : Conn) → count a xs ≡ count a ys

abbrev pub Register : Type 0
Register = UserId → Quot SameConns

abbrev pub view : Clients → Register
view m u = Quot.mk (conns_of m u)

view_ext :
    (m m' : Clients) → ((u : UserId) → SameConns (conns_of m u) (conns_of m' u)) → view m ≡ view m'
view_ext m m' h = fun_ext λ u. Quot.sound (h u)

-- A connection more, and all occurrences of a connection less.
abbrev pub added : Conn → Quot SameConns → Quot SameConns
added c =
    Quot.lift Quot-set (λ xs. Quot.mk (c ∷ xs)) (λ xs ys h. Quot.sound (λ a. omega (arith, h a)))

pub count-select :
    (p : Conn → Bool) (a : Conn) (xs : List Conn)
    → count a (select p xs) ≡ (if p a then count a xs else 0)
count-select p a [] = ground arith
count-select p a (x ∷ xs) = elim (Bool-cases (eqb x a)) [
  | inl same ↦ rw ((eqb_iff x a).0 same) (ground (arith, count-select p a xs, eqb_refl a))
  | inr apart ↦ rw apart (ground (arith, count-select p a xs))
]

abbrev pub taken_out : Conn → Quot SameConns → Quot SameConns
taken_out c =
    Quot.lift Quot-set (λ xs. Quot.mk (without c xs))
      (λ xs ys h. Quot.sound λ a.
        count-select (λ d. not (eqb d c)) a xs
        ∙ rw (h a) (sym (count-select (λ d. not (eqb d c)) a ys)))

abbrev pub changed : UserId → (Quot SameConns → Quot SameConns) → Register → Register
changed user f r u = if user == u then f (r u) else r u

abbrev pub join : UserId → Conn → Register → Register
join user c = changed user (added c)

abbrev pub leave : UserId → Conn → Register → Register
leave user c = changed user (taken_out c)

abbrev pub clear : UserId → Register → Register
clear user = changed user (λ _. Quot.mk [])

abbrev pub join_all : UserId → List Conn → Register → Register
join_all user [] r = r
join_all user (c ∷ cs) r = join user c (join_all user cs r)

-- What an operation promises. A send only takes connections away: with those it has lost, the
-- register is the one from before.
abbrev pub Promises : Operation → Register → Register → Type 0
Promises (stores info c) r r' = r' ≡ join info.id c r
Promises (deletes user) r r' = r' ≡ clear user r
Promises (removes user c) r r' = r' ≡ leave user c r
Promises (sends user payload bypass) r r' = ∥ ((lost : List Conn) × (join_all user lost r' ≡ r)) ∥₁

-- A new list for a user, seen as a change of what the user had.
changed_lem :
    (user : UserId) (f : Quot SameConns → Quot SameConns) (m m' : Clients)
    → ((u : UserId) → (user == u) ≡ false → conns_of m' u ≡ conns_of m u)
    → ◌≡◌ {A = Quot SameConns} (Quot.mk (conns_of m' user)) (f (Quot.mk (conns_of m user)))
    → view m' ≡ changed user f (view m)
changed_lem user f m m' others own = fun_ext λ u. elim (Bool-cases (user == u)) [
  | inl yours ↦
      let same = (eq_iff user u).0 yours in
      rw yours (
        ap (λ v. Quot.mk (conns_of m' v)) (sym same)
        ∙ own
        ∙ ap (λ v. f (Quot.mk (conns_of m v))) same)
  | inr other ↦ rw other (ap Quot.mk (others u other))
]

count-append : (a : Conn) (xs ys : List Conn) → count a (xs ++ ys) ≡ count a xs + count a ys
count-append a [] ys = ground arith
count-append a (x ∷ xs) ys = ground (arith, count-append a xs ys)

-- Two maps that differ in a user's list only.
abbrev SameFor : Clients → Clients → UserId → Type 0
SameFor m m' user = (u : UserId) → (user == u) ≡ false → conns_of m' u ≡ conns_of m u

joined :
    (user : UserId) (c : Conn) (m m' : Clients)
    → SameFor m m' user
    → SameConns (conns_of m' user) (c ∷ conns_of m user)
    → view m' ≡ join user c (view m)
joined user c m m' others same = changed_lem user (added c) m m' others (Quot.sound same)

put-SameFor : (user : UserId) (xs : List Conn) (m : Clients) → SameFor m (put user xs m) user
put-SameFor user xs m u other = rw other refl

put_own : (user : UserId) (xs : List Conn) (m : Clients) → conns_of (put user xs m) user ≡ xs
put_own user xs m = rw (eq_refl user) refl

-- To take connections back is to put them before those that are there.
join_all_view :
    (user : UserId) (lost : List Conn) (m : Clients)
    → join_all user lost (view m) ≡ view (put user (lost ++ conns_of m user) m)
join_all_view user [] m = view_ext m (put user (conns_of m user) m) λ u a.
    elim (Bool-cases (user == u)) [
      | inl yours ↦ rw yours (ap (λ v. count a (conns_of m v)) (sym ((eq_iff user u).0 yours)))
      | inr other ↦ rw other refl
    ]
join_all_view user (c ∷ cs) m =
    ap (join user c) (join_all_view user cs m)
    ∙ sym (
        joined user c (put user (cs ++ conns_of m user) m) (put user (c ∷ cs ++ conns_of m user) m)
          (λ u other. rw other refl) (λ a. rw (eq_refl user) refl))

module _ (b : Backend) where
  module _ (j : Json) where
    one_lost :
        (e : Option Error) (c : Conn) (cs active : List Conn)
        → (lost : List Conn) × SameConns cs (lost ++ active)
        → (lost : List Conn) × SameConns
            (c ∷ cs)
            (lost ++ (elim e [ none ↦ c ∷ active | some _ ↦ active ]))
    one_lost none c cs active (lost, same) = (
      lost,
      λ a. ground (arith, same a, count-append a lost (c ∷ active), count-append a lost active),
    )
    one_lost (some e) c cs active (lost, same) = (c ∷ lost, λ a. ground (arith, same a))

    -- The loop of a send loses the rest.
    write_all_lost :
        (cs : List Conn) (k : b.sockets.State)
        → (lost : List Conn) × SameConns cs (lost ++ (write_all b cs j k).0)
    unfolding write_all
    write_all_lost [] k = ([], λ a. refl)
    write_all_lost (c ∷ cs) k =
        one_lost (b.sockets.write c j k).0 c cs _ (write_all_lost cs (b.sockets.write c j k).1)

  sent_view :
      (user : UserId) (payload : Result Json) (bypass : Bool) (w : World b)
      (p : Result (Unit {0}) × World b)
      → Outcome b user payload bypass w p
      → (lost : List Conn) × (join_all user lost (view p.1.clients) ≡ view w.clients)
  unfolding get_client_info
  sent_view user payload bypass w p (refused e r sockets clients) = ([], ap view clients)
  sent_view user payload bypass w p (carried_out conns info j r found known may encoded end) =
      let (lost, same) = write_all_lost j conns w.sockets in
      let active : List Conn = (write_all b conns j w.sockets).0 in
      let there : conns_of w.clients user ≡ conns = ap connections found in
      (
        lost,
        rw end (
            join_all_view user lost (put user active w.clients)
            ∙ view_ext
                (put user (lost ++ conns_of (put user active w.clients) user)
                  (put user active w.clients))
                w.clients
                λ u a. elim (Bool-cases (user == u)) [
                  | inl yours ↦
                      rw (yours, put_own user active w.clients)
                        (sym (same a)
                          ∙ ap (count a)
                              (sym there ∙ ap (conns_of w.clients) ((eq_iff user u).0 yours)))
                  | inr other ↦ rw other refl
                ]),
      )

  -- Seen as each user's connections without their order, StoreClient adds one to its user's,
  -- DeleteClient takes all of a user's, RemoveConnection takes all occurrences of a connection
  -- from its user's, and sendToUser only takes some of its user's.
  pub view-carry_out :
      (o : Operation) (w : World b) → Promises o (view w.clients) (view (carry_out b o w).clients)
  unfolding store_client delete_client
  view-carry_out (stores info c) w =
      let conns : List Conn = conns_of w.clients info.id ++ c ∷ [] in
      joined info.id c w.clients (put info.id conns w.clients) (put-SameFor info.id conns w.clients)
        (λ a.
          rw (put_own info.id conns w.clients)
            (ground (arith, count-append a (conns_of w.clients info.id) (c ∷ []))))
  view-carry_out (deletes user) w =
      changed_lem user (λ _. Quot.mk []) w.clients (remove user w.clients)
        (λ u other. rw other refl) (rw (eq_refl user) refl)
  view-carry_out (removes user c) w =
      changed_lem user (taken_out c) w.clients (remove_connection b user c w).clients
        (λ u other. conns_of-remove_connection b user c w u ∙ rw other refl)
        (ap Quot.mk (conns_of-remove_connection b user c w user ∙ rw (eq_refl user) refl))
  view-carry_out (sends user payload bypass) w =
      ∣ (sent_view user payload bypass w _ (send_to_user-Outcome b user w payload bypass)) ∣₁
