-- ===== src/ClientStore/Writing.antt =====
-- The loop of sendToUser over a user's connections.
use r2_notify_server.Prelude.{
  ◌≡◌, refl, Bool, true, false, List, [], ◌∷◌, ◌++◌, inl, inr, any, eqb, arith, Option-cases,
}
use r2_notify_server.Models.{Conn}
use r2_notify_server.Json.{Json}
use r2_notify_server.World.{Backend, LawfulSockets}
use r2_notify_server.ClientStore.{without, write_all}

abbrev pub has : Conn → List Conn → Bool
has d = any (λ c. eqb c d)

abbrev pub AreDistinct : List Conn → Type 0
AreDistinct [] = Unit
AreDistinct (c ∷ cs) = (has c cs ≡ false) × AreDistinct cs

pub has-without : (c : Conn) (cs : List Conn) → has c (without c cs) ≡ false
has-without c [] = refl
has-without c (x ∷ xs) = ground (arith, has-without c xs)

has_same : (c d : Conn) (cs : List Conn) → eqb c d ≡ true → has d cs ≡ has c cs
has_same c d [] h = refl
has_same c d (x ∷ xs) h = ground (arith, has_same c d xs h)

module _ (b : Backend) (j : Json) (d : Conn) where
  -- The connections that stay were in the list.
  pub has-write_all :
      (cs : List Conn) (k : b.sockets.State) → has d (write_all b cs j k).0 ≡ true → has d cs ≡ true
  unfolding write_all
  has-write_all [] k h = h
  has-write_all (c ∷ cs) k h = ground (arith, has-write_all cs (b.sockets.write c j k).1)

  absent_stays :
      (cs : List Conn) (k : b.sockets.State)
      → has d cs ≡ false
      → has d (write_all b cs j k).0 ≡ false
  unfolding write_all
  absent_stays [] k h = refl
  absent_stays (c ∷ cs) k h = ground (arith, absent_stays cs (b.sockets.write c j k).1)

module _ (b : Backend) (law : LawfulSockets b.sockets) (j : Json) (d : Conn) where
  -- The message goes to no connection outside the list.
  pub write_all-sent_other :
      (cs : List Conn) (k : b.sockets.State)
      → has d cs ≡ false
      → b.sockets.sent (write_all b cs j k).1 d ≡ b.sockets.sent k d
  unfolding write_all
  write_all-sent_other [] k h = refl
  write_all-sent_other (c ∷ cs) k h = elim (Option-cases (b.sockets.write c j k).0) [
    | inl e ↦
        ground (arith, law.write_sends c d j k e, write_all-sent_other cs (b.sockets.write c j k).1)
    | inr (x, e) ↦
        ground
          (arith, law.write_fails c d j k x e, write_all-sent_other cs (b.sockets.write c j k).1)
  ]

  -- A connection that stays has got the message once, behind what it had got before.
  pub write_all-sent :
      (cs : List Conn) (k : b.sockets.State)
      → AreDistinct cs
      → has d (write_all b cs j k).0 ≡ true
      → b.sockets.sent (write_all b cs j k).1 d ≡ b.sockets.sent k d ++ j ∷ []
  unfolding write_all
  write_all-sent [] k dist h = cc
  write_all-sent (c ∷ cs) k dist h = elim (Option-cases (b.sockets.write c j k).0) [
    | inl e ↦ ground (
      arith,
      law.write_sends c d j k e,
      has_same c d cs,
      write_all-sent_other cs (b.sockets.write c j k).1,
      absent_stays b j d cs (b.sockets.write c j k).1,
      write_all-sent cs (b.sockets.write c j k).1 dist.1,
    )
    | inr (x, e) ↦
        ground
          (arith, law.write_fails c d j k x e, write_all-sent cs (b.sockets.write c j k).1 dist.1)
  ]

  -- One that was in the list and does not stay has got nothing.
  pub write_all-sent_failed :
      (cs : List Conn) (k : b.sockets.State)
      → AreDistinct cs
      → has d (write_all b cs j k).0 ≡ false
      → b.sockets.sent (write_all b cs j k).1 d ≡ b.sockets.sent k d
  unfolding write_all
  write_all-sent_failed [] k dist h = refl
  write_all-sent_failed (c ∷ cs) k dist h = elim (Option-cases (b.sockets.write c j k).0) [
    | inl e ↦ ground (
      arith,
      law.write_sends c d j k e,
      has_same c d cs,
      write_all-sent_other cs (b.sockets.write c j k).1,
      absent_stays b j d cs (b.sockets.write c j k).1,
      write_all-sent_failed cs (b.sockets.write c j k).1 dist.1,
    )
    | inr (x, e) ↦ ground (
      arith,
      law.write_fails c d j k x e,
      write_all-sent_failed cs (b.sockets.write c j k).1 dist.1,
    )
  ]

pub write_all-AreDistinct :
    (b : Backend) (j : Json) (cs : List Conn) (k : b.sockets.State)
    → AreDistinct cs
    → AreDistinct (write_all b cs j k).0
unfolding write_all
write_all-AreDistinct b j [] k dist = tt
write_all-AreDistinct b j (c ∷ cs) k dist = ground (
  arith,
  absent_stays b j c cs (b.sockets.write c j k).1 dist.0,
  write_all-AreDistinct b j cs (b.sockets.write c j k).1 dist.1,
)
