-- ===== src/Mongo/Partial.antt =====
-- A write that may have been carried out in part.
use r2_notify_server.Prelude.{
  ◌≡◌, refl, Bool, true, false, List, [], ◌∷◌, ◌++◌, select, select-append, arith,
}

-- Each element stays, or, where the test holds, gives way to what `change` makes of it.
pub data Partly {A : Type 0} (test : A → Bool) (change : A → List A)
    : List A → List A → Type 0 where
  done : Partly test change [] []
  left : {x : A} {xs ys : List A} → Partly test change xs ys → Partly test change (x ∷ xs) (x ∷ ys)
  hit :
      {x : A} {xs ys zs : List A}
      → test x ≡ true
      → Partly test change xs ys
      → zs ≡ change x ++ ys
      → Partly test change (x ∷ xs) zs

module _ {A : Type 0} {test : A → Bool} {change : A → List A} (q : A → Bool) where
  -- A selection that what is changed belongs to neither before nor after is the same after it.
  pub select-Partly :
      {xs ys : List A}
      → ((x : A) → test x ≡ true → q x ≡ false)
      → ((x : A) → test x ≡ true → select q (change x) ≡ [])
      → Partly test change xs ys
      → select q ys ≡ select q xs
  select-Partly before after done = refl
  select-Partly before after (left {x} p) = ground (arith, select-Partly before after p)
  select-Partly before after (hit {x = x} {ys = ys} h p e) =
      rw (e, select-append q (change x) ys, after x h, before x h, select-Partly before after p)
