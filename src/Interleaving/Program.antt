-- ===== src/Interleaving/Program.antt =====
-- Go code as the sequence of its calls on a shared state. What a call gives decides on the rest.
use r2_notify_server.Prelude.{◌≡◌, refl}

pub data Program (S A : Type 0) : Type 1 where
  returns : A → Program S A
  calls : {B : Type 0} → (S → B × S) → (B → Program S A) → Program S A

module _ {S : Type 0} where
  abbrev pub call : {B : Type 0} → (S → B × S) → Program S B
  call op = calls op returns

  -- A call of a function that gives nothing back.
  abbrev pub call_void : (S → S) → Program S (Unit {0})
  call_void op = call (λ s. (tt, op s))

  -- A call whose result is not looked at.
  abbrev pub call_only : {B : Type 0} → (S → B × S) → Program S (Unit {0})
  call_only op = calls op (λ _. returns tt)

  infixl 5 ◌>>=◌ ◌>>◌
  abbrev pub ◌>>=◌ : {A B : Type 0} → Program S A → (A → Program S B) → Program S B
  returns a >>= f = f a
  calls op next >>= f = calls op (λ r. next r >>= f)

  abbrev pub ◌>>◌ : {B : Type 0} → Program S (Unit {0}) → Program S B → Program S B
  p >> q = p >>= λ _. q

  -- The calls one after another, with nothing between them.
  abbrev pub run : {A : Type 0} → Program S A → S → A × S
  run (returns a) s = (a, s)
  run (calls op next) s = let (r, s') = op s in run (next r) s'

  pub run->>= :
      {A B : Type 0} (p : Program S A) (f : A → Program S B) (s : S)
      → run (p >>= f) s ≡ run (f (run p s).0) (run p s).1
  run->>= (returns a) f s = refl
  run->>= (calls op next) f s = run->>= (next (op s).0) f (op s).1
