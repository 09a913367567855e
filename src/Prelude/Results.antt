-- ===== src/Prelude/Results.antt =====
-- Go functions that may fail: an `error` result beside the new state, which an error does not undo.
use Prim.Native.String.{String}
use mathlib.Core.Path.{◌≡◌, refl}

-- The errors that the source makes, the ones of the libraries that it compares with or reaches by a
-- path of its own, and a text for every other error that a library returns.
pub data Error : Type 0 where
  no_documents : Error
  notification_not_found : Error
  inserted_id_not_object_id : Error
  no_document_to_update : Error
  no_document_to_delete : Error
  user_not_connected : Error
  notifications_disabled : Error
  validator_nil : Error
  unexpected_signing_method : Error
  invalid_token : Error
  json_syntax : Error
  json_type : Error
  other : String → Error

-- A value, or an error in its place.
pub data Result {ℓ} (A : Type ℓ) : Type ℓ where
  err : Error → Result A
  ok : A → Result A

-- What Go writes as `if err != nil { return …, err }` between two calls.
infixl 5 ◌>>=◌
abbrev pub ◌>>=◌ {κ ℓ} : {B : Type κ} {A : Type ℓ} → Result A → (A → Result B) → Result B
err failure >>= next = err failure
ok value >>= next = next value

-- A call on a state S.
abbrev pub Exec : Type 0 → Type 0 → Type 0
Exec S A = S → Result A × S

-- Inversion of a chain that gave a result.
pub >>=-ok {ℓ κ} :
    {A : Type ℓ} {B : Type κ} (call : Result A) (next : A → Result B) {outcome : B}
    → (call >>= next) ≡ ok outcome
    → (value : A) × (call ≡ ok value) × (next value ≡ ok outcome)
>>=-ok (err failure) next h = cc
>>=-ok (ok value) next h = (value, refl, h)

pub eq_of_ok {ℓ} : {A : Type ℓ} {a b : A} → ok a ≡ ok b → a ≡ b
eq_of_ok e = cc
