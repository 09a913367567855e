-- ===== src/Strconv/Decimal.antt =====
-- The decimal texts of strconv.Atoi and strconv.Itoa.
use Prim.Native.Char.{code}
use Prim.Native.String.{[], ◌∷◌}
use mathlib.Core.Path.{subst}
use Prim.Native.Nat.{◌/◌, ◌%◌}
use r2_notify_server.Prelude.{
  ℕ, String, ◌≡◌, ◌≢◌, refl, sym, ◌∙◌, ap, zero, suc, ◌+◌, ◌<◌, Bool, true, false, Option, none,
  some, leb, Bool-cases, inl, inr, arith,
}
use r2_notify_server.Strconv.{
  ℤ, pos, negsuc, IsInt64, is_digit, digits_value, magnitude, in_range, atoi, digit_char,
  digits_before, decimal, itoa,
}

in_range-IsInt64 : (minus : Bool) (m : Option ℕ) (i : ℤ) → in_range minus m ≡ some i → IsInt64 i
in_range-IsInt64 minus none i h = cc
in_range-IsInt64 false (some n) (pos k) h = ground arith
in_range-IsInt64 false (some n) (negsuc k) h = ground arith
in_range-IsInt64 true (some zero) (pos k) h = ground arith
in_range-IsInt64 true (some zero) (negsuc k) h = ground arith
in_range-IsInt64 true (some (suc n)) (pos k) h = ground arith
in_range-IsInt64 true (some (suc n)) (negsuc k) h = ground arith

-- A number that atoi gives is in the range of an int.
pub atoi-IsInt64 : (s : String) (i : ℤ) → atoi s ≡ some i → IsInt64 i
unfolding atoi
atoi-IsInt64 [] i h = cc
atoi-IsInt64 (c ∷ s) i h = ground (
  arith,
  in_range-IsInt64 true (magnitude s) i,
  in_range-IsInt64 false (magnitude s) i,
  in_range-IsInt64 false (magnitude (c ∷ s)) i,
)

digit_code : (d : ℕ) → d < 10 → code (digit_char d) ≡ b'0' + d
digit_code zero h = refl
digit_code (suc zero) h = refl
digit_code (suc (suc zero)) h = refl
digit_code (suc (suc (suc zero))) h = refl
digit_code (suc (suc (suc (suc zero)))) h = refl
digit_code (suc (suc (suc (suc (suc zero))))) h = refl
digit_code (suc (suc (suc (suc (suc (suc zero)))))) h = refl
digit_code (suc (suc (suc (suc (suc (suc (suc zero))))))) h = refl
digit_code (suc (suc (suc (suc (suc (suc (suc (suc zero)))))))) h = refl
digit_code (suc (suc (suc (suc (suc (suc (suc (suc (suc zero))))))))) h = refl
digit_code (suc (suc (suc (suc (suc (suc (suc (suc (suc (suc d)))))))))) h = absurd (omega arith)

last_digit :
    (n : ℕ) (out : String) → digits_value (digit_char (n % 10) ∷ out) (n / 10) ≡ digits_value out n
unfolding digits_value
last_digit n out = ground (arith, digit_code (n % 10))

-- The digits of `n` count as `n` in front of more digits, given enough rounds.
value_before :
    (rounds n : ℕ) (out : String)
    → n < rounds
    → digits_value (digits_before rounds n out) 0 ≡ digits_value out n
unfolding digits_before
value_before zero n out h = absurd (omega arith)
value_before (suc rounds) n out h = elim (Bool-cases (leb n 9)) [
  | inl small ↦
      let first : n / 10 ≡ 0 = ground arith in
      rw small (ap (digits_value (digit_char (n % 10) ∷ out)) (sym first) ∙ last_digit n out)
  | inr large ↦
      rw large
        (value_before rounds (n / 10) (digit_char (n % 10) ∷ out) (ground arith) ∙ last_digit n out)
]

-- A text that starts with a digit.
abbrev HasDigits : String → Type 0
HasDigits [] = ⊥
HasDigits (c ∷ s) = is_digit c ≡ true

is_digit-digit_char : (n : ℕ) → is_digit (digit_char (n % 10)) ≡ true
is_digit-digit_char n = ground (arith, digit_code (n % 10))

before_keeps :
    (rounds n : ℕ) (out : String) → HasDigits out → HasDigits (digits_before rounds n out)
unfolding digits_before
before_keeps zero n out h = h
before_keeps (suc rounds) n out h = elim (Bool-cases (leb n 9)) [
  | inl small ↦ rw small (is_digit-digit_char n)
  | inr large ↦
      rw large (before_keeps rounds (n / 10) (digit_char (n % 10) ∷ out) (is_digit-digit_char n))
]

decimal-HasDigits : (n : ℕ) → HasDigits (decimal n)
unfolding decimal digits_before
decimal-HasDigits n = elim (Bool-cases (leb n 9)) [
  | inl small ↦ rw small (is_digit-digit_char n)
  | inr large ↦
      rw large (before_keeps n (n / 10) (digit_char (n % 10) ∷ []) (is_digit-digit_char n))
]

magnitude_from : (s : String) → HasDigits s → magnitude s ≡ digits_value s 0
unfolding magnitude
magnitude_from [] h = absurd h
magnitude_from (c ∷ s) h = refl

decimal_value : (n : ℕ) → digits_value (decimal n) 0 ≡ some n
unfolding decimal digits_value
decimal_value n = value_before (suc n) n [] (omega arith)

magnitude-decimal : (n : ℕ) → magnitude (decimal n) ≡ some n
magnitude-decimal n = magnitude_from (decimal n) (decimal-HasDigits n) ∙ decimal_value n

unsigned : (s : String) → HasDigits s → atoi s ≡ in_range false (magnitude s)
unfolding atoi
unsigned [] h = absurd h
unsigned (c ∷ s) h = ground arith

-- Every int is read back from its print.
pub atoi-itoa : (i : ℤ) → IsInt64 i → atoi (itoa i) ≡ some i
unfolding itoa atoi
atoi-itoa (pos n) h =
    unsigned (decimal n) (decimal-HasDigits n)
    ∙ ap (in_range false) (magnitude-decimal n)
    ∙ ground arith
atoi-itoa (negsuc n) h = ap (in_range true) (magnitude-decimal (suc n)) ∙ ground arith

-- A print is never empty.
pub itoa-ne-empty : (i : ℤ) → itoa i ≢ ""
unfolding itoa
itoa-ne-empty (pos n) h = subst HasDigits h (decimal-HasDigits n)
itoa-ne-empty (negsuc n) h = cc
