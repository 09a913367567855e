-- ===== src/Strconv.antt =====
-- The functions of Go's `strconv` package that the program calls, and the 64-bit `int` that they
-- read and write. `none` is an error: the callers look at nothing else of it.
pub mod Decimal
use Prim.Native.Char.{Char, code}
use Prim.Native.String.{[], ◌∷◌}
use Prim.Native.Nat.{◌*◌, ◌/◌, ◌%◌, ◌^◌}
use r2_notify_server.Prelude.{
  ℕ, String, ◌≡◌, refl, zero, suc, ◌+◌, ◌-◌, ◌<◌, Bool, true, false, ◌&&◌, ◌||◌, Option, none, some,
  ◌==◌, leb, eqb, if◌then◌else◌,
}

-- `negsuc n` is -(n + 1).
pub data ℤ : Type 0 where
  pos : ℕ → ℤ
  negsuc : ℕ → ℤ

abbrev pub IsInt64 : ℤ → Type 0
IsInt64 (pos n) = n < 2 ^ 63
IsInt64 (negsuc n) = n < 2 ^ 63

abbrev pub is_digit : Char → Bool
is_digit c = leb b'0' (code c) && leb (code c) b'9'

-- The number that a text of digits writes behind `n`.
unfoldable pub digits_value : String → ℕ → Option ℕ
digits_value [] n = some n
digits_value (c ∷ s) n =
    let rest = digits_value s (n * 10 + (code c - b'0')) in if is_digit c then rest else none

unfoldable pub magnitude : String → Option ℕ
unfolding digits_value
magnitude [] = none
magnitude (c ∷ s) = digits_value (c ∷ s) 0

abbrev pub negated : ℕ → ℤ
negated zero = pos zero
negated (suc n) = negsuc n

-- A value out of range is an error.
abbrev pub in_range : Bool → Option ℕ → Option ℤ
in_range minus none = none
in_range false (some n) = if leb n (2 ^ 63 - 1) then some (pos n) else none
in_range true (some n) = if leb n (2 ^ 63) then some (negated n) else none

-- strconv.Atoi
unfoldable pub atoi : String → Option ℤ
unfolding magnitude
atoi [] = none
atoi (c ∷ s) =
    if eqb (code c) b'-'
    then in_range true (magnitude s)
    else if eqb (code c) b'+'
    then in_range false (magnitude s)
    else in_range false (magnitude (c ∷ s))

abbrev pub char_at : ℕ → String → Char
char_at n [] = "9"
char_at zero (c ∷ s) = c
char_at (suc n) (c ∷ s) = char_at n s

abbrev pub digit_char : ℕ → Char
digit_char d = char_at d "0123456789"

-- The digits of `n` in front of a text; as many rounds as `n` are more than enough.
unfoldable pub digits_before : ℕ → ℕ → String → String
digits_before zero n out = out
digits_before (suc rounds) n out =
    let out' = digit_char (n % 10) ∷ out in
    let longer = digits_before rounds (n / 10) out' in if leb n 9 then out' else longer

unfoldable pub decimal : ℕ → String
unfolding digits_before
decimal n = digits_before (suc n) n []

-- strconv.Itoa, and the verb %d
unfoldable pub itoa : ℤ → String
unfolding decimal
itoa (pos n) = decimal n
itoa (negsuc n) = "-" ∷ decimal (suc n)

-- strconv.ParseBool
unfoldable pub parse_bool : String → Option Bool
parse_bool s =
    if s == "1" || s == "t" || s == "T" || s == "true" || s == "TRUE" || s == "True"
    then some true
    else if s == "0" || s == "f" || s == "F" || s == "false" || s == "FALSE" || s == "False"
    then some false
    else none

-- The verb %t
abbrev pub format_bool : Bool → String
format_bool true = "true"
format_bool false = "false"

-- The ends of the range, and the first numbers outside.
smallest : atoi "-9223372036854775808" ≡ some (negsuc (2 ^ 63 - 1))
unfolding atoi
smallest = refl

too_small : atoi "-9223372036854775809" ≡ none
unfolding atoi
too_small = refl

too_large : atoi "9223372036854775808" ≡ none
unfolding atoi
too_large = refl

not_decimal : (atoi "10 MB" ≡ none) × (atoi "" ≡ none) × (atoi "+" ≡ none)
unfolding atoi
not_decimal = (refl, refl, refl)

printed : itoa (negsuc 26) ≡ "-27"
unfolding itoa
printed = refl
