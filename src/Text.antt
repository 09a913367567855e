-- ===== src/Text.antt =====
-- The functions of Go's `strings` package that the program calls, over the code points of a text.
use Prim.Native.Char.{Char, code}
use Prim.Native.String.{[], ◌∷◌}
use Prim.Native.String
use r2_notify_server.Prelude.{
  String, ◌≡◌, refl, Bool, ◌&&◌, ◌||◌, List, Option, none, some, leb, eqb, if◌then◌else◌,
}

-- unicode.IsSpace
abbrev pub is_space : Char → Bool
is_space ch =
    let c = code ch in
    (leb 9 c && leb c 13)
    || eqb c 32
    || eqb c 0x85
    || eqb c 0xA0
    || eqb c 0x1680
    || (leb 0x2000 c && leb c 0x200A)
    || eqb c 0x2028
    || eqb c 0x2029
    || eqb c 0x202F
    || eqb c 0x205F
    || eqb c 0x3000

-- The cut set of the source: a double or a single quote.
abbrev pub is_quote : Char → Bool
is_quote ch = eqb (code ch) 34 || eqb (code ch) 39

unfoldable pub trim_left : (Char → Bool) → String → String
trim_left cut [] = []
trim_left cut (c ∷ s) = if cut c then trim_left cut s else c ∷ s

abbrev pub put_front : (Char → Bool) → Char → String → String
put_front cut c [] = if cut c then [] else c ∷ []
put_front cut c (d ∷ s) = c ∷ d ∷ s

unfoldable pub trim_right : (Char → Bool) → String → String
trim_right cut [] = []
trim_right cut (c ∷ s) = put_front cut c (trim_right cut s)

unfoldable pub trim : (Char → Bool) → String → String
unfolding trim_left trim_right
trim cut s = trim_right cut (trim_left cut s)

-- strings.TrimSpace(s), strings.Trim(s, `"'`)
unfoldable pub trim_space : String → String
unfolding trim
trim_space s = trim is_space s

unfoldable pub trim_quotes : String → String
unfolding trim
trim_quotes s = trim is_quote s

-- strings.Split(s, ",")
split_from : String → String → List String
split_from cur [] = List.◌∷◌ cur List.[]
split_from cur (c ∷ s) =
    let closed = List.◌∷◌ cur (split_from [] s) in
    let longer = split_from (String.◌++◌ cur (c ∷ [])) s in
    if eqb (code c) b',' then closed else longer

unfoldable pub split_comma : String → List String
unfolding split_from
split_comma s = split_from [] s

-- strings.HasPrefix and strings.TrimPrefix in one: the text behind the prefix, if it has it.
unfoldable pub strip_prefix : String → String → Option String
strip_prefix [] s = some s
strip_prefix (p ∷ ps) [] = none
strip_prefix (p ∷ ps) (c ∷ s) = if eqb (code p) (code c) then strip_prefix ps s else none

trim_both : trim_quotes (trim_space "  \"app\" ") ≡ "app"
unfolding trim_quotes trim_space
trim_both = refl

split_two : split_comma "a, b" ≡ List.◌∷◌ "a" (List.◌∷◌ " b" List.[])
unfolding split_comma
split_two = refl
