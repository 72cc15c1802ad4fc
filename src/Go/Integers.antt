-- ===== src/Go/Integers.antt =====
-- Package strconv: ParseInt(s, 0, 64) and ParseBool, as the flags of package flag call them.
use Prim.Native.Char.{Char, code}
use linkspan.Base.{
  ℕ, ◌+◌, ◌-◌, ◌*◌, String, Bool, true, false, ◌&&◌, ◌||◌, not, Option, none, some, leb, ltb, ◌==◌,
  nat_eq, string_eq, if◌then◌else◌,
}
use linkspan.Base.Int.{ℤ, pos}
use linkspan.Go.Strings.{contains_char}
use linkspan.Go.Strconv.{max_int64, negate}

-- lower(c), the letters' bit
abbrev pub is_letter : ℕ → Char → Bool
is_letter l c = code c == l || code c + 32 == l

abbrev pub is_prefix : Char → Bool
unfolding is_letter
is_prefix c = is_letter 98 c || (is_letter 111 c || is_letter 120 c)

-- The value of a digit in any base, 36 for what is none.
unfoldable pub digit_value : Char → ℕ
digit_value c =
    if leb 48 (code c) && leb (code c) 57
    then code c - 48
    else if leb 97 (code c) && leb (code c) 122
    then code c - 87
    else if leb 65 (code c) && leb (code c) 90
    then code c - 55
    else 36

-- The loop of ParseUint with base 0, where an underscore is passed over.
unfoldable pub digits_in : ℕ → ℕ → String → Option ℕ
unfolding digit_value
digits_in base n String.[] = some n
digits_in base n (String.◌∷◌ c s) =
    let here = digits_in base (n * base + digit_value c) s in
    let behind = digits_in base n s in
    if code c == 95 then behind else if ltb (digit_value c) base then here else none

-- What underscoreOK keeps of the character before: a digit or a base prefix, an underscore, or
-- anything else.
pub data Before : Type 0 where
  a_digit : Before
  underscore : Before
  other : Before

abbrev pub is_digit_of : Bool → Char → Bool
is_digit_of hex c =
    (leb 48 (code c) && leb (code c) 57)
    || (hex && ((leb 97 (code c) && leb (code c) 102) || (leb 65 (code c) && leb (code c) 70)))

unfoldable pub underscores_from : Bool → Before → String → Bool
unfolding is_digit_of
underscores_from hex underscore String.[] = false
underscores_from hex _ String.[] = true
underscores_from hex before (String.◌∷◌ c s) =
    let digit = underscores_from hex a_digit s in
    let between = underscores_from hex underscore s in
    let apart = underscores_from hex other s in
    if is_digit_of hex c
    then digit
    else if code c == 95
    then elim before [ a_digit ↦ between | _ ↦ false ]
    else elim before [ underscore ↦ false | _ ↦ apart ]

-- underscoreOK, of a text without a sign
unfoldable pub underscores_fit : String → Bool
unfolding is_prefix underscores_from
underscores_fit (String.◌∷◌ z (String.◌∷◌ c s)) =
    let all = underscores_from false other (String.◌∷◌ z (String.◌∷◌ c s)) in
    let behind = underscores_from (is_letter 120 c) a_digit s in
    if code z == 48 && is_prefix c then behind else all
underscores_fit s = underscores_from false other s

-- The base that the prefix tells, and the digits behind it.
abbrev pub base_behind : Char → Char → String → ℕ × String
unfolding is_letter
base_behind c d s =
    if is_letter 98 c
    then (2, String.◌∷◌ d s)
    else if is_letter 111 c
    then (8, String.◌∷◌ d s)
    else if is_letter 120 c
    then (16, String.◌∷◌ d s)
    else (8, String.◌∷◌ c (String.◌∷◌ d s))

unfoldable pub based : String → ℕ × String
unfolding base_behind
based (String.◌∷◌ z (String.◌∷◌ c (String.◌∷◌ d s))) =
    if code z == 48 then base_behind c d s else (10, String.◌∷◌ z (String.◌∷◌ c (String.◌∷◌ d s)))
based (String.◌∷◌ z s) = if code z == 48 then (8, s) else (10, String.◌∷◌ z s)
based String.[] = (10, "")

-- ParseUint(s, 0, 64), up to the range
unfoldable pub parse_uint : String → Option ℕ
unfolding based digits_in underscores_fit contains_char
parse_uint s =
    if s == "" || (contains_char 95 s && not (underscores_fit s))
    then none
    else digits_in (based s).0 0 (based s).1

abbrev pub in_range : ℕ → (ℕ → ℤ) → Option ℕ → Option ℤ
in_range most sign none = none
in_range most sign (some n) = if leb n most then some (sign n) else none

-- ParseInt(s, 0, 64): `none` is an error.
unfoldable pub parse_any : String → Option ℤ
unfolding parse_uint in_range
parse_any String.[] = none
parse_any (String.◌∷◌ c s) =
    if code c == 45
    then in_range (max_int64 + 1) negate (parse_uint s)
    else if code c == 43
    then in_range max_int64 pos (parse_uint s)
    else in_range max_int64 pos (parse_uint (String.◌∷◌ c s))

unfoldable pub parse_bool : String → Option Bool
parse_bool s =
    if s == "1" || s == "t" || s == "T" || s == "TRUE" || s == "true" || s == "True"
    then some true
    else if s == "0" || s == "f" || s == "F" || s == "FALSE" || s == "false" || s == "False"
    then some false
    else none
