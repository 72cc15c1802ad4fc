-- ===== src/Go/Strconv.antt =====
-- Package strconv: decimal numbers to and from texts.
use Prim.Native.Char.{code}
use Prim.Native.String
use linkspan.Base.{
  ℕ, zero, suc, ◌+◌, ◌-◌, ◌*◌, ◌/◌, ◌%◌, String, Bool, ◌&&◌, Option, none, some, ltb, leb, ◌==◌,
  nat_eq, if◌then◌else◌,
}
use linkspan.Base.Int.{ℤ, pos, negsuc}

-- The value of a run of digits behind those read; `none` at any other character.
unfoldable pub digits : ℕ → String → Option ℕ
digits n String.[] = some n
digits n (String.◌∷◌ c s) =
    let rest = digits (n * 10 + (code c - 48)) s in
    if leb 48 (code c) && leb (code c) 57 then rest else none

-- One digit at least.
unfoldable pub number : String → Option ℕ
unfolding digits
number String.[] = none
number s = digits 0 s

abbrev pub max_int64 : ℕ
max_int64 = 9223372036854775807

-- -n
abbrev pub negate : ℕ → ℤ
negate zero = pos 0
negate (suc n) = negsuc n

unfoldable pub clamp_pos : Option ℕ → ℤ × Bool
clamp_pos none = (pos 0, Bool.false)
clamp_pos (some n) = if leb n max_int64 then (pos n, Bool.true) else (pos max_int64, Bool.false)

unfoldable pub clamp_neg : Option ℕ → ℤ × Bool
clamp_neg none = (pos 0, Bool.false)
clamp_neg (some n) =
    if leb n (max_int64 + 1) then (negate n, Bool.true) else (negsuc max_int64, Bool.false)

-- ParseInt(s, 10, 64), and Atoi where int has 64 bits: the value, and whether err is nil. A number
-- out of range gives the nearest in range, with the error.
unfoldable pub parse_int : String → ℤ × Bool
unfolding number clamp_pos clamp_neg
parse_int String.[] = (pos 0, Bool.false)
parse_int (String.◌∷◌ c s) =
    if code c == 45
    then clamp_neg (number s)
    else if code c == 43
    then clamp_pos (number s)
    else clamp_pos (number (String.◌∷◌ c s))

-- n, _ := strconv.Atoi(s)
unfoldable pub atoi : String → ℤ
unfolding parse_int
atoi s = (parse_int s).0

unfoldable pub digit : ℕ → String
digit d =
    if d == 0
    then "0"
    else if d == 1
    then "1"
    else if d == 2
    then "2"
    else if d == 3
    then "3"
    else if d == 4
    then "4"
    else if d == 5
    then "5"
    else if d == 6
    then "6"
    else if d == 7
    then "7"
    else if d == 8
    then "8"
    else "9"

-- The decimal digits, the last first taken; fuel n + 1 is enough, since n / 10 < n.
unfoldable pub itoa_fuel : ℕ → ℕ → String
unfolding digit
itoa_fuel zero n = ""
itoa_fuel (suc f) n =
    let rest = itoa_fuel f (n / 10) in
    if ltb n 10 then digit n else String.◌++◌ rest (digit (n % 10))

-- strconv.Itoa of a number that is not negative
unfoldable pub itoa : ℕ → String
unfolding itoa_fuel
itoa n = itoa_fuel (n + 1) n

-- %d of an int
unfoldable pub format_int : ℤ → String
unfolding itoa
format_int (pos n) = itoa n
format_int (negsuc n) = String.◌∷◌ "-" (itoa (suc n))
