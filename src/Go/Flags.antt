-- ===== src/Go/Flags.antt =====
-- Package flag: FlagSet.Parse where each flag holds a text.
use Prim.Native.Char.{code}
use linkspan.Base.{
  String, Bool, false, ◌||◌, Option, none, some, List, [], ◌∷◌, Map, insert, ◌==◌, nat_eq,
  string_eq, if◌then◌else◌,
}
use linkspan.Go.Strings.{cut}

-- What an argument is to parseOne.
pub data Argument : Type 0 where
  positional : Argument
  terminator : Argument
  malformed : Argument
  flag : String → Option String → Argument

-- The name and the value around the first "=".
unfoldable pub name_value : String → Option (String × String) → Argument
name_value s none = flag s none
name_value s (some (name, value)) = flag name (some value)

-- Behind the dashes.
unfoldable pub named : String → Argument
unfolding name_value cut
named String.[] = malformed
named (String.◌∷◌ c s) =
    if code c == 45 || code c == 61
    then malformed
    else name_value (String.◌∷◌ c s) (cut 61 (String.◌∷◌ c s))

unfoldable pub behind_dash : String → Argument
unfolding named
behind_dash String.[] = positional
behind_dash (String.◌∷◌ c s) =
    if code c == 45 then (if s == "" then terminator else named s) else named (String.◌∷◌ c s)

unfoldable pub argument : String → Argument
unfolding behind_dash
argument String.[] = positional
argument (String.◌∷◌ c s) = if code c == 45 then behind_dash s else positional

unfoldable pub mentions : String → List String → Bool
mentions s [] = false
mentions s (x ∷ xs) = x == s || mentions s xs

-- The value that the flags hold, and the arguments behind them; `none` is an error.
abbrev pub Parsed : Type 0
Parsed = Option (Map String × List String)

-- One flag without a value of its own takes the next argument.
unfoldable pub parse_flags : List String → List String → Map String → Parsed
unfolding argument mentions
parse_flags known [] held = some (held, [])
parse_flags known (a ∷ []) held = elim (argument a) [
  | positional ↦ some (held, a ∷ [])
  | terminator ↦ some (held, [])
  | malformed ↦ none
  | flag name none ↦ none
  | flag name (some value) ↦ if mentions name known then some (insert name value held, []) else none
]
parse_flags known (a ∷ b ∷ rest) held = elim (argument a) [
  | positional ↦ some (held, a ∷ b ∷ rest)
  | terminator ↦ some (held, b ∷ rest)
  | malformed ↦ none
  | flag name none ↦
      if mentions name known then parse_flags known rest (insert name b held) else none
  | flag name (some value) ↦
      if mentions name known then parse_flags known (b ∷ rest) (insert name value held) else none
]
