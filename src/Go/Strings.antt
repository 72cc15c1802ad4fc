-- ===== src/Go/Strings.antt =====
-- Package strings: cutting, trimming and splitting texts, by characters.
use Prim.Native.Char.{Char, code}
use Prim.Native.String
use linkspan.Base.{
  ℕ, String, Bool, false, ◌||◌, Option, none, some, List, [], ◌∷◌, ◌==◌, nat_eq, string_eq,
  if◌then◌else◌, keep, not,
}

-- unicode.IsSpace on ASCII: tab, newline, vertical tab, form feed, carriage return, space.
unfoldable pub is_space : Char → Bool
is_space c =
    code c == 32 || code c == 9 || code c == 10 || code c == 11 || code c == 12 || code c == 13

unfoldable pub contains_char : ℕ → String → Bool
contains_char k String.[] = false
contains_char k (String.◌∷◌ c s) = code c == k || contains_char k s

-- strings.Cut at a separator of one character.
unfoldable pub cut : ℕ → String → Option (String × String)
cut k String.[] = none
cut k (String.◌∷◌ c s) =
    let rest = cut k s in
    if code c == k
    then some ("", s)
    else elim rest [ none ↦ none | some (a, b) ↦ some (String.◌∷◌ c a, b) ]

-- The text before and after the last occurrence of a character.
unfoldable pub cut_last : ℕ → String → Option (String × String)
cut_last k String.[] = none
cut_last k (String.◌∷◌ c s) = elim (cut_last k s) [
  | some (a, b) ↦ some (String.◌∷◌ c a, b)
  | none ↦ if code c == k then some ("", s) else none
]

-- strings.Split at a separator of one character.
unfoldable pub split : ℕ → String → List String
split k String.[] = "" ∷ []
split k (String.◌∷◌ c s) =
    let rest = split k s in
    if code c == k
    then "" ∷ rest
    else elim rest [ [] ↦ String.◌∷◌ c "" ∷ [] | w ∷ ws ↦ String.◌∷◌ c w ∷ ws ]

-- The words of a text, the first perhaps empty if the text begins with a space.
unfoldable pub words : String → List String
words String.[] = "" ∷ []
words (String.◌∷◌ c s) =
    let rest = words s in
    if is_space c
    then "" ∷ rest
    else elim rest [ [] ↦ String.◌∷◌ c "" ∷ [] | w ∷ ws ↦ String.◌∷◌ c w ∷ ws ]

-- strings.Fields: the maximal runs of characters that are no spaces.
unfoldable pub fields : String → List String
unfolding words is_space
fields s = keep (λ w. not (w == "")) (words s)

unfoldable pub trim_left : String → String
unfolding is_space
trim_left String.[] = ""
trim_left (String.◌∷◌ c s) = let rest = trim_left s in if is_space c then rest else String.◌∷◌ c s

unfoldable pub trim_right : String → String
unfolding is_space
trim_right String.[] = ""
trim_right (String.◌∷◌ c s) =
    let rest = trim_right s in
    if rest == "" then (if is_space c then "" else String.◌∷◌ c "") else String.◌∷◌ c rest

-- strings.TrimSpace
unfoldable pub trim_space : String → String
unfolding trim_left trim_right
trim_space s = trim_right (trim_left s)

-- strings.CutPrefix
unfoldable pub cut_prefix : String → String → Option String
cut_prefix String.[] s = some s
cut_prefix (String.◌∷◌ p ps) String.[] = none
cut_prefix (String.◌∷◌ p ps) (String.◌∷◌ c s) =
    let rest = cut_prefix ps s in if code p == code c then rest else none

-- strings.TrimPrefix
unfoldable pub trim_prefix : String → String → String
unfolding cut_prefix
trim_prefix p s = elim (cut_prefix p s) [ none ↦ s | some r ↦ r ]

-- strings.Cut at a separator of any length, and bytes before its first occurrence.
unfoldable pub cut_text : String → String → Option (String × String)
unfolding cut_prefix
cut_text sep String.[] = elim (cut_prefix sep "") [ none ↦ none | some r ↦ some ("", r) ]
cut_text sep (String.◌∷◌ c s) =
    let rest = cut_text sep s in
    elim (cut_prefix sep (String.◌∷◌ c s)) [
      | some r ↦ some ("", r)
      | none ↦ elim rest [ none ↦ none | some (a, b) ↦ some (String.◌∷◌ c a, b) ]
    ]

-- strings.Replace, once
unfoldable pub replace_once : String → String → String → String
unfolding cut_text
replace_once old new s = elim (cut_text old s) [
  | none ↦ s
  | some (a, b) ↦ String.◌++◌ a (String.◌++◌ new b)
]

-- filepath.Base and filepath.Dir of a clean path
unfoldable pub base_of : String → String
unfolding cut_last
base_of path = elim (cut_last 47 path) [ none ↦ path | some (a, b) ↦ b ]

unfoldable pub dir_of : String → String
unfolding cut_last
dir_of path = elim (cut_last 47 path) [ none ↦ "." | some (a, b) ↦ if a == "" then "/" else a ]
