-- ===== src/Go/Matching.antt =====
-- Package net/http: whether one pattern of ServeMux matches a path.
use linkspan.Base.{
  String, ◌≡◌, refl, Bool, true, false, Option, none, some, List, [], ◌∷◌, ◌==◌, string_eq,
  if◌then◌else◌,
}
use linkspan.Go.Mux.{Segment, literal, wildcard}

abbrev pub with_value : String → Option (List String) → Option (List String)
with_value s none = none
with_value s (some values) = some (s ∷ values)

-- Whether one pattern matches a path, and the values of its wildcards.
unfoldable pub matches : List Segment → Bool → List String → Option (List String)
matches [] false [] = some []
matches [] true [] = none
matches [] true (s ∷ path) = some []
matches [] false (s ∷ path) = none
matches (literal l ∷ more) subtree [] = none
matches (wildcard name ∷ more) subtree [] = none
matches (literal l ∷ more) subtree (s ∷ path) =
    let rest = matches more subtree path in if l == s then rest else none
matches (wildcard name ∷ more) subtree (s ∷ path) =
    let rest = with_value s (matches more subtree path) in if s == "" then none else rest

pub with_value-some :
    (s : String) (o : Option (List String)) (us : List String)
    → with_value s o ≡ some us
    → (vs : List String) × (o ≡ some vs)
with_value-some s none us e = absurd (cc e)
with_value-some s (some vs) us e = (vs, refl)
