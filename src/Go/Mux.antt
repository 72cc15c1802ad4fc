-- ===== src/Go/Mux.antt =====
-- Package net/http: ServeMux on patterns without a host, and paths that are clean.
use linkspan.Base.{
  String, Bool, true, false, Option, none, some, List, [], ◌∷◌, ◌++◌, Map, ◌==◌, string_eq,
  if◌then◌else◌,
}
use linkspan.Go.Strings.{cut, split}

-- A segment of a pattern; a wildcard, {name}, stands for one segment of the path that is not empty.
pub data Segment : Type 0 where
  literal : String → Segment
  wildcard : String → Segment

-- The segments of a pattern, and whether it ends in "/", for every path below.
pub record Pattern : Type 0 where
  pub method : String
  pub segments : List Segment
  pub subtree : Bool

abbrev pub closed : String → Option (String × String) → Segment
closed s none = literal s
closed s (some (name, rest)) = wildcard name

abbrev pub opened : String → Option (String × String) → Segment
unfolding cut
opened s none = literal s
opened s (some (before, rest)) = closed s (cut 125 rest)

unfoldable pub segment_of : String → Segment
unfolding opened cut
segment_of s = opened s (cut 123 s)

abbrev pub segments_of : List String → List Segment × Bool
unfolding segment_of
segments_of [] = ([], false)
segments_of (String.[] ∷ []) = ([], true)
segments_of (s ∷ rest) = let (more, subtree) = segments_of rest in (segment_of s ∷ more, subtree)

-- What stands behind the first slash.
abbrev pub below : List String → List String
below [] = []
below (first ∷ rest) = rest

abbrev pub located : String → List Segment × Bool → Pattern
located method (segments, subtree) = record {
  method = method;
  segments = segments;
  subtree = subtree;
}

abbrev pub with_method : String → Option (String × String) → Pattern
unfolding segments_of split
with_method s none = located "" (segments_of (below (split 47 s)))
with_method s (some (method, path)) = located method (segments_of (below (split 47 path)))

-- parsePattern
unfoldable pub pattern_of : String → Pattern
unfolding with_method cut
pattern_of s = with_method s (cut 32 s)

-- The segments of a path; the empty one at the end is a slash.
unfoldable pub path_of : String → List String
unfolding split
path_of s = below (split 47 s)

-- What a pattern still asks of a path, whether it ends in "/", and its handler.
abbrev pub Entry : Type 0 → Type 0
Entry B = List Segment × Bool × B

abbrev pub or_else : {B : Type 0} → Option B → Option B → Option B
or_else none later = later
or_else (some b) later = some b

module _ {B : Type 0} where
  -- The entries whose next segment is a literal, or a wildcard.
  unfoldable pub under_literal : String → List (Entry B) → List (Entry B)
  under_literal s [] = []
  under_literal s (([], subtree, b) ∷ es) = under_literal s es
  under_literal s ((literal l ∷ more, subtree, b) ∷ es) =
      let rest = under_literal s es in if l == s then (more, subtree, b) ∷ rest else rest
  under_literal s ((wildcard name ∷ more, subtree, b) ∷ es) = under_literal s es

  unfoldable pub under_wildcard : List (Entry B) → List (Entry B)
  under_wildcard [] = []
  under_wildcard (([], subtree, b) ∷ es) = under_wildcard es
  under_wildcard ((literal l ∷ more, subtree, b) ∷ es) = under_wildcard es
  under_wildcard ((wildcard name ∷ more, subtree, b) ∷ es) = (more, subtree, b) ∷ under_wildcard es

  -- The entry that ends here: of the whole path, or of all below.
  unfoldable pub ending : Bool → List (Entry B) → Option B
  ending subtree [] = none
  ending true (([], true, b) ∷ es) = some b
  ending true (([], false, b) ∷ es) = ending true es
  ending false (([], true, b) ∷ es) = ending false es
  ending false (([], false, b) ∷ es) = some b
  ending subtree ((next ∷ more, t, b) ∷ es) = ending subtree es

  abbrev pub with_values : List String → Option B → Option (B × List String)
  with_values values none = none
  with_values values (some b) = some (b, values)

  -- matchPath of the routing tree, which stands for the entries that agree with the path so far: a
  -- literal before a wildcard before all below.
  unfoldable pub match_path : List (Entry B) → List String → List String → Option (B × List String)
  unfolding under_literal under_wildcard ending
  match_path es values [] = with_values values (ending false es)
  match_path es values (s ∷ path) =
      let by_literal = match_path (under_literal s es) values path in
      let by_wildcard = match_path (under_wildcard es) (values ++ (s ∷ [])) path in
      or_else by_literal
        (or_else (if s == "" then none else by_wildcard) (with_values values (ending true es)))

-- What ServeMux makes of a request: the pattern and the handler that it finds, with the values of the
-- wildcards; 405 with the methods that the path has; or 404.
pub data Routed (A : Type 0) : Type 0 where
  routed : Pattern → A → List String → Routed A
  not_allowed : List String → Routed A
  not_found : Routed A

-- r.PathValue
unfoldable pub path_value : String → List Segment → List String → String
path_value name [] values = ""
path_value name (segment ∷ more) [] = ""
path_value name (literal l ∷ more) (v ∷ values) = path_value name more (v ∷ values)
path_value name (wildcard n ∷ more) (v ∷ values) =
    let rest = path_value name more values in if n == name then v else rest

module _ {A : Type 0} where
  abbrev pub entry_of : Pattern → A → Entry (Pattern × A)
  entry_of p a = (p.segments, p.subtree, (p, a))

  -- The part of the tree below a method.
  unfoldable pub entries_of : String → Map A → List (Entry (Pattern × A))
  unfolding pattern_of
  entries_of method [] = []
  entries_of method ((text, a) ∷ more) =
      let rest = entries_of method more in
      if (pattern_of text).method == method then entry_of (pattern_of text) a ∷ rest else rest

  abbrev pub found_in : Map A → String → List String → Option ((Pattern × A) × List String)
  found_in table method path = match_path (entries_of method table) [] path

  -- matchMethodAndPath
  unfoldable pub match_method : Map A → String → List String → Option ((Pattern × A) × List String)
  unfolding entries_of match_path
  match_method table method path = or_else (found_in table method path) (
      or_else (if method == "HEAD" then found_in table "GET" path else none)
        (found_in table "" path))

  -- matchingMethods
  unfoldable pub matching_methods : Map A → Map A → List String → List String
  unfolding entries_of match_path pattern_of
  matching_methods table [] path = []
  matching_methods table ((text, a) ∷ more) path =
      let rest = matching_methods table more path in
      elim (found_in table (pattern_of text).method path) [
        | none ↦ rest
        | some hit ↦ (pattern_of text).method ∷ rest
      ]

  abbrev pub refused_by : List String → Routed A
  refused_by [] = not_found
  refused_by (m ∷ ms) = not_allowed (m ∷ ms)

  abbrev pub routed_by : Option ((Pattern × A) × List String) → List String → Routed A
  routed_by none methods = refused_by methods
  routed_by (some ((p, a), values)) methods = routed p a values

  -- findHandler: the methods of the answer 405 are those of the patterns, in the table's order, each as
  -- often as it is found; the header holds them once, sorted, and HEAD with GET.
  unfoldable pub find_handler : Map A → String → List String → Routed A
  unfolding match_method matching_methods
  find_handler table method path =
      routed_by (match_method table method path) (matching_methods table table path)
