-- ===== src/Router/Table.antt =====
-- The route table: every route is found behind its prefix, and mounting keeps the table of the root.
use Prim.Native.Char.{Char, code}
use text.Mathlib.TextEquality.{Char-path}
use Prim.Native.String
use Prim.Native.String.append
use linkspan.Base.{
  String, ◌≡◌, refl, sym, ap, ◌∙◌, ◌≢◌, inl, inr, true, false, Option, none, some, [], ◌∷◌, Map,
  lookup, lookup-insert_self, lookup-insert_ne, arith, All, eq_iff, ◌==◌, nat_eq, string_eq,
  Bool-cases, Option-cases,
}
use linkspan.Go.Strings.{cut}
use linkspan.Router.Defs.{Action, Router, method_path, behind, add_routes, add, mount}
use text.Mathlib.TextLemmas.{append_cancel_left}

-- A pattern with a method.
abbrev pub HasMethod : String → Type 0
HasMethod pattern = cut 32 pattern ≢ none

-- m, a space, and q
abbrev spaced : String → String → String
spaced m q = String.◌++◌ m (String.◌++◌ " " q)

cut-spaced : (m q : String) → cut 32 m ≡ none → cut 32 (spaced m q) ≡ some (m, q)
unfolding cut
cut-spaced String.[] q e = rw (append.nil (String.◌++◌ " " q), append.cons " " "" q, append.nil q)
cut-spaced (String.◌∷◌ c m) q e =
    rw (append.cons c m (String.◌++◌ " " q)) (ground (arith, cut-spaced m q))

space_head : (c : Char) (s : String) → code c ≡ 32 → String.◌∷◌ c s ≡ spaced "" s
space_head c s e =
    rw (append.nil (String.◌++◌ " " s), append.cons " " "" s, append.nil s)
      (ap (λ d. String.◌∷◌ d s) (Char-path c " " e))

cons_spaced : (c : Char) (a b : String) → String.◌∷◌ c (spaced a b) ≡ spaced (String.◌∷◌ c a) b
cons_spaced c a b = sym (append.cons c a (String.◌++◌ " " b))

cut_here :
    (c : Char) (s : String) {a b : String}
    → ((code c == 32) ≡ true)
    → cut 32 (String.◌∷◌ c s) ≡ some (a, b)
    → (a ≡ "") × (b ≡ s)
unfolding cut
cut_here c s {a} {b} here e = ground arith

-- What one more character, no separator, makes of a cut.
cut_later :
    (c : Char) (s : String) (parts : Option (String × String)) {a b : String}
    → ((code c == 32) ≡ false)
    → cut 32 s ≡ parts
    → cut 32 (String.◌∷◌ c s) ≡ some (a, b)
    → (a' : String) × (parts ≡ some (a', b)) × (a ≡ String.◌∷◌ c a')
unfolding cut
cut_later c s none {a} {b} n q e = ground arith
cut_later c s (some (a', b')) {a} {b} n q e = (a', ground arith, ground arith)

-- A cut gives back the text, and the first part holds no further space.
cut-join : (s a b : String) → cut 32 s ≡ some (a, b) → (cut 32 a ≡ none) × (s ≡ spaced a b)
unfolding cut
cut-join String.[] a b e = cc
cut-join (String.◌∷◌ c s) a b e = elim (Bool-cases (code c == 32)) [
  | inl here ↦
      let h = space_head c s (ground (arith, here)) in
      let (empty, rest) = cut_here c s here e in (ap (cut 32) empty, rw (empty, rest) h)
  | inr later ↦
      let (a', q, is_a) = cut_later c s (cut 32 s) later refl e in
      let ih = cut-join s a' b q in
      (ground (arith, is_a, ih, later), rw is_a (ap (String.◌∷◌ c) ih.1 ∙ cons_spaced c a' b))
]

-- The parts of a pattern that has a method.
record Parts (pattern : String) : Type 0 where
  method : String
  path : String
  no_space : cut 32 method ≡ none
  whole : pattern ≡ spaced method path
  moved : (prefix : String) → behind prefix pattern ≡ spaced method (String.◌++◌ prefix path)

method_path-cut :
    (pattern m q : String) → cut 32 pattern ≡ some (m, q) → method_path pattern ≡ (m, q)
unfolding method_path
method_path-cut pattern m q e = ground (arith, e)

parts : (pattern : String) → HasMethod pattern → Parts pattern
unfolding behind
parts pattern h = elim (Option-cases (cut 32 pattern)) [
  | inl e ↦ absurd (h e)
  | inr ((m, q), e) ↦
      let j = cut-join pattern m q e in
      record {
        method = m;
        path = q;
        no_space = j.0;
        whole = j.1;
        moved = λ prefix. rw (behind, method_path-cut pattern m q e);
      }
]

-- Distinct patterns stay distinct behind a prefix.
pub behind-injective :
    (prefix a b : String) → HasMethod a → HasMethod b → behind prefix a ≡ behind prefix b → a ≡ b
behind-injective prefix a b ha hb e =
    let x = parts a ha in
    let y = parts b hb in
    let same =
      sym (cut-spaced x.method (String.◌++◌ prefix x.path) x.no_space)
      ∙ ap (cut 32) (sym (x.moved prefix) ∙ e ∙ y.moved prefix)
      ∙ cut-spaced y.method (String.◌++◌ prefix y.path) y.no_space in
    let methods : x.method ≡ y.method = cc in
    let paths : x.path ≡ y.path = append_cancel_left prefix x.path y.path (cc) in
    x.whole ∙ rw (methods, paths) (sym y.whole)

-- The patterns of a table, no two alike, each with a method: what a Go map of routes holds.
abbrev pub IsTable : {S : Type 0} → Map (Action S) → Type 0
IsTable [] = Unit
IsTable ((pattern, c) ∷ routes) =
    HasMethod pattern × (lookup pattern routes ≡ none) × IsTable routes

module _ {S : Type 0} (prefix : String) where
  add_routes-others :
      (j : String) (routes table : Map (Action S))
      → All (λ r. behind prefix r.0 ≢ j) routes
      → lookup j (add_routes prefix routes table) ≡ lookup j table
  unfolding add_routes
  add_routes-others j [] table a = refl
  add_routes-others j ((pattern, c) ∷ routes) table a =
      add_routes-others j routes _ a.1 ∙ lookup-insert_ne (behind prefix pattern) j c table a.0

  -- A pattern that a table lacks stays behind none of it.
  apart :
      (pattern : String) (routes : Map (Action S))
      → HasMethod pattern
      → IsTable routes
      → lookup pattern routes ≡ none
      → All (λ r. behind prefix r.0 ≢ behind prefix pattern) routes
  unfolding lookup
  apart pattern [] h t e = tt
  apart pattern ((k, c) ∷ routes) h t e = (
    (λ same. ground (arith, behind-injective prefix k pattern t.0 h same, eq_iff k pattern)),
    apart pattern routes h t.2 (ground arith),
  )

  add_routes-found :
      (pattern : String) (c : Action S) (routes table : Map (Action S))
      → IsTable routes
      → lookup pattern routes ≡ some c
      → lookup (behind prefix pattern) (add_routes prefix routes table) ≡ some c
  unfolding lookup add_routes
  add_routes-found pattern c [] table t e = cc
  add_routes-found pattern c ((k, d) ∷ routes) table t e = elim (Bool-cases (k == pattern)) [
    | inl here ↦
        let same : k ≡ pattern = (eq_iff k pattern).0 here in
        let value : d ≡ c = ground (arith, here) in
        rw (← same, ← value)
          (add_routes-others (behind prefix k) routes _ (apart k routes t.0 t.2 t.1)
            ∙ lookup-insert_self (behind prefix k) d table)
    | inr there ↦ add_routes-found pattern c routes _ t.2 (ground arith)
  ]

-- Mounting a child whose table holds patterns with a method, no two alike: a route of the child is found
-- behind the root's prefix, with the child's action.
pub mount-found :
    {S : Type 0} (r child : Router S) (pattern : String) (c : Action S)
    → IsTable child.routes
    → lookup pattern child.routes ≡ some c
    → lookup (behind r.prefix pattern) (mount r child).routes ≡ some c
unfolding mount add
mount-found r child pattern c t e = add_routes-found r.prefix pattern c child.routes r.routes t e

-- Mounting a child leaves a route of the root, or the lack of one, that no pattern of the child comes to.
pub mount-others :
    {S : Type 0} (r child : Router S) (j : String)
    → All (λ e. behind r.prefix e.0 ≢ j) child.routes
    → lookup j (mount r child).routes ≡ lookup j r.routes
unfolding mount add
mount-others r child j a = add_routes-others r.prefix j child.routes r.routes a
