-- ===== src/Go/Apart.antt =====
-- Package net/http: patterns of which no two can match one path, so that HandleFunc finds no conflict.
use linkspan.Base.{
  String, ◌≡◌, refl, sym, ap, ◌∙◌, inl, inr, Bool, true, false, not, ◌&&◌, ◌||◌, some, List, [],
  ◌∷◌, Map, In, arith, ◌==◌, string_eq, Bool-cases, eq_iff,
}
use linkspan.Go.Mux.{Segment, literal, wildcard, Pattern, Entry, entry_of, pattern_of, entries_of}
use linkspan.Go.Matching.{matches, with_value-some}

-- Patterns of whole paths that differ in length, or in a literal at one place.
unfoldable pub are_apart : List Segment → List Segment → Bool
are_apart [] [] = false
are_apart [] (b ∷ bs) = true
are_apart (a ∷ as') [] = true
are_apart (literal a ∷ as') (literal b ∷ bs) = not (a == b) || are_apart as' bs
are_apart (literal a ∷ as') (wildcard b ∷ bs) = are_apart as' bs
are_apart (wildcard a ∷ as') (b ∷ bs) = are_apart as' bs

are_apart-sym : (as' bs : List Segment) → are_apart as' bs ≡ are_apart bs as'
unfolding are_apart
are_apart-sym [] [] = refl
are_apart-sym [] (b ∷ bs) = refl
are_apart-sym (a ∷ as') [] = refl
are_apart-sym (literal a ∷ as') (literal b ∷ bs) =
    ground (arith, eq_iff a b, eq_iff b a, are_apart-sym as' bs)
are_apart-sym (literal a ∷ as') (wildcard b ∷ bs) = are_apart-sym as' bs
are_apart-sym (wildcard a ∷ as') (literal b ∷ bs) = are_apart-sym as' bs
are_apart-sym (wildcard a ∷ as') (wildcard b ∷ bs) = are_apart-sym as' bs

literal_matches :
    (l s : String) (more : List Segment) (path us : List String)
    → matches (literal l ∷ more) false (s ∷ path) ≡ some us
    → (l ≡ s) × (matches more false path ≡ some us)
unfolding matches
literal_matches l s more path us m = elim (Bool-cases (l == s)) [
  | inl q ↦ ((eq_iff l s).0 q, rw q at m)
  | inr q ↦ absurd (cc (rw q at m))
]

wildcard_matches :
    (name s : String) (more : List Segment) (path us : List String)
    → matches (wildcard name ∷ more) false (s ∷ path) ≡ some us
    → (vs : List String) × (matches more false path ≡ some vs)
unfolding matches
wildcard_matches name s more path us m = elim (Bool-cases (s == "")) [
  | inl q ↦ absurd (cc (rw q at m))
  | inr q ↦ with_value-some s (matches more false path) us (rw q at m)
]

pub are_apart-matches :
    (as' bs : List Segment) (path us vs : List String)
    → are_apart as' bs ≡ true
    → matches as' false path ≡ some us
    → matches bs false path ≡ some vs
    → ⊥
unfolding are_apart matches
are_apart-matches [] [] path us vs h m n = absurd (cc h)
are_apart-matches [] (b ∷ bs) (s ∷ path) us vs h m n = absurd (cc m)
are_apart-matches [] (literal b ∷ bs) [] us vs h m n = absurd (cc n)
are_apart-matches [] (wildcard b ∷ bs) [] us vs h m n = absurd (cc n)
are_apart-matches (literal a ∷ as') bs [] us vs h m n = absurd (cc m)
are_apart-matches (wildcard a ∷ as') bs [] us vs h m n = absurd (cc m)
are_apart-matches (a ∷ as') [] (s ∷ path) us vs h m n = absurd (cc n)
are_apart-matches (literal a ∷ as') (literal b ∷ bs) (s ∷ path) us vs h m n =
    let (p, m') = literal_matches a s as' path us m in
    let (q, n') = literal_matches b s bs path vs n in
    are_apart-matches as' bs path us vs (ground (arith, eq_iff a b, p, q, h)) m' n'
are_apart-matches (literal a ∷ as') (wildcard b ∷ bs) (s ∷ path) us vs h m n =
    let (p, m') = literal_matches a s as' path us m in
    let (ws, n') = wildcard_matches b s bs path vs n in are_apart-matches as' bs path us ws h m' n'
are_apart-matches (wildcard a ∷ as') (literal b ∷ bs) (s ∷ path) us vs h m n =
    let (ws, m') = wildcard_matches a s as' path us m in
    let (q, n') = literal_matches b s bs path vs n in are_apart-matches as' bs path ws vs h m' n'
are_apart-matches (wildcard a ∷ as') (wildcard b ∷ bs) (s ∷ path) us vs h m n =
    let (ws, m') = wildcard_matches a s as' path us m in
    let (xs, n') = wildcard_matches b s bs path vs n in are_apart-matches as' bs path ws xs h m' n'

abbrev pub apart_patterns : Pattern → Pattern → Bool
unfolding are_apart
apart_patterns p q = not (q.method == p.method) || are_apart p.segments q.segments

pub and_true : (a b : Bool) → (a && b) ≡ true → (a ≡ true) × (b ≡ true)
and_true true b h = (refl, h)
and_true false b h = absurd (cc h)

module _ {A : Type 0} where
  unfoldable pub apart_from : Pattern → Map A → Bool
  unfolding apart_patterns pattern_of
  apart_from p [] = true
  apart_from p ((text, a) ∷ more) = apart_patterns p (pattern_of text) && apart_from p more

  -- Any two patterns of a method are apart, and each is of a whole path.
  unfoldable pub is_apart_table : Map A → Bool
  unfolding apart_from pattern_of
  is_apart_table [] = true
  is_apart_table ((text, a) ∷ more) =
      not (pattern_of text).subtree && (apart_from (pattern_of text) more && is_apart_table more)

  apart_first :
      (text : String) (a : A) (more : Map A)
      → is_apart_table ((text, a) ∷ more) ≡ true
      → ((pattern_of text).subtree ≡ false)
        × (apart_from (pattern_of text) more ≡ true)
        × (is_apart_table more ≡ true)
  unfolding is_apart_table
  apart_first text a more h =
      let (whole, rest) = and_true (not (pattern_of text).subtree) _ h in
      let (from, later) = and_true (apart_from (pattern_of text) more) (is_apart_table more) rest in
      (ground (arith, whole), from, later)

  pub entries_of-whole :
      (m : String) (table : Map A) (y : Entry (Pattern × A))
      → is_apart_table table ≡ true
      → In y (entries_of m table)
      → y.1 ≡ false
  unfolding entries_of
  entries_of-whole m [] y h i = elim i [ ]
  entries_of-whole m ((text, a) ∷ more) y h i =
      let (whole, from, later) = apart_first text a more h in
      elim (Bool-cases ((pattern_of text).method == m)) [
        | inl q ↦ elim (rw (entries_of, q) at i) [
          | inl e ↦ ap (λ (x : Entry (Pattern × A)). x.1) e ∙ whole
          | inr j ↦ entries_of-whole m more y later j
        ]
        | inr q ↦ entries_of-whole m more y later (rw (entries_of, q) at i)
      ]

  entries_of-apart :
      (m : String) (p : Pattern) (table : Map A) (y : Entry (Pattern × A))
      → p.method ≡ m
      → apart_from p table ≡ true
      → In y (entries_of m table)
      → are_apart p.segments y.0 ≡ true
  unfolding entries_of apart_from
  entries_of-apart m p [] y e h i = elim i [ ]
  entries_of-apart m p ((text, a) ∷ more) y e h i =
      let (here, later) = and_true (apart_patterns p (pattern_of text)) (apart_from p more) h in
      elim (Bool-cases ((pattern_of text).method == m)) [
        | inl q ↦ elim (rw (entries_of, q) at i) [
          | inl f ↦
              let differ : are_apart p.segments (pattern_of text).segments ≡ true = ground (
                arith,
                here,
                e,
                eq_iff (pattern_of text).method p.method,
                (eq_iff (pattern_of text).method m).0 q,
              ) in
              ap (λ (x : Entry (Pattern × A)). are_apart p.segments x.0) f ∙ differ
          | inr j ↦ entries_of-apart m p more y e later j
        ]
        | inr q ↦ entries_of-apart m p more y e later (rw (entries_of, q) at i)
      ]

  -- Of the entries of a method, one alone matches a path.
  pub entries_of-only :
      (m : String) (table : Map A) (x y : Entry (Pattern × A)) (path us vs : List String)
      → is_apart_table table ≡ true
      → In x (entries_of m table)
      → In y (entries_of m table)
      → matches x.0 false path ≡ some us
      → matches y.0 false path ≡ some vs
      → y ≡ x
  unfolding entries_of
  entries_of-only m [] x y path us vs h i j mx my = elim i [ ]
  entries_of-only m ((text, a) ∷ more) x y path us vs h i j mx my =
      let (whole, from, later) = apart_first text a more h in
      elim (Bool-cases ((pattern_of text).method == m)) [
        | inr q ↦
            entries_of-only m more x y path us vs later (rw (entries_of, q) at i)
              (rw (entries_of, q) at j) mx my
        | inl q ↦
            let same : (pattern_of text).method ≡ m = (eq_iff (pattern_of text).method m).0 q in
            elim (rw (entries_of, q) at i) [
              | inl e ↦ elim (rw (entries_of, q) at j) [
                | inl f ↦ f ∙ sym e
                | inr k ↦ absurd (
                    are_apart-matches (pattern_of text).segments y.0 path us vs
                      (entries_of-apart m (pattern_of text) more y same from k)
                      (ap (λ (z : Entry (Pattern × A)). matches z.0 false path) (sym e) ∙ mx) my)
              ]
              | inr k ↦ elim (rw (entries_of, q) at j) [
                | inl f ↦ absurd (
                    are_apart-matches (pattern_of text).segments x.0 path vs us
                      (entries_of-apart m (pattern_of text) more x same from k)
                      (ap (λ (z : Entry (Pattern × A)). matches z.0 false path) (sym f) ∙ my) mx)
                | inr l ↦ entries_of-only m more x y path us vs later k l mx my
              ]
            ]
      ]

  pub In-entries_of :
      (text : String) (a : A) (table : Map A)
      → In (text, a) table
      → In (entry_of (pattern_of text) a) (entries_of (pattern_of text).method table)
  unfolding entries_of
  In-entries_of text a [] i = elim i [ ]
  In-entries_of text a ((other, b) ∷ more) (inl e) =
      let here : ((pattern_of other).method == (pattern_of text).method) ≡ true =
        (eq_iff (pattern_of other).method (pattern_of text).method).1
          (ap (λ (x : String × A). (pattern_of x.0).method) (sym e)) in
      rw here (inl (ap (λ (x : String × A). entry_of (pattern_of x.0) x.1) e))
  In-entries_of text a ((other, b) ∷ more) (inr i) =
      elim (Bool-cases ((pattern_of other).method == (pattern_of text).method)) [
        | inl q ↦ rw (entries_of, q) (inr (In-entries_of text a more i))
        | inr q ↦ rw (entries_of, q) (In-entries_of text a more i)
      ]
