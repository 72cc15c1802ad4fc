-- ===== src/Go/Routing.antt =====
-- Package net/http: the handler that ServeMux finds, on a table whose patterns are apart.
use linkspan.Base.{
  String, ◌≡◌, refl, sym, subst, ap, ◌∙◌, inl, inr, true, false, Option, none, some, List, [], ◌∷◌,
  Map, In, ◌==◌, string_eq, Bool-cases, Option-cases, eq_iff,
}
use linkspan.Go.Mux.{
  Pattern, Entry, entry_of, pattern_of, entries_of, found_in, match_method, matching_methods,
  refused_by, routed, not_allowed, not_found, find_handler,
}
use linkspan.Go.Matching.{matches}
use linkspan.Go.Finding.{match_path-only, match_path-none}
use linkspan.Go.Apart.{is_apart_table, entries_of-whole, entries_of-only, In-entries_of}

abbrev pub fits : String → List String → Option (List String)
fits text path = matches (pattern_of text).segments (pattern_of text).subtree path

module _ {A : Type 0} where
  found_in-only :
      (table : Map A) (text : String) (a : A) (path us : List String)
      → is_apart_table table ≡ true
      → In (text, a) table
      → fits text path ≡ some us
      → found_in table (pattern_of text).method path ≡ some ((pattern_of text, a), us)
  found_in-only table text a path us h i m =
      let p = pattern_of text in
      let mine = In-entries_of text a table i in
      let whole : p.subtree ≡ false = entries_of-whole p.method table (entry_of p a) h mine in
      match_path-only (entries_of p.method table) path p.segments p.subtree (p, a) us mine m
        (λ other j n. elim (Option-cases (matches other.0 other.1 path)) [
          | inl e ↦ absurd (n e)
          | inr (vs, e) ↦
              entries_of-only p.method table (entry_of p a) other path us vs h mine j
                (ap (λ t. matches p.segments t path) (sym whole) ∙ m)
                (ap (λ t. matches other.0 t path) (sym (entries_of-whole p.method table other h j))
                  ∙ e)
        ])

  -- A request with the method and a path of one pattern of the table finds its handler, with the values
  -- that its wildcards have in the path.
  pub find_handler-routed :
      (table : Map A) (text : String) (a : A) (path us : List String)
      → is_apart_table table ≡ true
      → In (text, a) table
      → fits text path ≡ some us
      → find_handler table (pattern_of text).method path ≡ routed (pattern_of text) a us
  unfolding find_handler match_method
  find_handler-routed table text a path us h i m =
      rw (find_handler, match_method, found_in-only table text a path us h i m) refl

  entries_of-In :
      (m : String) (table : Map A) (y : Entry (Pattern × A))
      → In y (entries_of m table)
      → (text : String) × (a : A) × In (text, a) table
        × (y ≡ entry_of (pattern_of text) a)
        × ((pattern_of text).method ≡ m)
  unfolding entries_of
  entries_of-In m [] y i = elim i [ ]
  entries_of-In m ((text, a) ∷ more) y i = elim (Bool-cases ((pattern_of text).method == m)) [
    | inl q ↦ elim (rw (entries_of, q) at i) [
      | inl e ↦ (text, a, inl refl, e, (eq_iff (pattern_of text).method m).0 q)
      | inr j ↦ let (t, b, k, e, n) = entries_of-In m more y j in (t, b, inr k, e, n)
    ]
    | inr q ↦
        let (t, b, k, e, n) = entries_of-In m more y (rw (entries_of, q) at i) in
        (t, b, inr k, e, n)
  ]

  -- No pattern of a method fits.
  abbrev pub FitsNone : Map A → String → List String → Type 0
  FitsNone table m path =
      (text : String) (a : A)
      → In (text, a) table
      → (pattern_of text).method ≡ m
      → fits text path ≡ none

  pub found_in-none :
      (table : Map A) (m : String) (path : List String)
      → FitsNone table m path
      → found_in table m path ≡ none
  found_in-none table m path h = match_path-none (entries_of m table) path (λ other i.
      let (text, a, j, e, n) = entries_of-In m table other i in
      ap (λ (x : Entry (Pattern × A)). matches x.0 x.1 path) e ∙ h text a j n)

  match_method-none :
      (table : Map A) (m : String) (path : List String)
      → FitsNone table m path
      → FitsNone table "" path
      → (m ≡ "HEAD" → FitsNone table "GET" path)
      → match_method table m path ≡ none
  unfolding match_method
  match_method-none table m path h any head = elim (Bool-cases (m == "HEAD")) [
    | inl q ↦
        rw
          (
            match_method,
            found_in-none table m path h,
            q,
            found_in-none table "GET" path (head ((eq_iff m "HEAD").0 q)),
            found_in-none table "" path any,
          )
          refl
    | inr q ↦
        rw (match_method, found_in-none table m path h, q, found_in-none table "" path any) refl
  ]

  pub match_method-first :
      (table : Map A) (m : String) (path : List String) (hit : (Pattern × A) × List String)
      → found_in table m path ≡ some hit
      → match_method table m path ≡ some hit
  unfolding match_method
  match_method-first table m path hit e = rw (match_method, e) refl

  -- What a pattern without a method takes.
  pub match_method-any :
      (table : Map A) (m : String) (path : List String) (hit : (Pattern × A) × List String)
      → found_in table m path ≡ none
      → (m ≡ "HEAD" → found_in table "GET" path ≡ none)
      → found_in table "" path ≡ some hit
      → match_method table m path ≡ some hit
  unfolding match_method
  match_method-any table m path hit e head any = elim (Bool-cases (m == "HEAD")) [
    | inl q ↦ rw (match_method, e, q, head ((eq_iff m "HEAD").0 q), any) refl
    | inr q ↦ rw (match_method, e, q, any) refl
  ]

  matching_methods-none :
      (table rest : Map A) (path : List String)
      → ((m : String) → FitsNone table m path)
      → matching_methods table rest path ≡ []
  unfolding matching_methods
  matching_methods-none table [] path h = refl
  matching_methods-none table ((text, a) ∷ more) path h =
      rw
        (
          matching_methods,
          found_in-none table (pattern_of text).method path (h (pattern_of text).method),
        )
        (matching_methods-none table more path h)

  -- 404 on a path that no pattern fits.
  pub find_handler-not_found :
      (table : Map A) (m : String) (path : List String)
      → ((other : String) → FitsNone table other path)
      → find_handler table m path ≡ not_found
  unfolding find_handler
  find_handler-not_found table m path h =
      rw
        (
          find_handler,
          match_method-none table m path (h m) (h "") (λ e. h "GET"),
          matching_methods-none table table path h,
        )
        refl

  matching_methods-In :
      (table rest : Map A) (text : String) (a : A) (path us : List String)
      → is_apart_table table ≡ true
      → In (text, a) table
      → fits text path ≡ some us
      → In (text, a) rest
      → In (pattern_of text).method (matching_methods table rest path)
  unfolding matching_methods
  matching_methods-In table [] text a path us h i m j = elim j [ ]
  matching_methods-In table ((other, b) ∷ more) text a path us h i m (inl e) =
      let same : (pattern_of text).method ≡ (pattern_of other).method =
        ap (λ (x : String × A). (pattern_of x.0).method) e in
      let found : found_in table (pattern_of other).method path ≡ some ((pattern_of text, a), us) =
        subst (λ k. found_in table k path ≡ some ((pattern_of text, a), us)) same
          (found_in-only table text a path us h i m) in
      rw (matching_methods, found) (inl same)
  matching_methods-In table ((other, b) ∷ more) text a path us h i m (inr j) =
      let later = matching_methods-In table more text a path us h i m j in
      elim (Option-cases (found_in table (pattern_of other).method path)) [
        | inl n ↦ rw (matching_methods, n) later
        | inr (hit, e) ↦ rw (matching_methods, e) (inr later)
      ]

  refused_by-In : (m : String) (ms : List String) → In m ms → refused_by {A = A} ms ≡ not_allowed ms
  refused_by-In m [] i = elim i [ ]
  refused_by-In m (k ∷ ms) i = refl

  -- 405 where a pattern fits the path and none does of the method; the answer names the pattern's method.
  pub find_handler-not_allowed :
      (table : Map A) (m text : String) (a : A) (path us : List String)
      → is_apart_table table ≡ true
      → In (text, a) table
      → fits text path ≡ some us
      → FitsNone table m path
      → FitsNone table "" path
      → (m ≡ "HEAD" → FitsNone table "GET" path)
      → (ms : List String) × (find_handler table m path ≡ not_allowed ms)
        × In (pattern_of text).method ms
  unfolding find_handler
  find_handler-not_allowed table m text a path us h i f g any head =
      let named = matching_methods-In table table text a path us h i f i in
      (
        matching_methods table table path,
        rw (find_handler, match_method-none table m path g any head)
            (refused_by-In (pattern_of text).method (matching_methods table table path) named),
        named,
      )
