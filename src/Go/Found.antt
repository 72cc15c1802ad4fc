-- ===== src/Go/Found.antt =====
-- Package net/http: what the routing tree of ServeMux finds is an entry whose pattern matches.
use mathlib.Core.List
use linkspan.Base.{
  String, ◌≡◌, refl, sym, ap, ◌∙◌, inl, inr, ◌⊎◌, Bool, true, false, Option, none, some, List, [],
  ◌∷◌, ◌++◌, In, ◌==◌, string_eq, if◌then◌else◌, Bool-cases, eq_iff,
}
use linkspan.Go.Mux.{
  Segment, literal, wildcard, Entry, or_else, under_literal, under_wildcard, ending, with_values,
  match_path,
}
use linkspan.Go.Matching.{matches, with_value}

module _ {B : Type 0} where
  In-under_literal :
      (s : String) (es : List (Entry B)) (more : List Segment) (t : Bool) (b : B)
      → In (more, t, b) (under_literal s es)
      → In (literal s ∷ more, t, b) es
  unfolding under_literal
  In-under_literal s [] more t b i = i
  In-under_literal s (([], t', b') ∷ es) more t b i = inr (In-under_literal s es more t b i)
  In-under_literal s ((wildcard name ∷ rest, t', b') ∷ es) more t b i =
      inr (In-under_literal s es more t b i)
  In-under_literal s ((literal l ∷ rest, t', b') ∷ es) more t b i = elim (Bool-cases (l == s)) [
    | inl q ↦ elim (rw (under_literal, q) at i) [
      | inl e ↦ inl (
          let found : l ≡ s = (eq_iff l s).0 q in
          ap (λ (x : Entry B). (literal s ∷ x.0, x.1, x.2)) e
          ∙ ap (λ k. (literal k ∷ rest, t', b')) (sym found))
      | inr j ↦ inr (In-under_literal s es more t b j)
    ]
    | inr q ↦ inr (In-under_literal s es more t b (rw (under_literal, q) at i))
  ]

  In-under_wildcard :
      (es : List (Entry B)) (more : List Segment) (t : Bool) (b : B)
      → In (more, t, b) (under_wildcard es)
      → (name : String) × In (wildcard name ∷ more, t, b) es
  unfolding under_wildcard
  In-under_wildcard [] more t b i = elim i [ ]
  In-under_wildcard (([], t', b') ∷ es) more t b i =
      let (name, j) = In-under_wildcard es more t b i in (name, inr j)
  In-under_wildcard ((literal l ∷ rest, t', b') ∷ es) more t b i =
      let (name, j) = In-under_wildcard es more t b i in (name, inr j)
  In-under_wildcard ((wildcard name ∷ rest, t', b') ∷ es) more t b (inl e) =
      (name, inl (ap (λ (x : Entry B). (wildcard name ∷ x.0, x.1, x.2)) e))
  In-under_wildcard ((wildcard name ∷ rest, t', b') ∷ es) more t b (inr i) =
      let (other, j) = In-under_wildcard es more t b i in (other, inr j)

  In-ending : (t : Bool) (es : List (Entry B)) (b : B) → ending t es ≡ some b → In ([], t, b) es
  unfolding ending
  In-ending true [] b e = cc
  In-ending false [] b e = cc
  In-ending true (([], true, b') ∷ es) b e =
      inl (let same : b ≡ b' = cc in ap (λ x. ([], true, x)) same)
  In-ending true (([], false, b') ∷ es) b e = inr (In-ending true es b e)
  In-ending false (([], true, b') ∷ es) b e = inr (In-ending false es b e)
  In-ending false (([], false, b') ∷ es) b e =
      inl (let same : b ≡ b' = cc in ap (λ x. ([], false, x)) same)
  In-ending true ((next ∷ more, t, b') ∷ es) b e = inr (In-ending true es b e)
  In-ending false ((next ∷ more, t, b') ∷ es) b e = inr (In-ending false es b e)

  -- A match of the tree: an entry with the path's values.
  abbrev pub Matched : List (Entry B) → List String → List String → B × List String → Type 0
  Matched es values path r =
      (segments : List Segment) × (subtree : Bool) × (us : List String) × In
        (segments, subtree, r.0) es
      × (matches segments subtree path ≡ some us)
      × (r.1 ≡ values ++ us)

  -- What the three ways of a step find.
  or_else-cases :
      (a c d : Option (B × List String)) (r : B × List String)
      → or_else a (or_else c d) ≡ some r
      → (a ≡ some r) ⊎ ((c ≡ some r) ⊎ (d ≡ some r))
  or_else-cases (some x) c d r e = inl e
  or_else-cases none (some x) d r e = inr (inl e)
  or_else-cases none none d r e = inr (inr e)

  with_values-some :
      (values : List String) (o : Option B) (r : B × List String)
      → with_values values o ≡ some r
      → (o ≡ some r.0) × (r.1 ≡ values)
  with_values-some values none r e = absurd (cc e)
  with_values-some values (some b) r e =
      let same : (b, values) ≡ r = cc in
      (ap (λ (x : B × List String). some x.0) same, sym (ap (λ (x : B × List String). x.1) same))

  wildcard_values :
      (s : String) (guard : Bool) (o : Option (B × List String)) (r : B × List String)
      → (s == "") ≡ guard
      → (if guard then none else o) ≡ some r
      → ((s == "") ≡ false) × (o ≡ some r)
  wildcard_values s true o r q e = absurd (cc e)
  wildcard_values s false o r q e = (q, e)

  pub match_path-Matched :
      (es : List (Entry B)) (values path : List String) (r : B × List String)
      → match_path es values path ≡ some r
      → Matched es values path r
  unfolding match_path matches
  match_path-Matched es values [] r e =
      let (found, kept) = with_values-some values (ending false es) r e in
      ([], false, [], In-ending false es r.0 found, refl, kept ∙ sym (List.append-nil values))
  match_path-Matched es values (s ∷ path) r e = elim (or_else-cases _ _ _ r e) [
    | inl l ↦
        let (segments, t, us, i, m, v) = match_path-Matched (under_literal s es) values path r l in
        (
          literal s ∷ segments,
          t,
          us,
          In-under_literal s es segments t r.0 i,
          rw ((eq_iff s s).1 refl) m,
          v,
        )
    | inr (inl w) ↦
        let (full, w') = wildcard_values s (s == "") _ r refl w in
        let (segments, t, us, i, m, v) =
          match_path-Matched (under_wildcard es) (values ++ (s ∷ [])) path r w' in
        let (name, j) = In-under_wildcard es segments t r.0 i in
        (
          wildcard name ∷ segments,
          t,
          s ∷ us,
          j,
          rw full (ap (with_value s) m),
          v ∙ List.append_assoc values (s ∷ []) us,
        )
    | inr (inr d) ↦
        let (found, kept) = with_values-some values (ending true es) r d in
        ([], true, [], In-ending true es r.0 found, refl, kept ∙ sym (List.append-nil values))
  ]
