-- ===== src/Go/Finding.antt =====
-- Package net/http: the routing tree of ServeMux finds an entry where some pattern matches.
use mathlib.Core.List
use linkspan.Base.{
  String, ◌≡◌, ◌≢◌, refl, sym, subst, ap, ◌∙◌, inl, inr, Bool, true, false, Option, none, some,
  List, [], ◌∷◌, ◌++◌, In, ◌==◌, string_eq, if◌then◌else◌, Bool-cases, Option-cases, eq_iff,
}
use linkspan.Go.Mux.{
  Segment, literal, wildcard, Entry, or_else, under_literal, under_wildcard, ending, with_values,
  match_path,
}
use linkspan.Go.Matching.{matches, with_value-some}
use linkspan.Go.Found.{match_path-Matched}

module _ {B : Type 0} where
  under_literal-In :
      (s : String) (es : List (Entry B)) (more : List Segment) (t : Bool) (b : B)
      → In (literal s ∷ more, t, b) es
      → In (more, t, b) (under_literal s es)
  unfolding under_literal
  under_literal-In s [] more t b i = i
  under_literal-In s (([], t', b') ∷ es) more t b (inl e) =
      absurd (cc (ap (λ (x : Entry B). x.0) e))
  under_literal-In s (([], t', b') ∷ es) more t b (inr i) = under_literal-In s es more t b i
  under_literal-In s ((wildcard name ∷ rest, t', b') ∷ es) more t b (inl e) =
      absurd (cc (ap (λ (x : Entry B). x.0) e))
  under_literal-In s ((wildcard name ∷ rest, t', b') ∷ es) more t b (inr i) =
      under_literal-In s es more t b i
  under_literal-In s ((literal l ∷ rest, t', b') ∷ es) more t b (inl e) =
      let same : l ≡ s = cc (ap (λ (x : Entry B). x.0) e) in
      rw ((eq_iff l s).1 same) (inl (ap (λ (x : Entry B). (List.tail x.0, x.1, x.2)) e))
  under_literal-In s ((literal l ∷ rest, t', b') ∷ es) more t b (inr i) =
      elim (Bool-cases (l == s)) [
        | inl q ↦ rw (under_literal, q) (inr (under_literal-In s es more t b i))
        | inr q ↦ rw (under_literal, q) (under_literal-In s es more t b i)
      ]

  under_wildcard-In :
      (name : String) (es : List (Entry B)) (more : List Segment) (t : Bool) (b : B)
      → In (wildcard name ∷ more, t, b) es
      → In (more, t, b) (under_wildcard es)
  unfolding under_wildcard
  under_wildcard-In name [] more t b i = i
  under_wildcard-In name (([], t', b') ∷ es) more t b (inl e) =
      absurd (cc (ap (λ (x : Entry B). x.0) e))
  under_wildcard-In name (([], t', b') ∷ es) more t b (inr i) = under_wildcard-In name es more t b i
  under_wildcard-In name ((literal l ∷ rest, t', b') ∷ es) more t b (inl e) =
      absurd (cc (ap (λ (x : Entry B). x.0) e))
  under_wildcard-In name ((literal l ∷ rest, t', b') ∷ es) more t b (inr i) =
      under_wildcard-In name es more t b i
  under_wildcard-In name ((wildcard other ∷ rest, t', b') ∷ es) more t b (inl e) =
      inl (ap (λ (x : Entry B). (List.tail x.0, x.1, x.2)) e)
  under_wildcard-In name ((wildcard other ∷ rest, t', b') ∷ es) more t b (inr i) =
      inr (under_wildcard-In name es more t b i)

  ending-In :
      (t : Bool) (es : List (Entry B)) (b : B)
      → In ([], t, b) es
      → (found : B) × (ending t es ≡ some found)
  unfolding ending
  ending-In t [] b i = elim i [ ]
  ending-In true (([], true, b') ∷ es) b i = (b', refl)
  ending-In false (([], false, b') ∷ es) b i = (b', refl)
  ending-In true (([], false, b') ∷ es) b (inl e) = absurd (cc (ap (λ (x : Entry B). x.1) e))
  ending-In true (([], false, b') ∷ es) b (inr i) = ending-In true es b i
  ending-In false (([], true, b') ∷ es) b (inl e) = absurd (cc (ap (λ (x : Entry B). x.1) e))
  ending-In false (([], true, b') ∷ es) b (inr i) = ending-In false es b i
  ending-In true ((next ∷ more, t', b') ∷ es) b (inl e) = absurd (cc (ap (λ (x : Entry B). x.0) e))
  ending-In true ((next ∷ more, t', b') ∷ es) b (inr i) = ending-In true es b i
  ending-In false ((next ∷ more, t', b') ∷ es) b (inl e) = absurd (cc (ap (λ (x : Entry B). x.0) e))
  ending-In false ((next ∷ more, t', b') ∷ es) b (inr i) = ending-In false es b i

  abbrev Finds : Option (B × List String) → Type 0
  Finds o = (r : B × List String) × (o ≡ some r)

  or_else-first : (a c : Option (B × List String)) → Finds a → Finds (or_else a c)
  or_else-first none c (r, e) = absurd (cc e)
  or_else-first (some x) c h = h

  or_else-second : (a c : Option (B × List String)) → Finds c → Finds (or_else a c)
  or_else-second none c h = h
  or_else-second (some x) c h = (x, refl)

  with_values-found :
      (values : List String) (o : Option B)
      → (found : B) × (o ≡ some found)
      → Finds (with_values values o)
  with_values-found values o (found, e) = ((found, values), rw e refl)

  match_path-Finds :
      (es : List (Entry B)) (values path : List String) (segments : List Segment) (t : Bool) (b : B)
      (us : List String)
      → In (segments, t, b) es
      → matches segments t path ≡ some us
      → Finds (match_path es values path)
  unfolding match_path matches
  match_path-Finds es values [] [] false b us i m =
      with_values-found values (ending false es) (ending-In false es b i)
  match_path-Finds es values [] [] true b us i m = absurd (cc m)
  match_path-Finds es values [] (literal l ∷ more) t b us i m = absurd (cc m)
  match_path-Finds es values [] (wildcard name ∷ more) t b us i m = absurd (cc m)
  match_path-Finds es values (s ∷ path) [] false b us i m = absurd (cc m)
  match_path-Finds es values (s ∷ path) [] true b us i m =
      or_else-second _ _
        (or_else-second _ _ (with_values-found values (ending true es) (ending-In true es b i)))
  match_path-Finds es values (s ∷ path) (literal l ∷ more) t b us i m = elim (Bool-cases (l == s)) [
    | inl q ↦
        let here : In (literal s ∷ more, t, b) es =
          subst (λ k. In (literal k ∷ more, t, b) es) ((eq_iff l s).0 q) i in
        or_else-first _ _ (
          match_path-Finds (under_literal s es) values path more t b us
            (under_literal-In s es more t b here) (rw q at m))
    | inr q ↦ absurd (cc (rw q at m))
  ]
  match_path-Finds es values (s ∷ path) (wildcard name ∷ more) t b us i m =
      elim (Bool-cases (s == "")) [
        | inl q ↦ absurd (cc (rw q at m))
        | inr q ↦
            let (vs, v) = with_value-some s (matches more t path) us (rw q at m) in
            let found : Finds (
                if s == ""
                then none
                else match_path (under_wildcard es) (values ++ (s ∷ [])) path) =
              rw q (
                match_path-Finds (under_wildcard es) (values ++ (s ∷ [])) path more t b vs
                  (under_wildcard-In name es more t b i) v) in
            or_else-second _ _ (or_else-first _ _ found)
      ]

  -- The tree finds the one pattern that matches, with the values of its wildcards.
  pub match_path-only :
      (es : List (Entry B)) (path : List String) (segments : List Segment) (t : Bool) (b : B)
      (us : List String)
      → In (segments, t, b) es
      → matches segments t path ≡ some us
      → ((other : Entry B)
          → In other es
          → matches other.0 other.1 path ≢ none
          → other ≡ (segments, t, b))
      → match_path es [] path ≡ some (b, us)
  match_path-only es path segments t b us i m only =
      let (r, e) = match_path-Finds es [] path segments t b us i m in
      let (segments', t', us', i', m', v) = match_path-Matched es [] path r e in
      let same = only (segments', t', r.0) i' (λ n. absurd (cc (sym n ∙ m'))) in
      let values : some us' ≡ some us =
        sym m' ∙ ap (λ (x : Entry B). matches x.0 x.1 path) same ∙ m in
      let kept : us' ≡ us = cc values in
      let handler : r.0 ≡ b = ap (λ (x : Entry B). x.2) same in
      e ∙ ap some (ap (λ x. (x, r.1)) handler ∙ ap (λ x. (b, x)) (v ∙ kept))

  -- It finds nothing exactly where no pattern matches.
  pub match_path-none :
      (es : List (Entry B)) (path : List String)
      → ((other : Entry B) → In other es → matches other.0 other.1 path ≡ none)
      → match_path es [] path ≡ none
  match_path-none es path absent = elim (Option-cases (match_path es [] path)) [
    | inl n ↦ n
    | inr (r, e) ↦
        let (segments', t', us', i', m', v) = match_path-Matched es [] path r e in
        absurd (cc (sym (absent (segments', t', r.0) i') ∙ m'))
  ]
