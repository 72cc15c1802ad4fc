-- ===== src/Workflow/Job.antt =====
-- The life of the workflow task: what ends the job, and which errors it returns.
use linkspan.Base.{
  String, ◌≡◌, refl, sym, subst, ◌⊎◌, inl, inr, true, false, Option, none, some, List, [], ◌∷◌,
  arith, In, Option-cases,
}
use linkspan.Workflow.Moments.{Event, context_done, set_up, arrived, Loop, ran, react, react_all}

module _ {S : Type 0} (run : String → S → Option String × S) where
  -- What the loop has received, as far as its fields tell.
  pub record Explains (l m : Loop S) (es : List Event) : Type 0 where
    pub asked : m.terminated ≡ true → (l.terminated ≡ true) ⊎ In (set_up none) es
    pub blames :
        (e : String)
        → m.returned ≡ some (some e)
        → (l.returned ≡ some (some e))
          ⊎ (In (set_up (some e)) es
              ⊎ ((name : String) × (s : S) × In (arrived name) es × ((run name s).0 ≡ some e)))
    pub stops : m.returned ≡ some none → (l.returned ≡ some none) ⊎ In context_done es

  ran-Explains :
      (name : String) (l : Loop S) (r : Option String × S)
      → run name l.inner ≡ r
      → Explains l (ran run r l) (arrived name ∷ [])
  unfolding ran
  ran-Explains name l (none, s) q = record {
    asked = λ p. inl p;
    blames = λ e p. inl p;
    stops = λ p. inl p;
  }
  ran-Explains name l (some x, s) q = record {
    asked = λ p. inl p;
    blames = λ e p. inr (inr (name, l.inner, inl refl, ground (arith, q)));
    stops = λ p. cc;
  }

  react-Explains : (e : Event) (l : Loop S) → Explains l (react run e l) (e ∷ [])
  unfolding react
  react-Explains context_done l = record {
    asked = λ p. inl p;
    blames = λ x p. cc;
    stops = λ p. inr (inl refl);
  }
  react-Explains (set_up (some x)) l = record {
    asked = λ p. ground arith;
    blames = λ y p. ground arith;
    stops = λ p. ground arith;
  }
  react-Explains (set_up none) l = record {
    asked = λ p. inr (inl refl);
    blames = λ y p. ground arith;
    stops = λ p. ground arith;
  }
  react-Explains (arrived name) l = ran-Explains name l (run name l.inner) refl

  Explains-refl : (l : Loop S) (es : List Event) → Explains l l es
  Explains-refl l es = record { asked = λ p. inl p; blames = λ e p. inl p; stops = λ p. inl p }

  Explains-trans :
      (l k m : Loop S) (e : Event) (es : List Event)
      → Explains l k (e ∷ [])
      → Explains k m es
      → Explains l m (e ∷ es)
  Explains-trans l k m e es a b = record {
    asked = λ p. elim (b.asked p) [
      | inl q ↦ elim (a.asked q) [
        | inl r ↦ inl r
        | inr (inl r) ↦ inr (inl r)
        | inr (inr r) ↦ absurd r
      ]
      | inr q ↦ inr (inr q)
    ];
    blames = λ x p. elim (b.blames x p) [
      | inl q ↦ elim (a.blames x q) [
        | inl r ↦ inl r
        | inr (inl (inl r)) ↦ inr (inl (inl r))
        | inr (inl (inr r)) ↦ absurd r
        | inr (inr (n, s, inl r, w)) ↦ inr (inr (n, s, inl r, w))
        | inr (inr (n, s, inr r, w)) ↦ absurd r
      ]
      | inr (inl q) ↦ inr (inl (inr q))
      | inr (inr (n, s, i, w)) ↦ inr (inr (n, s, inr i, w))
    ];
    stops = λ p. elim (b.stops p) [
      | inl q ↦ elim (a.stops q) [
        | inl r ↦ inl r
        | inr (inl r) ↦ inr (inl r)
        | inr (inr r) ↦ absurd r
      ]
      | inr q ↦ inr (inr q)
    ];
  }

  react_all-cons :
      (e : Event) (es : List Event) (l : Loop S)
      → (react_all run (e ∷ es) l ≡ l)
        ⊎ (react_all run (e ∷ es) l ≡ react_all run es (react run e l))
  unfolding react_all
  react_all-cons e es l = elim (Option-cases l.returned) [
    | inl q ↦ inr (rw q)
    | inr (r, q) ↦ inl (rw q)
  ]

  react_all-Explains : (es : List Event) (l : Loop S) → Explains l (react_all run es l) es
  unfolding react_all
  react_all-Explains [] l = Explains-refl l []
  react_all-Explains (e ∷ es) l = elim (react_all-cons e es l) [
    | inl q ↦ subst (λ m. Explains l m (e ∷ es)) (sym q) (Explains-refl l (e ∷ es))
    | inr q ↦
        subst (λ m. Explains l m (e ∷ es)) (sym q)
          (Explains-trans l (react run e l) (react_all run es (react run e l)) e es
            (react-Explains e l) (react_all-Explains es (react run e l)))
  ]

  -- A job that returns the error e, having returned nothing before, has received that setup ended with
  -- e, or a signal whose steps failed with e.
  pub react_all-returned :
      (es : List Event) (l : Loop S) (e : String)
      → l.returned ≡ none
      → (react_all run es l).returned ≡ some (some e)
      → In (set_up (some e)) es
        ⊎ ((name : String) × (s : S) × In (arrived name) es × ((run name s).0 ≡ some e))
  react_all-returned es l e q p = elim ((react_all-Explains es l).blames e p) [
    | inl r ↦ absurd (grind arith)
    | inr r ↦ r
  ]

  -- A job that has sent Linkspan SIGTERM, having not done so before, has received that setup ended
  -- without an error.
  pub react_all-terminated :
      (es : List Event) (l : Loop S)
      → l.terminated ≡ false
      → (react_all run es l).terminated ≡ true
      → In (set_up none) es
  react_all-terminated es l q p = elim ((react_all-Explains es l).asked p) [
    | inl r ↦ absurd (grind arith)
    | inr r ↦ r
  ]
