-- ===== src/Workflow/Logged.antt =====
-- subsystems/workflow/workflow.go: what the lines that Run logs tell of its progress.
use mathlib.Core.List
use linkspan.Base.{
  ℕ, String, ◌≡◌, refl, sym, subst, ap, ◌∙◌, inl, inr, ◌⊎◌, true, false, none, some, List, [], ◌∷◌,
  ◌++◌, map, In, In-append_left, In-append_right, All, ◌==◌, nat_eq, string_eq, if◌then◌else◌,
  Bool-cases, eq_iff,
}
use linkspan.Workflow.Document.{BoundStep}
use linkspan.Workflow.Moments.{outside_2xx, step_error}
use linkspan.Workflow.Interleaving.{Performed, Progress, running, waiting, over, behind_step, next}

module _ {S : Type 0} where
  -- The lines of one moment, in order.
  abbrev pub of_moment : String → List (Performed S) → List (Performed S)
  of_moment moment [] = []
  of_moment moment (l ∷ log) =
      let rest = of_moment moment log in if l.moment == moment then l ∷ rest else rest

  abbrev pub step_of : Performed S → ℕ × BoundStep S
  step_of l = (l.number, l.step)

  abbrev pub Succeeds : Performed S → Type 0
  Succeeds l = (outside_2xx l.reply.status ≡ false) × ((l.reply.status == 202) ≡ false)

  abbrev pub Fails : String → Performed S → Type 0
  Fails e l = (outside_2xx l.reply.status ≡ true) × (e ≡ step_error l.number l.step l.reply)

  -- Of the steps `xs`, those of the lines have run and succeeded, and those of `todo` are left.
  abbrev pub Going : List (ℕ × BoundStep S) → List (Performed S) → List (ℕ × BoundStep S) → Type 0
  Going xs es todo = (map step_of es ++ todo ≡ xs) × All Succeeds es

  -- All have, or all up to one that paused the rest.
  abbrev pub HasPassed : List (ℕ × BoundStep S) → List (Performed S) → Type 0
  HasPassed xs es =
      Going xs es []
      ⊎ ((before : List (Performed S)) × (last : Performed S) × (rest : List (ℕ × BoundStep S))
          × (es ≡ before ++ (last ∷ []))
          × Going xs before (step_of last ∷ rest)
          × (outside_2xx last.reply.status ≡ false)
          × ((last.reply.status == 202) ≡ true))

  -- All up to one that failed with `e`.
  abbrev pub HasFailed : List (ℕ × BoundStep S) → List (Performed S) → String → Type 0
  HasFailed xs es e =
      (before : List (Performed S)) × (last : Performed S) × (rest : List (ℕ × BoundStep S)) × (es
        ≡ before ++ (last ∷ []))
      × Going xs before (step_of last ∷ rest)
      × Fails e last

  abbrev pub RunHolds : List (ℕ × BoundStep S) → List (Performed S) → Progress S → Type 0
  RunHolds xs es (running todo started) = Going xs es todo
  RunHolds xs es (waiting ids) = HasPassed xs es
  RunHolds xs es (over none) = HasPassed xs es
  RunHolds xs es (over (some e)) = HasFailed xs es e

  abbrev one_more : List (Performed S) → Performed S → List (Performed S)
  one_more es l = es ++ (l ∷ [])

  Going-one_more :
      (xs todo : List (ℕ × BoundStep S)) (es : List (Performed S)) (l : Performed S)
      → Going xs es (step_of l ∷ todo)
      → Succeeds l
      → Going xs (one_more es l) todo
  Going-one_more xs todo [] l (e, a) h = (e, (h, tt))
  Going-one_more [] todo (first ∷ es) l (e, a) h = absurd (cc e)
  Going-one_more (x ∷ xs) todo (first ∷ es) l (e, a) h =
      let (e', a') = Going-one_more xs todo es l (ap List.tail e, a.1) h in
      (
        let head : step_of first ≡ x = cc e in ap (◌∷◌ (step_of first)) e' ∙ ap (λ y. y ∷ xs) head,
        (a.0, a'),
      )

  behind_step-RunHolds :
      (xs rest : List (ℕ × BoundStep S)) (es : List (Performed S)) (started : List String)
      (l : Performed S)
      → Going xs es (step_of l ∷ rest)
      → RunHolds xs (one_more es l) (behind_step l.number l.step l.reply rest started)
  unfolding behind_step
  behind_step-RunHolds xs rest es started l g = elim (Bool-cases (outside_2xx l.reply.status)) [
    | inl out ↦ rw (behind_step, out) (es, l, rest, refl, g, (out, refl))
    | inr fine ↦ elim (Bool-cases (l.reply.status == 202)) [
      | inl pause ↦ rw (behind_step, fine, pause) (inr (es, l, rest, refl, g, fine, pause))
      | inr on ↦ rw (behind_step, fine, on) (Going-one_more xs rest es l g (fine, on))
    ]
  ]

  pub RunHolds-nil :
      (xs : List (ℕ × BoundStep S)) (es : List (Performed S)) (p : Progress S)
      → RunHolds xs es p
      → RunHolds xs (es ++ []) p
  RunHolds-nil xs es p h = subst (λ l. RunHolds xs l p) (sym (List.append-nil es)) h

  -- A step of Run keeps what its lines tell of it.
  pub next-RunHolds :
      (wait : String → S → S) (moment : String) (xs : List (ℕ × BoundStep S))
      (es : List (Performed S)) (p : Progress S) (s : S)
      → RunHolds xs es p
      → RunHolds xs (es ++ (next wait moment p s).2) (next wait moment p s).0
  unfolding next
  next-RunHolds wait moment xs es (running [] started) s h =
      RunHolds-nil xs es (waiting started) (inl h)
  next-RunHolds wait moment xs es (running ((i, b) ∷ rest) started) s h =
      behind_step-RunHolds xs rest es started
        (record { moment = moment; number = i; step = b; reply = (b.perform b.step.params s).0 }) h
  next-RunHolds wait moment xs es (waiting []) s h = RunHolds-nil xs es (over none) h
  next-RunHolds wait moment xs es (waiting (id ∷ ids)) s h = RunHolds-nil xs es (waiting ids) h
  next-RunHolds wait moment xs es (over none) s h = RunHolds-nil xs es (over none) h
  next-RunHolds wait moment xs es (over (some e)) s h = RunHolds-nil xs es (over (some e)) h

  -- The lines that a step of Run logs are of its moment.
  next-moment :
      (wait : String → S → S) (moment : String) (p : Progress S) (s : S)
      → of_moment moment (next wait moment p s).2 ≡ (next wait moment p s).2
  unfolding next
  next-moment wait moment (running [] started) s = refl
  next-moment wait moment (running ((i, b) ∷ rest) started) s =
      rw ((eq_iff moment moment).1 refl) refl
  next-moment wait moment (waiting []) s = refl
  next-moment wait moment (waiting (id ∷ ids)) s = refl
  next-moment wait moment (over e) s = refl

  next-others :
      (wait : String → S → S) (moment other : String) (p : Progress S) (s : S)
      → (moment == other) ≡ false
      → of_moment other (next wait moment p s).2 ≡ []
  unfolding next
  next-others wait moment other (running [] started) s n = refl
  next-others wait moment other (running ((i, b) ∷ rest) started) s n = rw n refl
  next-others wait moment other (waiting []) s n = refl
  next-others wait moment other (waiting (id ∷ ids)) s n = refl
  next-others wait moment other (over e) s n = refl

  of_moment-append :
      (moment : String) (xs ys : List (Performed S))
      → of_moment moment (xs ++ ys) ≡ of_moment moment xs ++ of_moment moment ys
  of_moment-append moment [] ys = refl
  of_moment-append moment (l ∷ xs) ys = elim (Bool-cases (l.moment == moment)) [
    | inl q ↦ rw q (ap (◌∷◌ l) (of_moment-append moment xs ys))
    | inr q ↦ rw q (of_moment-append moment xs ys)
  ]

  module _ (wait : String → S → S) (moment : String) (p : Progress S) (s : S)
      (log : List (Performed S)) where
    pub own_lines :
        of_moment moment (log ++ (next wait moment p s).2)
        ≡ of_moment moment log ++ (next wait moment p s).2
    own_lines =
        of_moment-append moment log (next wait moment p s).2
        ∙ ap (◌++◌ (of_moment moment log)) (next-moment wait moment p s)

    pub other_lines :
        (other : String)
        → (moment == other) ≡ false
        → of_moment other (log ++ (next wait moment p s).2) ≡ of_moment other log
    other_lines other n =
        of_moment-append other log (next wait moment p s).2
        ∙ ap (◌++◌ (of_moment other log)) (next-others wait moment other p s n)
        ∙ List.append-nil (of_moment other log)

  In-of_moment :
      (moment : String) (l : Performed S) (log : List (Performed S))
      → In l (of_moment moment log)
      → In l log
  In-of_moment moment l [] i = elim i [ ]
  In-of_moment moment l (k ∷ log) i = elim (Bool-cases (k.moment == moment)) [
    | inl q ↦ elim (rw q at i) [ inl e ↦ inl e | inr j ↦ inr (In-of_moment moment l log j) ]
    | inr q ↦ inr (In-of_moment moment l log (rw q at i))
  ]

  -- An error of a line of the log.
  abbrev pub IsLogged : List (Performed S) → String → Type 0
  IsLogged log e = (l : Performed S) × In l log × Fails e l

  pub HasFailed-IsLogged :
      (moment : String) (xs : List (ℕ × BoundStep S)) (log : List (Performed S)) (e : String)
      → HasFailed xs (of_moment moment log) e
      → IsLogged log e
  HasFailed-IsLogged moment xs log e (before, last, rest, shape, g, f) = (
    last,
    In-of_moment moment last log
        (subst (In last) (sym shape) (In-append_right last before (last ∷ []) (inl refl))),
    f,
  )

  abbrev pub ErrorLogged : List (Performed S) → Progress S → Type 0
  ErrorLogged log (over (some e)) = IsLogged log e
  ErrorLogged log (over none) = Unit
  ErrorLogged log (running todo started) = Unit
  ErrorLogged log (waiting ids) = Unit

  pub IsLogged-append :
      (log more : List (Performed S)) (e : String) → IsLogged log e → IsLogged (log ++ more) e
  IsLogged-append log more e (l, i, f) = (l, In-append_left l log more i, f)

  pub ErrorLogged-append :
      (log more : List (Performed S)) (p : Progress S)
      → ErrorLogged log p
      → ErrorLogged (log ++ more) p
  ErrorLogged-append log more (over (some e)) h = IsLogged-append log more e h
  ErrorLogged-append log more (over none) h = tt
  ErrorLogged-append log more (running todo started) h = tt
  ErrorLogged-append log more (waiting ids) h = tt

  behind_step-ErrorLogged :
      (log : List (Performed S)) (l : Performed S) (rest : List (ℕ × BoundStep S))
      (started : List String)
      → ErrorLogged (log ++ (l ∷ [])) (behind_step l.number l.step l.reply rest started)
  unfolding behind_step
  behind_step-ErrorLogged log l rest started = elim (Bool-cases (outside_2xx l.reply.status)) [
    | inl out ↦ rw (behind_step, out) (l, In-append_right l log (l ∷ []) (inl refl), (out, refl))
    | inr fine ↦ elim (Bool-cases (l.reply.status == 202)) [
      | inl pause ↦ rw (behind_step, fine, pause) tt
      | inr on ↦ rw (behind_step, fine, on) tt
    ]
  ]

  pub next-ErrorLogged :
      (wait : String → S → S) (moment : String) (log : List (Performed S)) (p : Progress S) (s : S)
      → ErrorLogged log p
      → ErrorLogged (log ++ (next wait moment p s).2) (next wait moment p s).0
  unfolding next
  next-ErrorLogged wait moment log (running [] started) s h = tt
  next-ErrorLogged wait moment log (running ((i, b) ∷ rest) started) s h =
      behind_step-ErrorLogged log
        (record { moment = moment; number = i; step = b; reply = (b.perform b.step.params s).0 })
        rest started
  next-ErrorLogged wait moment log (waiting []) s h = tt
  next-ErrorLogged wait moment log (waiting (id ∷ ids)) s h = tt
  next-ErrorLogged wait moment log (over none) s h = tt
  next-ErrorLogged wait moment log (over (some e)) s h = IsLogged-append log [] e h
