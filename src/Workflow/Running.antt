-- ===== src/Workflow/Running.antt =====
-- Run executes the steps of a moment in order, up to the first that fails or pauses.
use linkspan.Base.{
  ℕ, ◌+◌, String, ◌≡◌, refl, sym, ◌∙◌, inl, inr, true, none, some, List, [], ◌∷◌, ◌++◌, arith,
  if◌then◌else◌, ◌==◌, string_eq, nat_eq, Bool-cases,
}
use linkspan.Router.{Reply}
use linkspan.Workflow.Document.{BoundStep, BoundTrigger}
use linkspan.Workflow.Moments.{
  Halt, go_on, paused, failing, outside_2xx, note_started, step_error, run_steps, continue,
  run_triggers, wait_all, concluded, run_moment,
}

module _ {S : Type 0} where
  abbrev pub numbered : ℕ → List (BoundStep S) → List (ℕ × BoundStep S)
  numbered i [] = []
  numbered i (b ∷ bs) = (i, b) ∷ numbered (i + 1) bs

  -- The steps of every trigger at the moment, in order, each with its number in its trigger.
  abbrev pub steps_at : String → List (BoundTrigger S) → List (ℕ × BoundStep S)
  steps_at moment [] = []
  steps_at moment (t ∷ ts) =
      let rest = steps_at moment ts in
      if t.moment == moment then numbered 1 t.bound ++ rest else rest

  -- A plain loop over numbered steps.
  unfoldable pub run_flat : List (ℕ × BoundStep S) → List String → S → Halt × List String × S
  run_flat [] started s = (go_on, started, s)
  run_flat ((i, b) ∷ bs) started s =
      let (r, s1) = b.perform b.step.params s in
      let now = note_started r.body started in
      let rest = run_flat bs now s1 in
      if outside_2xx r.status
      then (failing (step_error i b r), started, s1)
      else if r.status == 202
      then (paused, now, s1)
      else rest

  run_steps-run_flat :
      (i : ℕ) (bs : List (BoundStep S)) (started : List String) (s : S)
      → run_steps i bs started s ≡ run_flat (numbered i bs) started s
  unfolding run_steps run_flat
  run_steps-run_flat i [] started s = refl
  run_steps-run_flat i (b ∷ bs) started s = rw (
      run_steps-run_flat (i + 1) bs (note_started (b.perform b.step.params s).0.body started)
        (b.perform b.step.params s).1)

  run_flat-append :
      (xs ys : List (ℕ × BoundStep S)) (started : List String) (s : S)
      → run_flat (xs ++ ys) started s ≡ continue (run_flat xs started s) (run_flat ys)
  unfolding run_flat continue
  run_flat-append [] ys started s = refl
  run_flat-append ((i, b) ∷ xs) ys started s = ground (
    arith,
    run_flat-append xs ys (note_started (b.perform b.step.params s).0.body started)
        (b.perform b.step.params s).1,
  )

  continue-cong :
      (h : Halt × List String × S) (f g : List String → S → Halt × List String × S)
      → ((started : List String) (s : S) → f started s ≡ g started s)
      → continue h f ≡ continue h g
  unfolding continue
  continue-cong (go_on, started, s) f g e = e started s
  continue-cong (paused, started, s) f g e = refl
  continue-cong (failing x, started, s) f g e = refl

  -- The nested loops over triggers and steps do what one loop does over the steps of the moment's triggers,
  -- each with its number in its trigger: it stops at the first step that fails or pauses.
  pub run_triggers-run_flat :
      (moment : String) (ts : List (BoundTrigger S)) (started : List String) (s : S)
      → run_triggers moment ts started s ≡ run_flat (steps_at moment ts) started s
  unfolding run_triggers
  run_triggers-run_flat moment [] started s = unfold run_flat in refl
  run_triggers-run_flat moment (t ∷ ts) started s = elim (Bool-cases (t.moment == moment)) [
    | inl here ↦ rw here (
        continue-cong (run_steps 1 t.bound started s) (run_triggers moment ts)
          (run_flat (steps_at moment ts)) (run_triggers-run_flat moment ts)
        ∙ rw (run_steps-run_flat 1 t.bound started s)
            (sym (run_flat-append (numbered 1 t.bound) (steps_at moment ts) started s)))
    | inr other ↦ rw other (run_triggers-run_flat moment ts started s)
  ]

  module _ (wait : String → S → S) (loaded : List (BoundTrigger S)) (moment : String) (s : S) where
    -- The steps of the moment are `before`, then step number i, then `behind`; those before succeed,
    -- start `started`, and leave the state `t`.
    module _ (before behind : List (ℕ × BoundStep S)) (i : ℕ) (b : BoundStep S)
        (started : List String) (t : S) (shape : steps_at moment loaded ≡ before ++ (i, b) ∷ behind)
        (passed : run_flat before [] s ≡ (go_on, started, t)) where
      abbrev answer : Reply × S
      answer = b.perform b.step.params t

      reaches : run_triggers moment loaded [] s ≡ run_flat ((i, b) ∷ behind) started t
      unfolding continue
      reaches =
          run_triggers-run_flat moment loaded [] s
          ∙ rw shape (run_flat-append before ((i, b) ∷ behind) [] s ∙ rw passed)

      -- Where the moment's steps before it have succeeded, a step that answers outside 2xx ends Run with its
      -- error, in the state that the step left: no later step runs, and nothing is waited on.
      pub run_moment-fails :
          outside_2xx answer.0.status ≡ true
          → run_moment wait loaded moment s ≡ (some (step_error i b answer.0), answer.1)
      unfolding run_moment concluded
      run_moment-fails out = rw reaches (unfold run_flat in rw out)

      -- Where the moment's steps before it have succeeded, a step that answers 202 ends the run of the moment
      -- without an error: no later step runs, and Run waits on what was started so far, the paused step's own
      -- included.
      pub run_moment-pauses :
          answer.0.status ≡ 202
          → run_moment wait loaded moment s
            ≡ (none, wait_all wait (note_started answer.0.body started) answer.1)
      unfolding run_moment concluded
      run_moment-pauses p = rw reaches (unfold run_flat in ground (arith, p))

    -- Where every step of the moment succeeds, Run has no error, and waits on everything started.
    pub run_moment-completes :
        (started : List String) (t : S)
        → run_flat (steps_at moment loaded) [] s ≡ (go_on, started, t)
        → run_moment wait loaded moment s ≡ (none, wait_all wait started t)
    unfolding run_moment concluded
    run_moment-completes started t e = rw (run_triggers-run_flat moment loaded [] s, e)
