-- ===== src/Subsystems/Environment.antt =====
-- How the Jupyter environment is built.
use linkspan.Base.{String, ◌≡◌, refl, Option, none, some, List, [], ◌∷◌, ◌++◌, map, All, nat_eq}
use linkspan.Subsystems.Jupyter.{SetupStep, run_setup, done, step_failed}

module _ (run : List String → Option String) where
  -- Where every step's command succeeds, each of them has run, in order, and setup answers 200.
  pub run_setup-done :
      (steps : List SetupStep)
      → All (λ step. run step.argv ≡ none) steps
      → run_setup run steps ≡ (done, map (λ (step : SetupStep). step.name) steps)
  unfolding run_setup
  run_setup-done [] a = refl
  run_setup-done (step ∷ steps) a = rw (run_setup, a.0, run_setup-done steps a.1)

  -- The first step whose command fails ends setup: those before it have run, those behind it have not, and
  -- the answer is 500 with the step's name and its error.
  pub run_setup-stops :
      (before behind : List SetupStep) (step : SetupStep) (e : String)
      → All (λ step. run step.argv ≡ none) before
      → run step.argv ≡ some e
      → run_setup run (before ++ step ∷ behind) ≡ (
        step_failed step.name e,
        map (λ (step : SetupStep). step.name) before ++ (step.name ∷ []),
      )
  unfolding run_setup
  run_setup-stops [] behind step e a f = rw f
  run_setup-stops (first ∷ before) behind step e a f =
      rw (a.0, run_setup-stops before behind step e a.1 f)
