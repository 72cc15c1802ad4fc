-- ===== src/Workflow/Tests.antt =====
-- Concrete documents and jobs of subsystems/workflow.
use linkspan.Base.{
  ℕ, suc, String, ◌≡◌, refl, ◌≢◌, ◌⊎◌, inl, inr, Bool, true, false, Option, none, some, List, [],
  ◌∷◌, Map, Result, ok, err, arith, All, In, if◌then◌else◌, ◌==◌, string_eq,
}
use linkspan.Base.Json.{text, of_map}
use linkspan.Router.{Action}
use linkspan.Workflow.{
  Step, Trigger, BoundStep, BoundTrigger, load, is_moment, run_moment, run_triggers, wait_all,
  step_error, note_started,
}
use linkspan.Workflow.Binding.{TriggersLoad}
use linkspan.Workflow.Loading.{load-valid, load-TriggersLoad}
use linkspan.Workflow.Interleaving.{
  Task, starting, handling, start_task, begun, next, with_setup, start_moves, signalled, unmoved,
  moved,
}
use linkspan.Workflow.Ordering.{IsOrdered, Moved-IsOrdered}
use linkspan.Workflow.Running.{
  steps_at, run_flat, run_triggers-run_flat, run_moment-fails, run_moment-pauses,
}

-- Actions that count their runs: one succeeds and names what it created, one fails, one pauses.
abbrev succeed : Action ℕ
succeed p n =
    (record { status = 200; body = some (of_map (("id", text "p-1") ∷ [])); message = "" }, suc n)

abbrev fail : Action ℕ
fail p n = (record { status = 500; body = none; message = "no space" }, suc n)

abbrev pause : Action ℕ
pause p n =
    (record { status = 202; body = some (of_map (("id", text "p-2") ∷ [])); message = "" }, suc n)

abbrev actions : Map (Action ℕ)
actions = ("shell.exec", succeed) ∷ ("checkpoint.pause", pause) ∷ []

abbrev compile : Step
compile = record {
  name = "compile";
  ref = "cc";
  action = "shell.exec";
  params = ("command", text "make") ∷ [];
}

abbrev two_triggers : List Trigger
two_triggers =
    record { on = ""; steps = compile ∷ [] } ∷ record { on = "SIGHUP"; steps = compile ∷ [] } ∷ []

abbrev decoder : String → Result (List Trigger)
decoder file = ok two_triggers

load-valid_example : (load actions (ok "tasks: []") decoder []).0 ≡ none
unfolding is_moment linkspan.Base.lookup
load-valid_example =
    load-valid actions "tasks: []" two_triggers decoder [] refl (λ e. cc)
      (
        record { known_moment = refl; has_steps = λ e. cc; known_steps = (refl, tt) },
        (record { known_moment = refl; has_steps = λ e. cc; known_steps = (refl, tt) }, tt),
      )

load-TriggersLoad_example :
    (two_triggers ≢ [])
    × TriggersLoad actions two_triggers (load actions (ok "tasks: []") decoder []).1
load-TriggersLoad_example =
    load-TriggersLoad actions "tasks: []" two_triggers decoder [] refl load-valid_example

abbrev bound_step : String → Action ℕ → BoundStep ℕ
bound_step name a = record { step = record compile { name = name }; perform = a }

abbrev loaded : List (BoundTrigger ℕ)
loaded =
    record {
      moment = "start";
      bound = bound_step "one" succeed ∷ bound_step "two" fail ∷ bound_step "three" succeed ∷ [];
    }
    ∷ record {
      moment = "ready";
      bound = bound_step "four" succeed ∷ bound_step "five" pause ∷ bound_step "six" fail ∷ [];
    }
    ∷ record { moment = "stop"; bound = bound_step "seven" succeed ∷ [] }
    ∷ []

abbrev wait_ten : String → ℕ → ℕ
wait_ten id n = suc (suc (suc (suc (suc (suc (suc (suc (suc (suc n)))))))))

run_triggers-run_flat_example :
    run_triggers "start" loaded [] 0 ≡ run_flat (steps_at "start" loaded) [] 0
run_triggers-run_flat_example = run_triggers-run_flat "start" loaded [] 0

run_moment-fails_example :
    run_moment wait_ten loaded "start" 0
    ≡ (some (step_error 2 (bound_step "two" fail) (fail [] 1).0), 2)
unfolding run_flat note_started linkspan.Base.Json.fields_of
run_moment-fails_example =
    run_moment-fails wait_ten loaded "start" 0 ((1, bound_step "one" succeed) ∷ [])
      ((3, bound_step "three" succeed) ∷ []) 2 (bound_step "two" fail) ("p-1" ∷ []) 1 refl refl refl

run_moment-pauses_example :
    run_moment wait_ten loaded "ready" 0
    ≡ (none, wait_all wait_ten (note_started (pause [] 1).0.body ("p-1" ∷ [])) 2)
unfolding run_flat note_started linkspan.Base.Json.fields_of
run_moment-pauses_example =
    run_moment-pauses wait_ten loaded "ready" 0 ((1, bound_step "four" succeed) ∷ [])
      ((3, bound_step "six" fail) ∷ []) 2 (bound_step "five" pause) ("p-1" ∷ []) 1 refl refl refl

-- The first step of start has run, and SIGHUP has come.
abbrev interrupted : Task ℕ
interrupted =
    let w = start_task wait_ten loaded 0 in
    record (with_setup starting (next wait_ten "start" (begun wait_ten loaded "start") w.inner) w) {
      loop = handling "SIGHUP" (begun wait_ten loaded "SIGHUP");
    }

Moved-IsOrdered_example : IsOrdered wait_ten loaded interrupted
unfolding linkspan.Workflow.is_signal
Moved-IsOrdered_example = Moved-IsOrdered wait_ten loaded 0 (
    moved (moved unmoved (start_moves (begun wait_ten loaded "start") refl))
      (signalled "SIGHUP" refl refl))
