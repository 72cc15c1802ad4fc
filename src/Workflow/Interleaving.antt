-- ===== src/Workflow/Interleaving.antt =====
-- subsystems/workflow/workflow.go, Start: its goroutine and its loop, step by step, in any interleaving.
use linkspan.Base.{
  ℕ, suc, String, ◌≡◌, true, Option, none, some, List, [], ◌∷◌, ◌++◌, ◌==◌, nat_eq, string_eq,
  if◌then◌else◌,
}
use linkspan.Router.{Reply}
use linkspan.Workflow.Document.{BoundStep, BoundTrigger, is_signal}
use linkspan.Workflow.Moments.{outside_2xx, note_started, step_error}
use linkspan.Workflow.Running.{steps_at}

-- A line of the log of Run: the moment, the number of the step in its trigger, the step, and its answer.
pub record Performed (S : Type 0) : Type 0 where
  pub moment : String
  pub number : ℕ
  pub step : BoundStep S
  pub reply : Reply

-- Run while it goes on: the steps left with what was started, what is left to wait on, or its result.
pub data Progress (S : Type 0) : Type 0 where
  running : List (ℕ × BoundStep S) → List String → Progress S
  waiting : List String → Progress S
  over : Option String → Progress S

-- The goroutine of Start: in Run of start or of ready, with its result in the channel `setup`, or with that
-- received where it is nil.
pub data SetupPhase (S : Type 0) : Type 0 where
  starting : Progress S → SetupPhase S
  readying : Progress S → SetupPhase S
  sent : Option String → SetupPhase S
  received : SetupPhase S

-- The loop of Start: in its select, in Run of a signal's moment, or returned.
pub data LoopPhase (S : Type 0) : Type 0 where
  selecting : LoopPhase S
  handling : String → Progress S → LoopPhase S
  returned : Option String → LoopPhase S

-- Start's task, with the state that the steps work on, the lines logged, and how often Linkspan was sent
-- SIGTERM.
pub record Task (S : Type 0) : Type 0 where
  pub setup : SetupPhase S
  pub loop : LoopPhase S
  pub terminations : ℕ
  pub inner : S
  pub log : List (Performed S)

module _ {S : Type 0} where
  -- What a step that has answered leaves of Run.
  unfoldable pub behind_step :
      ℕ → BoundStep S → Reply → List (ℕ × BoundStep S) → List String → Progress S
  unfolding note_started step_error
  behind_step i b r rest started =
      if outside_2xx r.status
      then over (some (step_error i b r))
      else if r.status == 202
      then waiting (note_started r.body started)
      else running rest (note_started r.body started)

  -- The next step of Run at a moment: its progress, the state, and the lines that it logs.
  unfoldable pub next :
      (String → S → S) → String → Progress S → S → Progress S × S × List (Performed S)
  unfolding behind_step
  next wait moment (running [] started) s = (waiting started, s, [])
  next wait moment (running ((i, b) ∷ rest) started) s =
      let (r, t) = b.perform b.step.params s in
      (
        behind_step i b r rest started,
        t,
        record { moment = moment; number = i; step = b; reply = r } ∷ [],
      )
  next wait moment (waiting []) s = (over none, s, [])
  next wait moment (waiting (id ∷ ids)) s = (waiting ids, wait id s, [])
  next wait moment (over e) s = (over e, s, [])

  abbrev pub with_setup :
      (Progress S → SetupPhase S) → Progress S × S × List (Performed S) → Task S → Task S
  with_setup phase (p, s, lines) w = record w { setup = phase p; inner = s; log = w.log ++ lines }

  abbrev pub with_loop : String → Progress S × S × List (Performed S) → Task S → Task S
  with_loop moment (p, s, lines) w = record w {
    loop = handling moment p;
    inner = s;
    log = w.log ++ lines;
  }

module _ {S : Type 0} (wait : String → S → S) (loaded : List (BoundTrigger S)) where
  abbrev pub begun : String → Progress S
  begun moment = running (steps_at moment loaded) []

  abbrev pub start_task : S → Task S
  start_task s = record {
    setup = starting (begun "start");
    loop = selecting;
    terminations = 0;
    inner = s;
    log = [];
  }

  -- One step of the goroutine or of the loop. The loop receives only in its select: the end of the context,
  -- the goroutine's result, or a signal that is asked for.
  pub data Moves (w : Task S) : Task S → Type 0 where
    start_moves :
        (p : Progress S)
        → w.setup ≡ starting p
        → Moves w (with_setup starting (next wait "start" p w.inner) w)
    start_ends :
        w.setup ≡ starting (over none) → Moves w (record w { setup = readying (begun "ready") })
    start_fails :
        (e : String)
        → w.setup ≡ starting (over (some e))
        → Moves w (record w { setup = sent (some e) })
    ready_moves :
        (p : Progress S)
        → w.setup ≡ readying p
        → Moves w (with_setup readying (next wait "ready" p w.inner) w)
    ready_ends :
        (r : Option String) → w.setup ≡ readying (over r) → Moves w (record w { setup = sent r })
    receives :
        w.setup ≡ sent none
        → w.loop ≡ selecting
        → Moves w (record w { setup = received; terminations = suc w.terminations })
    receives_error :
        (e : String)
        → w.setup ≡ sent (some e)
        → w.loop ≡ selecting
        → Moves w (record w { loop = returned (some e) })
    context_ends : w.loop ≡ selecting → Moves w (record w { loop = returned none })
    signalled :
        (moment : String)
        → is_signal moment ≡ true
        → w.loop ≡ selecting
        → Moves w (record w { loop = handling moment (begun moment) })
    signal_moves :
        (moment : String) (p : Progress S)
        → w.loop ≡ handling moment p
        → Moves w (with_loop moment (next wait moment p w.inner) w)
    signal_ends :
        (moment : String)
        → w.loop ≡ handling moment (over none)
        → Moves w (record w { loop = selecting })
    signal_fails :
        (moment e : String)
        → w.loop ≡ handling moment (over (some e))
        → Moves w (record w { loop = returned (some e) })

  pub data Moved (w : Task S) : Task S → Type 0 where
    unmoved : Moved w w
    moved : {v u : Task S} → Moved w v → Moves v u → Moved w u
