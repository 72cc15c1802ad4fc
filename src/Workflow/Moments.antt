-- ===== src/Workflow/Moments.antt =====
-- subsystems/workflow/workflow.go: Run and Start.
use linkspan.Base.{
  ℕ, ◌+◌, String, Bool, true, false, ◌||◌, Option, none, some, List, [], ◌∷◌, ◌++◌, concat, ltb,
  leb, if◌then◌else◌, ◌==◌, string_eq, nat_eq,
}
use linkspan.Base.Json.{Json, null, text, object, Fields, end, field}
use linkspan.Go.Strconv.{itoa}
use linkspan.Router.{Reply}
use linkspan.Workflow.Document.{BoundStep, BoundTrigger, is_signal}

-- json.Unmarshal matches the field ID by its letters alone.
unfoldable pub is_id_key : String → Bool
is_id_key k = k == "id" || (k == "ID" || (k == "Id" || k == "iD"))

-- One value read into ID: a text, or null which changes nothing; `none` is an error.
unfoldable pub read_id : Json → Option String → Option String
read_id (text s) (some old) = some s
read_id null (some old) = some old
read_id _ _ = none

-- var created struct{ ID string }, decoded from an object.
unfoldable pub id_of_fields : Fields → Option String → Option String
unfolding is_id_key read_id
id_of_fields end id = id
id_of_fields (field k v rest) id = id_of_fields rest (if is_id_key k then read_id v id else id)

-- The id of what a step created, "" where its body names none.
unfoldable pub created_id : Option Json → String
unfolding id_of_fields
created_id (some (object fs)) = elim (id_of_fields fs (some "")) [ none ↦ "" | some id ↦ id ]
created_id _ = ""

-- append(started, created.ID)
unfoldable pub note_started : Option Json → List String → List String
unfolding created_id
note_started body started =
    if created_id body == "" then started else started ++ (created_id body ∷ [])

-- How a run of steps stands: it may go on, a step paused it, or a step failed.
pub data Halt : Type 0 where
  go_on : Halt
  paused : Halt
  failing : String → Halt

abbrev pub outside_2xx : ℕ → Bool
outside_2xx status = ltb status 200 || leb 300 status

unfoldable pub step_error : {S : Type 0} → ℕ → BoundStep S → Reply → String
step_error i b r = concat (
    "step "
    ∷ itoa i
    ∷ " ("
    ∷ b.step.name
    ∷ "): "
    ∷ b.step.action
    ∷ ": "
    ∷ itoa r.status
    ∷ " "
    ∷ r.message
    ∷ [])

module _ {S : Type 0} where
  -- The loop over one trigger's steps, from step number i.
  unfoldable pub run_steps : ℕ → List (BoundStep S) → List String → S → Halt × List String × S
  unfolding note_started step_error
  run_steps i [] started s = (go_on, started, s)
  run_steps i (b ∷ bs) started s =
      let (r, s1) = b.perform b.step.params s in
      let now = note_started r.body started in
      let rest = run_steps (i + 1) bs now s1 in
      if outside_2xx r.status
      then (failing (step_error i b r), started, s1)
      else if r.status == 202
      then (paused, now, s1)
      else rest

  -- Whether the loop over the triggers goes on.
  unfoldable pub continue :
      Halt × List String × S → (List String → S → Halt × List String × S) → Halt × List String × S
  continue (go_on, started, s) f = f started s
  continue (paused, started, s) f = (paused, started, s)
  continue (failing e, started, s) f = (failing e, started, s)

  unfoldable pub run_triggers :
      String → List (BoundTrigger S) → List String → S → Halt × List String × S
  unfolding run_steps continue
  run_triggers moment [] started s = (go_on, started, s)
  run_triggers moment (t ∷ ts) started s =
      let here = continue (run_steps 1 t.bound started s) (run_triggers moment ts) in
      let later = run_triggers moment ts started s in if t.moment == moment then here else later

  -- The loop over what was started: `wait` is tasks.Wait.
  unfoldable pub wait_all : (String → S → S) → List String → S → S
  wait_all wait [] s = s
  wait_all wait (id ∷ ids) s = wait_all wait ids (wait id s)

  unfoldable pub concluded : (String → S → S) → Halt × List String × S → Option String × S
  unfolding wait_all
  concluded wait (go_on, started, s) = (none, wait_all wait started s)
  concluded wait (paused, started, s) = (none, wait_all wait started s)
  concluded wait (failing e, started, s) = (some e, s)

  -- Run
  unfoldable pub run_moment :
      (String → S → S) → List (BoundTrigger S) → String → S → Option String × S
  unfolding run_triggers concluded
  run_moment wait loaded moment s = concluded wait (run_triggers moment loaded [] s)

-- The goroutine of Start: start, then ready.
unfoldable pub ready_after :
    {S : Type 0} → (String → S → Option String × S) → Option String × S → Option String × S
ready_after run (some e, s) = (some e, s)
ready_after run (none, s) = run "ready" s

unfoldable pub setup : {S : Type 0} → (String → S → Option String × S) → S → Option String × S
unfolding ready_after
setup run s = ready_after run (run "start" s)

-- What the select of Start receives: the end of the context, the result of the goroutine, a signal.
pub data Event : Type 0 where
  context_done : Event
  set_up : Option String → Event
  arrived : String → Event

-- The task of Start: what it has returned, whether it has sent Linkspan SIGTERM, whether `setup` is
-- still open, and the state.
pub record Loop (S : Type 0) : Type 0 where
  pub returned : Option (Option String)
  pub terminated : Bool
  pub open_setup : Bool
  pub inner : S

module _ {S : Type 0} (run : String → S → Option String × S) where
  unfoldable pub ran : Option String × S → Loop S → Loop S
  ran (some e, s) l = record l { returned = some (some e); inner = s }
  ran (none, s) l = record l { inner = s }

  -- One round of the select.
  unfoldable pub react : Event → Loop S → Loop S
  unfolding ran
  react context_done l = record l { returned = some none }
  react (set_up (some e)) l = if l.open_setup then record l { returned = some (some e) } else l
  react (set_up none) l =
      if l.open_setup then record l { terminated = true; open_setup = false } else l
  react (arrived name) l = ran (run name l.inner) l

  -- Events behind a return are not received.
  unfoldable pub react_all : List Event → Loop S → Loop S
  unfolding react
  react_all [] l = l
  react_all (e ∷ es) l =
      let next = react_all es (react e l) in elim l.returned [ none ↦ next | some r ↦ l ]

-- The signals that Start asks for.
unfoldable pub notified : {S : Type 0} → List (BoundTrigger S) → List String
notified [] = []
notified (t ∷ ts) = let rest = notified ts in if is_signal t.moment then t.moment ∷ rest else rest
