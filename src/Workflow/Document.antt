-- ===== src/Workflow/Document.antt =====
-- subsystems/workflow/workflow.go: the document, Load, and the actions of the package.
use linkspan.Base.{
  ℕ, ◌+◌, String, Bool, ◌||◌, Option, none, some, List, [], ◌∷◌, Map, lookup, insert, Result, ok,
  err, ◌>>=◌, concat, or_else, if◌then◌else◌, ◌==◌, string_eq,
}
use linkspan.Base.Json.{text}
use linkspan.Go.Strconv.{itoa}
use linkspan.Go.Strings.{trim_space}
use linkspan.Router.{Action, Params, str}
use linkspan.Servers.{Job, Others, process_kind, run}
use linkspan.Tasks.{Net, Task}
use linkspan.Tasks as Tasks

pub record Step : Type 0 where
  pub name : String
  pub ref : String
  pub action : String
  pub params : Params

pub record Trigger : Type 0 where
  pub on : String
  pub steps : List Step

-- A step whose `run` Load has bound.
pub record BoundStep (S : Type 0) : Type 0 where
  pub step : Step
  pub perform : Action S

pub record BoundTrigger (S : Type 0) : Type 0 where
  pub moment : String
  pub bound : List (BoundStep S)

-- The keys of `signals`.
unfoldable pub is_signal : String → Bool
is_signal on = on == "SIGUSR1" || (on == "SIGUSR2" || on == "SIGHUP")

unfoldable pub is_moment : String → Bool
unfolding is_signal
is_moment on = is_signal on || (on == "start" || (on == "ready" || on == "stop"))

-- %q of a text without quotes, backslashes and control characters.
unfoldable pub quoted : String → String
quoted s = concat ("\"" ∷ s ∷ "\"" ∷ [])

-- params["ref"] = step.Ref on a copy of the params
unfoldable pub with_ref : Step → Step
with_ref s = if s.ref == "" then s else record s { params = insert "ref" (text s.ref) s.params }

unfoldable pub unknown_action : ℕ → Step → String
unfolding quoted
unknown_action i s =
    concat
      ("workflow: trigger " ∷ itoa i ∷ " (" ∷ s.name ∷ "): unknown action " ∷ quoted s.action ∷ [])

-- loaded = all, where there is no error
unfoldable pub assign :
    {S : Type 0}
    → Result (List (BoundTrigger S))
    → List (BoundTrigger S)
    → Option String × List (BoundTrigger S)
assign (ok all) loaded = (none, all)
assign (err e) loaded = (some e, loaded)

module _ {S : Type 0} (actions : Map (Action S)) where
  -- step.run = actions[step.Action], then the ref.
  unfoldable pub load_step : ℕ → Step → Option (Action S) → Result (BoundStep S)
  unfolding with_ref unknown_action
  load_step i s none = err (unknown_action i s)
  load_step i s (some a) = ok (record { step = with_ref s; perform = a })

  -- The loop over the steps of trigger i.
  unfoldable pub load_steps : ℕ → List Step → Result (List (BoundStep S))
  unfolding load_step
  load_steps i [] = ok []
  load_steps i (s ∷ rest) =
      let others = load_steps i rest in
      load_step i s (lookup s.action actions) >>= λ b. others >>= λ bs. ok (b ∷ bs)

  -- A trigger has steps.
  unfoldable pub load_bound : ℕ → String → List Step → Result (BoundTrigger S)
  unfolding load_steps
  load_bound i on [] = err (concat ("workflow: trigger " ∷ itoa i ∷ ": no steps" ∷ []))
  load_bound i on (s ∷ rest) =
      load_steps i (s ∷ rest) >>= λ bs. ok (record { moment = on; bound = bs })

  -- One trigger: its moment is known, and then the rest.
  unfoldable pub load_trigger : ℕ → Trigger → Result (BoundTrigger S)
  unfolding load_bound is_moment quoted
  load_trigger i t =
      let on = or_else t.on "start" in
      if is_moment on
      then load_bound i on t.steps
      else err (concat ("workflow: trigger " ∷ itoa i ∷ ": unknown " ∷ quoted on ∷ []))

  -- The loop over the triggers.
  unfoldable pub load_triggers : ℕ → List Trigger → Result (List (BoundTrigger S))
  unfolding load_trigger
  load_triggers i [] = ok []
  load_triggers i (t ∷ ts) =
      let others = load_triggers (i + 1) ts in
      load_trigger i t >>= λ b. others >>= λ bs. ok (b ∷ bs)

  unfoldable pub load_tasks : List Trigger → Result (List (BoundTrigger S))
  unfolding load_triggers
  load_tasks [] = err "workflow: no tasks"
  load_tasks (t ∷ ts) = load_triggers 1 (t ∷ ts)

  abbrev in_reading : Result String → Result String
  in_reading (ok file) = ok file
  in_reading (err e) = err (concat ("workflow: read: " ∷ e ∷ []))

  abbrev in_parsing : Result (List Trigger) → Result (List Trigger)
  in_parsing (ok doc) = ok doc
  in_parsing (err e) = err (concat ("workflow: parse: " ∷ e ∷ []))

  -- The document of a file: `read` is os.ReadFile's answer and `decode` the YAML decoder with
  -- KnownFields.
  unfoldable pub document :
      Result String → (String → Result (List Trigger)) → Result (List (BoundTrigger S))
  unfolding load_tasks
  document read decode =
      in_reading read >>= λ file. in_parsing (decode file) >>= λ doc. load_tasks doc

  -- Load: the error, nil where there is none, and the value of `loaded`.
  unfoldable pub load :
      Result String
      → (String → Result (List Trigger))
      → List (BoundTrigger S)
      → Option String × List (BoundTrigger S)
  unfolding document assign
  load read decode loaded = assign (document read decode) loaded

-- shell.exec: `now` and `during` are as in servers.Run.
unfoldable pub exec : Net → ℕ → Others → Action Job
exec net now during params j =
    if trim_space (str params "command") == ""
    then (record { status = 400; body = none; message = "command is required" }, j)
    else run net now during (record (Tasks.new process_kind Tasks.child) { id = str params "ref" })
        ("sh" ∷ "-c" ∷ str params "command" ∷ []) j
