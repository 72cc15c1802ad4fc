-- ===== src/Servers/Defs.antt =====
-- internal/servers/servers.go. The state of all packages is a `Job`; the clock, and what other
-- goroutines do while a call waits, are arguments.
use linkspan.Base.{
  ℕ, String, Bool, false, ◌||◌, Option, none, some, List, [], ◌∷◌, map, Result, ok, err, concat,
  or_else, if◌then◌else◌, ◌==◌, string_eq,
}
use linkspan.Base.Json.{Json, text, of_map, array, items_of}
use linkspan.Go.Strconv.{itoa}
use linkspan.Router.{Action, Reply, str}
use linkspan.Tasks.{
  Task, World, Net, exited, state_beq, zero_task, child, start, select, wait_begin, wait_end,
  stop_begin, marshal_json, initial,
}

-- The registry of internal/tasks and the set `pausing`.
pub record Job : Type 0 where
  pub world : World
  pub pausing : List String

abbrev pub process_kind : String
process_kind = "process"

unfoldable pub object_of : Task → Json
object_of t = of_map (marshal_json t)

-- The list action of one kind.
unfoldable pub select_action : String → Action Job
unfolding object_of
select_action kind params j = (
  record {
    status = 200;
    body = some (array (items_of (map object_of (select kind j.world))));
    message = "";
  },
  j,
)

unfoldable pub join_words : List String → String
join_words [] = ""
join_words (w ∷ []) = w
join_words (w ∷ v ∷ ws) = concat (w ∷ " " ∷ join_words (v ∷ ws) ∷ [])

-- The task of Start: `now` is time.Now().UnixNano().
unfoldable pub process_task : ℕ → List String → Task → Task
unfolding join_words
process_task now argv t = record t {
  id = or_else t.id (concat (initial t.kind ∷ "-" ∷ itoa now ∷ []));
  attrs = ("command", join_words argv) ∷ [];
  work = child;
}

-- created, _ := t.Start()
abbrev created_of : Result Task → Task
created_of (ok t) = t
created_of (err e) = zero_task

unfoldable pub start_process : Net → ℕ → Task → List String → Job → Task × Job
unfolding process_task
start_process net now t argv j =
    let (answer, world) = start net (process_task now argv t) j.world in
    (created_of answer, record j { world = world })

-- Stop, up to <-t.done
unfoldable pub stop : Action Job
stop params j = elim (stop_begin (str params "id") j.world).0 [
  | none ↦ (
    record { status = 404; body = none; message = concat ("unknown id " ∷ str params "id" ∷ []) },
    record j { world = (stop_begin (str params "id") j.world).1 },
  )
  | some h ↦ (
    record {
      status = 200;
      body = some (of_map (("id", text (str params "id")) ∷ ("state", text "stopped") ∷ []));
      message = "";
    },
    record j { world = (stop_begin (str params "id") j.world).1 },
  )
]

unfoldable pub contains : String → List String → Bool
contains s [] = false
contains s (x ∷ xs) = x == s || contains s xs

unfoldable pub remove : String → List String → List String
remove s [] = []
remove s (x ∷ xs) = let rest = remove s xs in if x == s then rest else x ∷ rest

-- Pausing(id, is)
unfoldable pub set_pausing : String → Bool → Job → Job
unfolding remove
set_pausing id is j =
    if is then record j { pausing = id ∷ j.pausing } else record j { pausing = remove id j.pausing }

-- Wait, behind tasks.Wait: pausing.LoadAndDelete(id)
unfoldable pub take_pause : String → Job → Bool × Job
unfolding contains remove
take_pause id j = (contains id j.pausing, record j { pausing = remove id j.pausing })

-- tasks.Wait, whose task `held` was looked up before `during` passed.
unfoldable pub wait_held : Option ℕ → String → Job → Task × Job
wait_held none id j = (zero_task, j)
wait_held (some h) id j = let (t, world) = wait_end id h j.world in (t, record j { world = world })

-- Wait: `during` is what the other goroutines do until the task has ended.
unfoldable pub wait : (Job → Job) → String → Job → Task × Bool × Job
unfolding wait_held take_pause
wait during id j =
    let held = wait_begin id j.world in
    let (ended, j1) = wait_held held id (during j) in
    let (paused, j2) = take_pause id j1 in (ended, paused, j2)

-- The switch of Run.
unfoldable pub run_reply : Task → Bool → Reply
unfolding object_of
run_reply ended paused =
    if paused
    then record { status = 202; body = some (object_of ended); message = "" }
    else if state_beq ended.state exited
    then record { status = 200; body = some (object_of ended); message = "" }
    else record { status = 500; body = none; message = ended.error }

-- What the other goroutines do beside a Run: between its Start and the lookup of its Wait, and while
-- Wait blocks.
abbrev pub Others : Type 0
Others = (Job → Job) × (Job → Job)

unfoldable pub run : Net → ℕ → Others → Task → List String → Job → Reply × Job
run net now others t argv j =
    let (created, j1) = start_process net now t argv j in
    let (ended, paused, j2) = wait others.1 created.id (others.0 j1) in (run_reply ended paused, j2)

-- Serve
unfoldable pub serve_reply : Result Task → Reply
unfolding object_of
serve_reply (ok t) = record { status = 201; body = some (object_of t); message = "" }
serve_reply (err e) = record { status = 500; body = none; message = e }

unfoldable pub serve : Net → Task → Job → Reply × Job
unfolding serve_reply
serve net t j =
    let (answer, world) = start net t j.world in (serve_reply answer, record j { world = world })
