-- ===== src/Tasks/Types.antt =====
-- internal/tasks/tasks.go: a task, the registry of tasks, and what the operating system shows.
use linkspan.Base.{ℕ, String, Bool, true, false, Option, none, List, [], Map, string_eq}

-- `unset` is the empty State of a task that is not started.
pub data State : Type 0 where
  unset starting running failed exited : State

unfoldable pub state_text : State → String
state_text unset = ""
state_text starting = "starting"
state_text running = "running"
state_text failed = "failed"
state_text exited = "exited"

-- Which of Run, Server, Spawn and Child is set.
pub data Work : Type 0 where
  run server spawn child : Work

-- Where the task's goroutine stands: its Run has not returned; the deferred function has written the
-- state, and holds err; it has offered err to Failed; it has closed done.
pub data Phase : Type 0 where
  working : Phase
  settled : Option String → Phase
  reported : Phase
  ended : Phase

-- A Task in memory. `attrs` is what Attrs answers, which no caller computes from its argument;
-- `listening`: ln is set and not closed; `cancelled`: ctx.Err() is not nil; `on_cancel`: the process
-- groups that cancellation kills; `process`: cmd.Process.Pid once the command is started; `guarded`:
-- start of exec.go has returned behind it.
pub record Task : Type 0 where
  pub id : String
  pub kind : String
  pub addr : String
  pub state : State
  pub error : String
  pub attrs : Map String
  pub work : Work
  pub pid : ℕ
  pub listening : Bool
  pub cancelled : Bool
  pub on_cancel : List ℕ
  pub process : Option ℕ
  pub guarded : Bool
  pub phase : Phase

-- The composite literal tasks.Task{Kind: kind, ...} with one kind of work.
abbrev pub new : String → Work → Task
new k w = record {
  id = "";
  kind = k;
  addr = "";
  state = unset;
  error = "";
  attrs = [];
  work = w;
  pid = 0;
  listening = false;
  cancelled = false;
  on_cancel = [];
  process = none;
  guarded = false;
  phase = working;
}

-- tasks.Task{}
abbrev pub zero_task : Task
zero_task = new "" run

-- A file where a unix socket may be: a socket with its mode, or anything else.
pub data Node : Type 0 where
  socket : ℕ → Node
  other : Node

-- Tasks live in cells `heap 0` to `heap (next - 1)`, which pointers name; `registry` is the map of
-- that name; `fatal` is the buffer of the channel Failed; `stopping` holds what Stop and StopAll have
-- unlisted and not yet cancelled; `firing` the process groups whose kill is called, in a goroutine of its
-- own, and not yet made; `killed` those that were sent SIGKILL.
pub record World : Type 0 where
  pub heap : ℕ → Task
  pub next : ℕ
  pub registry : Map ℕ
  pub fatal : Option String
  pub stopping : List ℕ
  pub firing : List ℕ
  pub killed : List ℕ
  pub files : Map Node

abbrev pub empty_world : World
empty_world = record {
  heap = λ _. zero_task;
  next = 0;
  registry = [];
  fatal = none;
  stopping = [];
  firing = [];
  killed = [];
  files = [];
}

-- cmp.Or on states
abbrev pub or_state : State → State → State
or_state unset s = s
or_state s _ = s

abbrev pub state_beq : State → State → Bool
state_beq unset unset = true
state_beq starting starting = true
state_beq running running = true
state_beq failed failed = true
state_beq exited exited = true
state_beq _ _ = false

abbrev pub is_process : Work → Bool
is_process spawn = true
is_process child = true
is_process _ = false
