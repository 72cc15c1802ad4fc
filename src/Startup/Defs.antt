-- ===== src/Startup/Defs.antt =====
-- main.go
use linkspan.Base.{
  ℕ, String, Bool, ◌||◌, Option, none, some, List, [], ◌∷◌, ◌++◌, Map, map, insert, Result, ok, err,
  concat, ◌==◌, string_eq, if◌then◌else◌,
}
use linkspan.Base.Int.{ℤ}
use linkspan.Go.Strconv.{format_int}
use linkspan.Router.{Action, Router, add}
use linkspan.Router as Router
use linkspan.Tasks as Tasks
use linkspan.Tasks.{Net, Task, World, start}
use linkspan.Tunnel.{Carrier}

pub record Options : Type 0 where
  pub print_version : Bool
  pub tunnel_enable : Bool
  pub tunnel_mode : String
  pub tunnel_args : Map String
  pub port : ℤ
  pub port_set : Bool
  pub socket : String
  pub workflow : String

pub record Subsystem (S : Type 0) : Type 0 where
  pub name : String
  pub router : Router S
  pub actions : Map (Action S)

module _ {S : Type 0} where
  -- routes: the root, with its own two actions, and every subsystem's router mounted in it.
  unfoldable pub mount_each : List (Subsystem S) → Router S → Router S
  unfolding add
  mount_each [] root = root
  mount_each (sub ∷ subs) root = mount_each subs (Router.mount root sub.router)

  unfoldable pub routes : Action S → Action S → List (Subsystem S) → Router S
  unfolding mount_each add
  routes health usage subs =
      mount_each subs (Router.new "/api/v1" (("GET /health", health) ∷ ("GET /usage", usage) ∷ []))

  -- actions: the workflow's own, and each subsystem's behind its name.
  unfoldable pub name_actions : String → Map (Action S) → Map (Action S) → Map (Action S)
  unfolding insert
  name_actions name [] out = out
  name_actions name ((action, a) ∷ more) out =
      name_actions name more (insert (concat (name ∷ "." ∷ action ∷ [])) a out)

  unfoldable pub all_actions : List (Subsystem S) → Map (Action S) → Map (Action S)
  unfolding name_actions
  all_actions [] out = out
  all_actions (sub ∷ subs) out = all_actions subs (name_actions sub.name sub.actions out)

-- The addresses of the API.
unfoldable pub port_addrs : Options → List String
unfolding concat
port_addrs o =
    if o.port_set || o.socket == "" then concat ("127.0.0.1:" ∷ format_int o.port ∷ []) ∷ [] else []

unfoldable pub socket_addrs : Options → List String
socket_addrs o = if o.socket == "" then [] else o.socket ∷ []

unfoldable pub addrs : Options → List String
unfolding port_addrs socket_addrs
addrs o = port_addrs o ++ socket_addrs o

abbrev pub http_task : String → Task
http_task addr = record (Tasks.new "http" Tasks.server) { addr = addr }

abbrev pub carried_task : Carrier → Task
carried_task c = c.task

unfoldable pub workflow_tasks : Options → List Task
workflow_tasks o = if o.workflow == "" then [] else Tasks.new "workflow" Tasks.run ∷ []

-- Every task, in the order in which they start.
unfoldable pub tasks_of : Options → List Carrier → List Task
unfolding addrs workflow_tasks
tasks_of o tunnels =
    map http_task (addrs o)
    ++ (Tasks.new "usage" Tasks.run ∷ (map carried_task tunnels ++ workflow_tasks o))

-- One start, and the rest where it has no error.
abbrev pub and_then : Result Task × World → Option String × World → Option String × World
and_then (ok t, w) rest = rest
and_then (err e, w) rest = (some e, w)

unfoldable pub start_each : Net → List Task → World → Option String × World
unfolding start
start_each net [] w = (none, w)
start_each net (t ∷ ts) w = and_then (start net t w) (start_each net ts (start net t w).1)

-- Whether the workflow document is refused: `load` is the error of workflow.Load.
unfoldable pub load_error : Options → Option String → Option String
load_error o load = if o.workflow == "" then none else load

abbrev pub start_valid : Net → List Task → Option String → World → Option String × World
start_valid net ts (some e) w = (some e, w)
start_valid net ts none w = start_each net ts w

abbrev pub start_parsed :
    Net → Options → Result (List Carrier) → Option String → World → Option String × World
start_parsed net o (err e) load w = (some e, w)
start_parsed net o (ok tunnels) load w = start_valid net (tasks_of o tunnels) (load_error o load) w

-- startAll: `tunnels` is the answer of tunnel.Parse.
unfoldable pub start_all :
    Net → Options → Result (List Carrier) → Option String → World → Option String × World
unfolding start_each tasks_of load_error
start_all net o tunnels load w = start_parsed net o tunnels load w

-- The exit code of main: an error of startAll ends it; else a fatal error of a task, or an error of the
-- workflow's stop steps, which run in either case.
unfoldable pub exit_code : Option String → Option String → Option String → ℕ
exit_code (some e) failed stopped = 1
exit_code none (some e) stopped = 1
exit_code none none (some e) = 1
exit_code none none none = 0
