-- ===== src/Subsystems/Vscode.antt =====
-- subsystems/vscode/vscode.go
use linkspan.Base.{
  ℕ, String, ◌&&◌, Option, none, some, List, [], ◌∷◌, Map, Result, ok, err, ◌==◌, string_eq,
  if◌then◌else◌,
}
use linkspan.Base.Json.{Json, text, number, of_map}
use linkspan.Router.{Action, Reply, Router, str, new}
use linkspan.Servers.{Job, select_action}
use linkspan.Tasks as Tasks
use linkspan.Tasks.{Net, Task, state_beq, running, select, start, port}

abbrev pub kind : String
kind = "sshd"

-- The running server that the reference names.
unfoldable pub serving_ref : String → List Task → Option Task
serving_ref ref [] = none
serving_ref ref (t ∷ ts) =
    let rest = serving_ref ref ts in
    if t.id == ref && state_beq t.state running then some t else rest

unfoldable pub endpoint : Task → Json
endpoint t = of_map (("id", text t.id) ∷ ("bind_port", number (port t)) ∷ [])

abbrev pub refuse : ℕ → String → Reply
refuse status message = record { status = status; body = none; message = message }

unfoldable pub server_task : String → Task
server_task ref = record (Tasks.new kind Tasks.server) { id = ref }

unfoldable pub started : Result Task → Reply
unfolding endpoint
started (ok created) = record { status = 201; body = some (endpoint created); message = "" }
started (err e) = record { status = 500; body = none; message = e }

-- Under startMu: the running server of the reference, or a new one.
unfoldable pub serve_ref : Net → String → Option Task → Job → Reply × Job
unfolding started server_task endpoint
serve_ref net ref (some t) j = (record { status = 200; body = some (endpoint t); message = "" }, j)
serve_ref net ref none j =
    let (answer, world) = start net (server_task ref) j.world in
    (started answer, record j { world = world })

-- What ssh.ParseAuthorizedKey answers: an error, or the options in front of the key.
unfoldable pub with_key : Option (List String) → Net → String → Job → Reply × Job
unfolding serve_ref serving_ref
with_key none net ref j = (refuse 400 "authorized_key is missing or invalid", j)
with_key (some (o ∷ options)) net ref j = (refuse 400 "authorized_key options are not supported", j)
with_key (some []) net ref j = serve_ref net ref (serving_ref ref (select kind j.world)) j

unfoldable pub start_server : (String → Option (List String)) → Net → Action Job
unfolding with_key
start_server parse_key net params j =
    with_key (parse_key (str params "authorized_key")) net (str params "ref") j

unfoldable pub actions : (String → Option (List String)) → Net → Map (Action Job)
unfolding start_server
actions parse_key net =
    ("sessions.select", select_action kind) ∷ ("sessions.start", start_server parse_key net) ∷ []

unfoldable pub router : (String → Option (List String)) → Net → Router Job
unfolding start_server
router parse_key net =
    new "/vscode"
      (("GET /sessions", select_action kind) ∷ ("POST /sessions", start_server parse_key net) ∷ [])
