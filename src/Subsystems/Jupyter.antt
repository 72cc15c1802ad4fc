-- ===== src/Subsystems/Jupyter.antt =====
-- subsystems/jupyter/jupyter.go
use linkspan.Base.{
  ℕ, String, Bool, true, false, Option, none, some, List, [], ◌∷◌, Map, Result, ok, err, concat,
  or_else, if◌then◌else◌, ◌==◌, nat_eq,
}
use linkspan.Go.Strconv.{itoa}
use linkspan.Install.{Platform, dir, bin}
use linkspan.Router.{Action, Params, Reply, Router, str, new}
use linkspan.Servers.{Job, select_action, serve, stop}
use linkspan.Tasks as Tasks
use linkspan.Tasks.{Net, Task}

abbrev pub kind : String
kind = "jupyter"

unfoldable pub env_dir : Platform → String
unfolding dir
env_dir p = concat (dir p ∷ "/jupyter-env" ∷ [])

-- One step of setup: its name and its command.
pub record SetupStep : Type 0 where
  pub name : String
  pub argv : List String

abbrev pub install_uv : SetupStep
install_uv = record {
  name = "install uv";
  argv = "sh" ∷ "-c" ∷ "curl -LsSf https://astral.sh/uv/install.sh | sh" ∷ [];
}

unfoldable pub build_steps : Platform → List SetupStep
unfolding env_dir bin
build_steps p =
    record {
      name = "create environment";
      argv =
          bin p "uv"
          ∷ "venv"
          ∷ "--quiet"
          ∷ "--allow-existing"
          ∷ "--python"
          ∷ "3.12"
          ∷ env_dir p
          ∷ [];
    }
    ∷ record {
      name = "install packages";
      argv =
          bin p "uv"
          ∷ "pip"
          ∷ "install"
          ∷ "--quiet"
          ∷ "--python"
          ∷ concat (env_dir p ∷ "/bin/python" ∷ [])
          ∷ "jupyter-server"
          ∷ "ipykernel"
          ∷ "jupyter-server-terminals"
          ∷ [];
    }
    ∷ []

-- Where uv is there already, its own step is left out.
unfoldable pub setup_steps : Platform → Bool → List SetupStep
unfolding build_steps
setup_steps p true = build_steps p
setup_steps p false = install_uv ∷ build_steps p

-- The loop over the steps: `run` is tasks.Exec of a command. The reply, and the names of the steps that ran.
abbrev pub step_failed : String → String → Reply
step_failed name e = record { status = 500; body = none; message = concat (name ∷ ": " ∷ e ∷ []) }

abbrev pub done : Reply
done = record { status = 200; body = none; message = "" }

unfoldable pub run_setup : (List String → Option String) → List SetupStep → Reply × List String
run_setup run [] = (done, [])
run_setup run (step ∷ steps) =
    let rest = run_setup run steps in
    elim (run step.argv) [
      | none ↦ (rest.0, step.name ∷ rest.1)
      | some e ↦ (step_failed step.name e, step.name ∷ [])
    ]

unfoldable pub setup : Platform → Bool → (List String → Option String) → Reply × List String
unfolding run_setup setup_steps
setup p has_uv run = run_setup run (setup_steps p has_uv)

-- cmp.Or(params.token, $JUPYTER_TOKEN, newToken())
unfoldable pub token : Params → String → String → String
token params inherited minted = or_else (or_else (str params "token") inherited) minted

unfoldable pub server_task : Params → String → String → Task
unfolding token
server_task params inherited minted = record (Tasks.new kind Tasks.spawn) {
  id = str params "ref";
  addr = str params "addr";
  attrs = ("root_dir", str params "root_dir") ∷ ("token", token params inherited minted) ∷ [];
}

-- Spawn: setup, and then the arguments of the server on a port.
unfoldable pub command : Platform → ℕ → List String
unfolding env_dir
command p port =
    concat (env_dir p ∷ "/bin/python" ∷ [])
    ∷ "-m"
    ∷ "jupyter_server"
    ∷ "--no-browser"
    ∷ "--ip=127.0.0.1"
    ∷ concat ("--port=" ∷ itoa port ∷ [])
    ∷ "--port-retries=0"
    ∷ "--ServerApp.allow_origin=*"
    ∷ "--ContentsManager.allow_hidden=True"
    ∷ []

unfoldable pub spawned : Platform → Bool → (List String → Option String) → ℕ → Result (List String)
unfolding setup command
spawned p has_uv run port =
    if (setup p has_uv run).0.status == 200
    then ok (command p port)
    else err (setup p has_uv run).0.message

unfoldable pub start_server : Net → String → String → Action Job
unfolding server_task
start_server net inherited minted params j = serve net (server_task params inherited minted) j

-- setup as an action; it changes nothing that a Job holds.
abbrev pub setup_action : Reply → Action Job
setup_action answer params j = (answer, j)

unfoldable pub actions : Reply → Net → String → String → Map (Action Job)
unfolding start_server
actions answer net inherited minted =
    ("setup", setup_action answer)
    ∷ ("sessions.select", select_action kind)
    ∷ ("sessions.start", start_server net inherited minted)
    ∷ ("sessions.stop", stop)
    ∷ []

unfoldable pub router : Reply → Net → String → String → Router Job
unfolding start_server
router answer net inherited minted = new "/jupyter" (
    ("POST /setup", setup_action answer)
    ∷ ("GET /sessions", select_action kind)
    ∷ ("POST /sessions", start_server net inherited minted)
    ∷ ("DELETE /sessions/{id}", stop)
    ∷ [])
