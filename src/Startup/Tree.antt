-- ===== src/Startup/Tree.antt =====
-- main.go: the table of the subsystems, and the handler of the API over it.
use linkspan.Base.{ℕ, String, Option, some, List, [], ◌∷◌, Map}
use linkspan.Base.Json.{Json, text, of_map}
use linkspan.Go.Mux.{Routed, routed, not_allowed, not_found, path_of, path_value, find_handler}
use linkspan.Install.{Platform}
use linkspan.Router.{Action, Router, Reply, Decoded, Handled, handle}
use linkspan.Router as Router
use linkspan.Servers.{Job, Others}
use linkspan.Tasks.{Net}
use linkspan.Workflow.{exec}
use linkspan.Subsystems.Checkpoint.{Site}
use linkspan.Subsystems.Resume.{Criu}
use linkspan.Subsystems.Resume as Resume
use linkspan.Subsystems.Filesystem
use linkspan.Subsystems.Jupyter
use linkspan.Subsystems.Terminal
use linkspan.Subsystems.Vscode
use linkspan.Startup.Defs.{Subsystem, routes, all_actions}

-- What the packages take of the node: the kernel's answers, the parser of authorized keys, the reply of
-- Jupyter's setup with the token inherited and the one minted, CRIU, and for shell.exec the clock and what
-- the other goroutines do while it waits.
pub record NodeAnswers : Type 0 where
  pub platform : Platform
  pub net : Net
  pub parse_key : String → Option (List String)
  pub setup : Reply
  pub inherited : String
  pub minted : String
  pub criu : Criu
  pub now : ℕ
  pub during : Others

-- An action of the registry, on the state that the checkpoints are part of.
abbrev pub on_site : Action Job → Action Site
on_site a params s = let (reply, j) = a params s.job in (reply, record s { job = j })

abbrev pub on_site_each : Map (Action Job) → Map (Action Site)
on_site_each [] = []
on_site_each ((name, a) ∷ more) = (name, on_site a) ∷ on_site_each more

abbrev pub site_router : Router Job → Router Site
site_router r = record { prefix = r.prefix; routes = on_site_each r.routes }

module _ (n : NodeAnswers) where
  -- workflow.Actions and workflow.Router
  unfoldable pub workflow_actions : Map (Action Job)
  unfolding exec
  workflow_actions = ("shell.exec", exec n.net n.now n.during) ∷ []

  unfoldable pub workflow_router : Router Job
  unfolding exec Router.new
  workflow_router = Router.new "/workflow" (("POST /shell/exec", exec n.net n.now n.during) ∷ [])

  -- subsystems
  unfoldable pub subsystems : List (Subsystem Site)
  unfolding workflow_router Vscode.router Vscode.actions Jupyter.router Jupyter.actions
      Terminal.router Terminal.actions Filesystem.router Filesystem.actions Resume.router
      Resume.actions
  subsystems =
      record { name = "workflow"; router = site_router workflow_router; actions = [] }
      ∷ record {
        name = "vscode";
        router = site_router (Vscode.router n.parse_key n.net);
        actions = on_site_each (Vscode.actions n.parse_key n.net);
      }
      ∷ record {
        name = "jupyter";
        router = site_router (Jupyter.router n.setup n.net n.inherited n.minted);
        actions = on_site_each (Jupyter.actions n.setup n.net n.inherited n.minted);
      }
      ∷ record {
        name = "terminal";
        router = site_router (Terminal.router n.platform n.net);
        actions = on_site_each (Terminal.actions n.platform n.net);
      }
      ∷ record { name = "filesystem"; router = Filesystem.router; actions = Filesystem.actions }
      ∷ record {
        name = "checkpoint";
        router = Resume.router n.platform n.criu;
        actions = Resume.actions n.platform n.criu;
      }
      ∷ []

  -- actions
  unfoldable pub workflow_table : Map (Action Site)
  unfolding all_actions subsystems workflow_actions
  workflow_table = all_actions subsystems (on_site_each workflow_actions)

  -- The two actions of the root; `latest` is usage.Latest() as JSON.
  abbrev pub answer_200 : Json → Action Site
  answer_200 body params s = (record { status = 200; body = some body; message = "" }, s)

  abbrev pub health : Action Site
  health = answer_200 (of_map (("status", text "ok") ∷ []))

  unfoldable pub tree : Json → Router Site
  unfolding routes subsystems
  tree latest = routes health (answer_200 latest) subsystems

-- What the mux of startAll hands a request to.
pub data Endpoint : Type 0 where
  api : Endpoint
  forwarding : Endpoint

abbrev pub forward_pattern : String
forward_pattern = "GET /api/v1/forward/{port}"

abbrev pub api_mux : Map Endpoint
api_mux = ("/", api) ∷ (forward_pattern, forwarding) ∷ []

-- A request is handled by the tree, or goes to forward.Stream with the port of its path.
pub data Served : Type 0 where
  handled : Handled Site → Served
  streams : String → Served

unfoldable pub served : Handled Site → Routed Endpoint → Served
unfolding path_value
served h (routed p api values) = handled h
served h (routed p forwarding values) = streams (path_value "port" p.segments values)
served h (not_allowed methods) = handled h
served h not_found = handled h

-- The handler of the API's servers; "/" takes every other path, so the two last answers never come.
unfoldable pub serve_api : NodeAnswers → Json → String → String → Decoded → Site → Served
unfolding served tree handle find_handler path_of
serve_api n latest method path body s =
    served (handle (tree n latest) method path body s) (find_handler api_mux method (path_of path))
