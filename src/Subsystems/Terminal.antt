-- ===== src/Subsystems/Terminal.antt =====
-- subsystems/terminal/terminal.go
use linkspan.Base.{ℕ, String, none, List, [], ◌∷◌, Map, Result, ok, err, concat, or_else}
use linkspan.Go.Strconv.{itoa}
use linkspan.Install.{Platform, asset, bin}
use linkspan.Router.{Action, Params, Router, str, new}
use linkspan.Servers.{Job, select_action, serve, stop}
use linkspan.Tasks as Tasks
use linkspan.Tasks.{Net, Task}

abbrev pub kind : String
kind = "terminal"

abbrev pub assets : Map String
assets = ("linux/amd64", "ttyd.x86_64") ∷ ("linux/arm64", "ttyd.aarch64") ∷ []

-- The task, whose Spawn is `command` behind install.Fetch of `source`.
unfoldable pub server_task : Params → Task
server_task params = record (Tasks.new kind Tasks.spawn) {
  id = str params "ref";
  attrs = ("cwd", str params "cwd") ∷ [];
}

unfoldable pub source : String → String
source file =
    concat ("https://github.com/tsl0922/ttyd/releases/download/" ∷ "1.7.7" ∷ "/" ∷ file ∷ [])

-- The arguments of ttyd on a port: `shell` is $SHELL.
unfoldable pub command : Platform → ℕ → String → List String
unfolding bin
command p port shell =
    bin p "ttyd" ∷ "-p" ∷ itoa port ∷ "-i" ∷ "127.0.0.1" ∷ "-W" ∷ or_else shell "sh" ∷ "-l" ∷ []

abbrev pub served : Result String → Net → Action Job
served (err e) net params j = (record { status = 501; body = none; message = e }, j)
served (ok file) net params j = serve net (server_task params) j

unfoldable pub start_server : Platform → Net → Action Job
unfolding server_task asset
start_server p net params j = served (asset p assets "ttyd") net params j

unfoldable pub actions : Platform → Net → Map (Action Job)
unfolding start_server
actions p net =
    ("sessions.select", select_action kind)
    ∷ ("sessions.start", start_server p net)
    ∷ ("sessions.stop", stop)
    ∷ []

unfoldable pub router : Platform → Net → Router Job
unfolding start_server
router p net = new "/terminal" (
    ("GET /sessions", select_action kind)
    ∷ ("POST /sessions", start_server p net)
    ∷ ("DELETE /sessions/{id}", stop)
    ∷ [])
