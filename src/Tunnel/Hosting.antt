-- ===== src/Tunnel/Hosting.antt =====
-- internal/tunnel/devtunnel/devtunnel.go: Host, over internal/install and tasks.Exec.
use linkspan.Base.{ℕ, String, Option, none, some, List, [], ◌∷◌, ◌++◌, Map, Result, ok, err, concat}
use linkspan.Install.{Platform, Answers, Outcome, asset, bin, fetch, fetch_lines}
use linkspan.Tunnel.Transports.{Tunnel, write_all}

abbrev pub assets : Map String
assets =
    ("linux/amd64", "linux-x64")
    ∷ ("linux/arm64", "linux-arm64")
    ∷ ("darwin/amd64", "osx-x64")
    ∷ ("darwin/arm64", "osx-arm64")
    ∷ []

abbrev pub cli_base : String
cli_base = "https://tunnelsassetsprod.blob.core.windows.net/cli/"

unfoldable pub cli_url : String → String
unfolding concat
cli_url name = concat (cli_base ∷ name ∷ "-devtunnel" ∷ [])

unfoldable pub qualified_id : Tunnel → String
unfolding concat
qualified_id t = concat (t.id ∷ "." ∷ t.cluster ∷ [])

unfoldable pub host_argv : String → Tunnel → List String
unfolding qualified_id
host_argv path t = path ∷ "host" ∷ qualified_id t ∷ "--access-token" ∷ t.token ∷ []

unfoldable pub running_line : String → Tunnel → String
unfolding qualified_id concat
running_line path t =
    concat
      ("devtunnel: running " ∷ path ∷ " host " ∷ qualified_id t ∷ " --access-token [redacted]" ∷ [])

abbrev pub exit_text : Option String → String
exit_text none = "exit status 0"
exit_text (some e) = e

-- What a host process does: what it writes to its two outputs, in order, and what Exec answers.
pub record HostProcess : Type 0 where
  pub writes : List (List ℕ)
  pub result : Option String

-- What is left behind Host: its error, the files, and the arguments of what it ran and the lines logged, Fetch's included.
pub record Hosted : Type 0 where
  pub error : String
  pub files : Map String
  pub ran : Option (List String)
  pub logged : List String

-- %q of the captured output is the argument `quoted`.
module _ (p : Platform) (a : Answers) (exec : List String → HostProcess) (quoted : List ℕ → String)
    (t : Tunnel) where
  unfoldable pub exec_host : List String → Map String → Hosted
  unfolding write_all host_argv running_line concat bin
  exec_host lines files =
      let process = exec (host_argv (bin p "devtunnel") t) in
      record {
        error = concat (
            "host process exited (output="
            ∷ quoted (write_all process.writes [])
            ∷ "): "
            ∷ exit_text process.result
            ∷ []);
        files = files;
        ran = some (host_argv (bin p "devtunnel") t);
        logged = lines ++ (running_line (bin p "devtunnel") t ∷ []);
      }

  unfoldable pub fetched_host : List String → Outcome → Hosted
  unfolding exec_host
  fetched_host lines (some e, files) = record {
    error = e;
    files = files;
    ran = none;
    logged = lines;
  }
  fetched_host lines (none, files) = exec_host lines files

  unfoldable pub host_asset : Map String → Result String → Hosted
  unfolding fetched_host fetch fetch_lines cli_url bin
  host_asset files (err e) = record { error = e; files = files; ran = none; logged = [] }
  host_asset files (ok name) =
      fetched_host (fetch_lines a (bin p "devtunnel") (cli_url name) files)
        (fetch a (bin p "devtunnel") (cli_url name) files)

  -- Host
  unfoldable pub host : Map String → Hosted
  unfolding host_asset asset
  host files = host_asset files (asset p assets "devtunnel")
