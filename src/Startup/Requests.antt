-- ===== src/Startup/Requests.antt =====
-- A concrete node, and requests to its API.
use linkspan.Base.{false, ◌≡◌, refl, inl, inr, none, [], ◌∷◌, insert, ok, string_eq, lookup, some}
use linkspan.Base.Json.{null}
use linkspan.Go.Strings.{cut, split}
use linkspan.Go.Mux.{pattern_of, segment_of, path_of, path_value}
use linkspan.Go.Matching.{matches}
use linkspan.Router.{Decoded, absent, behind, answered}
use linkspan.Router as Router
use linkspan.Servers.{stop}
use linkspan.Tasks.{Net, empty_world}
use linkspan.Subsystems.Checkpoint.{Site}
use linkspan.Subsystems.Terminal
use linkspan.Startup.{
  Subsystem, NodeAnswers, on_site, on_site_each, site_router, subsystems, serve_api, handled,
  workflow_table,
}
use linkspan.Startup.Actions.{dotted}
use linkspan.Startup.Offers.{workflow_table-found}
use linkspan.Startup.Serving.{serve_api-answered, root_prefix}

abbrev network : Net
network = record {
  tcp = λ a. ok "127.0.0.1:8080";
  unix = λ p. none;
  remove = λ p. none;
  chmod = λ p. none;
}

abbrev answers : NodeAnswers
answers = record {
  platform = record { os = "linux"; arch = "amd64"; home = "/home/ada" };
  net = network;
  parse_key = λ s. none;
  setup = record { status = 200; body = none; message = "" };
  inherited = "";
  minted = "c2VjcmV0";
  criu = record {
    path = "";
    is_root = false;
    decode = some;
    answers = record {
      links = λ pid fd. "/dev/null";
      mkdir = none;
      dump = none;
      write = none;
      rename = none;
      during = λ j. j;
    };
    net = network;
    now = 0;
    during = ((λ j. j), (λ j. j));
  };
  now = 0;
  during = ((λ j. j), (λ j. j));
}

abbrev terminals : Subsystem Site
unfolding Terminal.router Terminal.actions
terminals = record {
  name = "terminal";
  router = site_router (Terminal.router answers.platform answers.net);
  actions = on_site_each (Terminal.actions answers.platform answers.net);
}

abbrev idle : Site
idle = record { job = record { world = empty_world; pausing = [] }; folders = [] }

serve_api-answered_example :
    serve_api answers null
      (pattern_of (behind root_prefix "DELETE /terminal/sessions/{id}")).method
      "/api/v1/terminal/sessions/t-9"
      absent
      idle
    ≡ handled (
        answered
          (on_site stop)
          absent
          (path_value "id"
            (pattern_of (behind root_prefix "DELETE /terminal/sessions/{id}")).segments
            ("t-9" ∷ []))
          idle)
unfolding subsystems Terminal.router Terminal.actions Router.new Router.add_routes behind insert cut
    split pattern_of segment_of path_of matches
serve_api-answered_example =
    serve_api-answered answers null terminals "DELETE /terminal/sessions/{id}" (on_site stop)
      "/api/v1/terminal/sessions/t-9" ("t-9" ∷ []) absent idle (inr (inr (inr (inl refl))))
      (inr (inr (inl refl))) refl

workflow_table-found_example :
    lookup (dotted "terminal" "sessions.stop") (workflow_table answers) ≡ some (on_site stop)
unfolding subsystems Terminal.router Terminal.actions lookup
workflow_table-found_example =
    workflow_table-found answers terminals "sessions.stop" (on_site stop)
      (inr (inr (inr (inl refl)))) refl
