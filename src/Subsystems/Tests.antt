-- ===== src/Subsystems/Tests.antt =====
-- Concrete requests to the subsystems.
use linkspan.Base.{
  String, ◌≡◌, refl, sym, true, Option, none, some, List, [], ◌∷◌, lookup, ok, arith, string_eq,
}
use linkspan.Base.Json.{text}
use linkspan.Install.{Platform}
use linkspan.Router.{Params, str}
use linkspan.Servers.{Job, process_kind}
use linkspan.Tasks as Tasks
use linkspan.Tasks.{Task, World, Net, empty_world, running, entering, prepare, bound, server, start}
use linkspan.Subsystems.Vscode.{start_server, server_task}
use linkspan.Subsystems.Reuse.{start_server-repeats}
use linkspan.Subsystems.Checkpoint.{Site, Answers, images_dir, pause}
use linkspan.Subsystems.Snapshots.{part-ne, pause-keeps}

abbrev net_up : Net
net_up = record {
  tcp = λ a. ok "127.0.0.1:4022";
  unix = λ p. none;
  remove = λ p. none;
  chmod = λ p. none;
}

abbrev idle : Job
idle = record { world = empty_world; pausing = [] }

abbrev mounted : Params
mounted = ("source", text "s3://data") ∷ ("target", text "/data") ∷ []

abbrev valid_key : String → Option (List String)
valid_key key = some []

abbrev editor : Params
editor = ("ref", text "editor") ∷ ("authorized_key", text "ssh-ed25519 AAAA") ∷ []

abbrev editor_task : Task
editor_task = entering (bound "127.0.0.1:4022" (prepare server (server_task "editor")))

start_server-twice :
    ((start_server valid_key net_up editor idle).0.status ≡ 201)
    × ((start_server valid_key net_up editor (start_server valid_key net_up editor idle).1).0.status
        ≡ 200)
    × ((start_server valid_key net_up editor (start_server valid_key net_up editor idle).1).1
        ≡ (start_server valid_key net_up editor idle).1)
unfolding linkspan.Subsystems.Vscode.serving_ref Tasks.select start server_task
    linkspan.Go.HostPort.split_host_port str lookup
start_server-twice =
    start_server-repeats valid_key net_up editor idle editor_task refl refl refl (λ e. cc)

abbrev node : Platform
node = record { os = "linux"; arch = "amd64"; home = "/root" }

abbrev train : Task
train = record (Tasks.new process_kind Tasks.child) {
  id = "train";
  state = running;
  pid = 77;
  process = some 77;
}

abbrev busy : Site
busy = record {
  job = record {
    world = record empty_world { heap = λ h. train; next = 1; registry = ("train", 0) ∷ [] };
    pausing = [];
  };
  folders = [];
}

abbrev dumps : Answers
dumps = record {
  links = λ pid fd. "/tmp/job.out";
  mkdir = none;
  dump = none;
  write = none;
  rename = none;
  during = λ j. j;
}

abbrev of_train : Params
of_train = ("id", text "train") ∷ []

abbrev saved : Site
saved = (pause node "/usr/bin/criu" dumps of_train busy).1

-- An earlier checkpoint, and a criu that fails.
abbrev earlier : Site
earlier = record busy {
  folders =
      ("/root/.cybershuttle/checkpoints/train", record { images = true; snapshot = none }) ∷ [];
}

abbrev refuses : Answers
refuses = record dumps { dump = some "exit status 1" }

refuses-status : (pause node "/usr/bin/criu" refuses of_train earlier).0.status ≡ 500
unfolding pause Tasks.select str
refuses-status = refl

pause-keeps_example :
    lookup (images_dir node "train") (pause node "/usr/bin/criu" refuses of_train earlier).1.folders
    ≡ lookup (images_dir node "train") earlier.folders
unfolding str lookup
pause-keeps_example =
    pause-keeps node "/usr/bin/criu" refuses of_train earlier (images_dir node "train") refl
      (λ e. part-ne (images_dir node "train") (sym e)) (λ e. omega (arith, e, refuses-status))
