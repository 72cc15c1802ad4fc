-- ===== src/Subsystems/Resume.antt =====
-- subsystems/checkpoint/checkpoint.go: what resume does, and the actions and routes of the package.
use linkspan.Base.{
  ℕ, String, Bool, Option, none, some, List, [], ◌∷◌, ◌++◌, Map, lookup, concat, ◌==◌, string_eq,
  nat_eq, if◌then◌else◌,
}
use linkspan.Go.Strconv.{itoa}
use linkspan.Install.{Platform}
use linkspan.Router.{Params, Reply, str}
use linkspan.Servers.{Others, process_kind, run}
use linkspan.Tasks as Tasks
use linkspan.Tasks.{Net, Task, state_beq, running, select}
use linkspan.Router.{Action, Router, new}
use linkspan.Subsystems.Checkpoint.{
  Snapshot, Folder, Site, Answers, criu_args, images_dir, refuse, pause,
}

abbrev pub decoded : (Snapshot → Option Snapshot) → Option Snapshot → Option Snapshot
decoded decode none = none
decoded decode (some r) = decode r

-- os.ReadFile and json.Unmarshal: `decode` is what json.Unmarshal makes of the text that json.Marshal made of
-- a snapshot, none where it fails.
unfoldable pub read_snapshot : (Snapshot → Option Snapshot) → String → Map Folder → Option Snapshot
unfolding lookup
read_snapshot decode images folders = elim (lookup images folders) [
  | none ↦ none
  | some f ↦ decoded decode f.snapshot
]

-- "--inherit-fd fd[n]:name", where there is a name
unfoldable pub inherit : ℕ → String → List String
inherit fd name =
    if name == "" then [] else "--inherit-fd" ∷ concat ("fd[" ∷ itoa fd ∷ "]:" ∷ name ∷ []) ∷ []

unfoldable pub restore_argv : String → Bool → String → Snapshot → List String
unfolding inherit criu_args
restore_argv criu is_root images r =
    (criu ∷ "restore" ∷ "--images-dir" ∷ images ∷ criu_args is_root)
    ++ (inherit 1 r.stdout ++ inherit 2 r.stderr)

unfoldable pub resumed_task : String → Snapshot → Task
resumed_task id r = record (Tasks.new process_kind Tasks.child) { id = id; pid = r.pid }

-- resume: `now` and `during` are as in servers.Run.
unfoldable pub resume_with :
    Platform → String → Bool → Net → ℕ → Others → String → Option Snapshot → Site → Reply × Site
unfolding restore_argv resumed_task images_dir
resume_with p criu is_root net now during id none s =
    (refuse 404 (concat ("no checkpoint " ∷ id ∷ [])), s)
resume_with p criu is_root net now during id (some r) s =
    let (answer, j) =
      run net now during (resumed_task id r) (restore_argv criu is_root (images_dir p id) r)
        s.job in
    (answer, record s { job = j })

unfoldable pub resume :
    Platform
    → String
    → Bool
    → (Snapshot → Option Snapshot)
    → Net
    → ℕ
    → Others
    → Params
    → Site
    → Reply × Site
unfolding resume_with read_snapshot
resume p criu is_root decode net now during params s =
    if criu == ""
    then (refuse 501 "criu is not on PATH", s)
    else resume_with p criu is_root net now during (str params "id")
        (read_snapshot decode (images_dir p (str params "id")) s.folders) s

-- What the node answers to the two actions: criu's path, whether Linkspan is root, what encoding/json
-- reads back of a snapshot, and what pause and resume take of the kernel, the clock and the other
-- goroutines.
pub record Criu : Type 0 where
  pub path : String
  pub is_root : Bool
  pub decode : Snapshot → Option Snapshot
  pub answers : Answers
  pub net : Net
  pub now : ℕ
  pub during : Others

unfoldable pub resume_action : Platform → Criu → Action Site
unfolding resume
resume_action p c = resume p c.path c.is_root c.decode c.net c.now c.during

-- Actions
unfoldable pub actions : Platform → Criu → Map (Action Site)
unfolding resume_action pause
actions p c = ("pause", pause p c.path c.answers) ∷ ("resume", resume_action p c) ∷ []

-- Router
unfoldable pub router : Platform → Criu → Router Site
unfolding resume_action pause
router p c =
    new "/checkpoint"
      (("POST /pause", pause p c.path c.answers) ∷ ("POST /resume", resume_action p c) ∷ [])
