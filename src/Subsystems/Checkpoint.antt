-- ===== src/Subsystems/Checkpoint.antt =====
-- subsystems/checkpoint/checkpoint.go
use Prim.Native.String
use linkspan.Base.{
  ℕ, String, Bool, true, false, ◌&&◌, Option, none, some, List, [], ◌∷◌, Map, lookup, insert,
  delete, concat, ◌==◌, string_eq, nat_eq, if◌then◌else◌,
}
use linkspan.Base.Json.{text, of_map}
use linkspan.Go.Strings.{trim_prefix}
use linkspan.Install.{Platform, dir}
use linkspan.Router.{Params, Reply, str}
use linkspan.Servers.{Job, process_kind, set_pausing}
use linkspan.Tasks.{Task, state_beq, running, select}

-- record
pub record Snapshot : Type 0 where
  pub pid : ℕ
  pub stdout : String
  pub stderr : String

-- A folder of checkpoints/: whether it holds CRIU's images, and its file `snapshot`.
pub record Folder : Type 0 where
  pub images : Bool
  pub snapshot : Option Snapshot

pub record Site : Type 0 where
  pub job : Job
  pub folders : Map Folder

unfoldable pub criu_args : Bool → List String
criu_args is_root =
    if is_root
    then "--shell-job" ∷ "--tcp-established" ∷ []
    else "--shell-job" ∷ "--tcp-established" ∷ "--unprivileged" ∷ []

unfoldable pub images_dir : Platform → String → String
unfolding dir concat
images_dir p id = concat (dir p ∷ "/checkpoints/" ∷ id ∷ [])

unfoldable pub part_dir : String → String
part_dir images = String.◌++◌ images ".part"

abbrev pub refuse : ℕ → String → Reply
refuse status message = record { status = status; body = none; message = message }

-- slices.IndexFunc over the listed processes
unfoldable pub running_id : String → List Task → Option Task
running_id id [] = none
running_id id (t ∷ ts) =
    let rest = running_id id ts in if t.id == id && state_beq t.state running then some t else rest

-- What the system answers to pause: the targets of /proc/<pid>/fd/1 and 2; the errors of MkdirAll, of criu
-- dump, of WriteFile and of Rename; and what the rest of the program does while criu runs.
pub record Answers : Type 0 where
  pub links : ℕ → ℕ → String
  pub mkdir : Option String
  pub dump : Option String
  pub write : Option String
  pub rename : Option String
  pub during : Job → Job

unfoldable pub snapshot_of : Answers → Task → Snapshot
unfolding trim_prefix
snapshot_of a t = record {
  pid = t.pid;
  stdout = trim_prefix "/" (a.links t.pid 1);
  stderr = trim_prefix "/" (a.links t.pid 2);
}

abbrev pub empty_folder : Folder
empty_folder = record { images = false; snapshot = none }

-- os.MkdirAll: a folder that is there stays.
unfoldable pub make_folder : String → Map Folder → Map Folder
unfolding lookup insert
make_folder path folders = elim (lookup path folders) [
  | none ↦ insert path empty_folder folders
  | some f ↦ folders
]

unfoldable pub change_folder : (Folder → Folder) → String → Map Folder → Map Folder
unfolding lookup insert
change_folder f path folders = elim (lookup path folders) [
  | none ↦ folders
  | some old ↦ insert path (f old) folders
]

-- os.RemoveAll(images), and os.Rename(part, images); the chain below has made the .part folder.
unfoldable pub replace : Option String → String → Map Folder → Option String × Map Folder
unfolding lookup insert delete part_dir
replace (some e) images folders = (some e, delete images folders)
replace none images folders = elim (lookup (part_dir images) folders) [
  | none ↦ (none, delete images folders)
  | some f ↦ (none, insert images f (delete (part_dir images) (delete images folders)))
]

unfoldable pub note_snapshot :
    Answers → Option String → Snapshot → String → Map Folder → Option String × Map Folder
unfolding replace change_folder
note_snapshot a (some e) s images folders = (some e, folders)
note_snapshot a none s images folders =
    replace a.rename images
      (change_folder (λ f. record f { snapshot = some s }) (part_dir images) folders)

unfoldable pub note_images :
    Answers → Option String → Snapshot → String → Map Folder → Option String × Map Folder
unfolding note_snapshot
note_images a (some e) s images folders = (some e, folders)
note_images a none s images folders =
    note_snapshot a a.write s images
      (change_folder (λ f. record f { images = true }) (part_dir images) folders)

-- The chain of `if err == nil`, on the folders.
unfoldable pub dump :
    Answers → Option String → Snapshot → String → Map Folder → Option String × Map Folder
unfolding note_images make_folder
dump a (some e) s images folders = (some e, folders)
dump a none s images folders = note_images a a.dump s images (make_folder (part_dir images) folders)

-- tasks.Exec, where MkdirAll has no error
abbrev pub while_dumping : Answers → Option String → Job → Job
while_dumping a none j = a.during j
while_dumping a (some e) j = j

-- The reply of pause, behind the chain.
unfoldable pub paused : Option String × Map Folder → String → String → Job → Reply × Site
unfolding set_pausing delete part_dir
paused (none, folders) id images j = (
  record {
    status = 200;
    body = some (of_map (("id", text id) ∷ ("dir", text images) ∷ []));
    message = "";
  },
  record { job = j; folders = folders },
)
paused (some e, folders) id images j = (
  refuse 500 e,
  record { job = set_pausing id false j; folders = delete (part_dir images) folders },
)

unfoldable pub pause_task : Platform → Answers → String → Option Task → Site → Reply × Site
unfolding paused dump snapshot_of images_dir set_pausing
pause_task p a id none s = (refuse 404 (concat ("no running process " ∷ id ∷ [])), s)
pause_task p a id (some t) s =
    paused (dump a a.mkdir (snapshot_of a t) (images_dir p id) s.folders) id (images_dir p id)
      (while_dumping a a.mkdir (set_pausing id true s.job))

-- pause: `criu` is its path, "" where it is absent.
unfoldable pub pause : Platform → String → Answers → Params → Site → Reply × Site
unfolding pause_task running_id
pause p criu a params s =
    if criu == ""
    then (refuse 501 "criu is not on PATH", s)
    else pause_task p a (str params "id")
        (running_id (str params "id") (select process_kind s.job.world)) s
