-- ===== src/Install/Defs.antt =====
-- internal/install/install.go. A file is the text that it holds, under its path.
use Prim.Native.String
use linkspan.Base.{
  ℕ, String, List, ◌||◌, Option, none, some, [], ◌∷◌, Map, lookup, insert, delete, Result, ok, err,
  concat, ◌==◌, nat_eq, if◌then◌else◌, is_some,
}

-- Where the program runs: GOOS, GOARCH, and the home directory.
pub record Platform : Type 0 where
  pub os : String
  pub arch : String
  pub home : String

abbrev asset_of : Platform → String → Option String → Result String
asset_of p name none = err (concat ("no " ∷ name ∷ " binary for " ∷ p.os ∷ "/" ∷ p.arch ∷ []))
asset_of p name (some asset) = ok asset

unfoldable pub asset : Platform → Map String → String → Result String
unfolding lookup concat
asset p table name = asset_of p name (lookup (concat (p.os ∷ "/" ∷ p.arch ∷ [])) table)

-- filepath.Join, of parts that are clean and not empty
unfoldable pub dir : Platform → String
unfolding concat
dir p = concat (p.home ∷ "/.cybershuttle" ∷ [])

unfoldable pub bin : Platform → String → String
unfolding dir concat
bin p name = concat (dir p ∷ "/bin/" ∷ name ∷ [])

unfoldable pub part_of : String → String
part_of dst = String.◌++◌ dst ".part"

-- A response: its status code and line, and what reading the body gives.
pub record Response : Type 0 where
  pub status : ℕ
  pub line : String
  pub body : Result String

-- What the calls of Fetch answer: MkdirAll, NewRequest and Do, WriteFile with what it left at the path, and
-- Rename.
pub record Answers : Type 0 where
  pub mkdir : Option String
  pub response : Result Response
  pub write : Option (String × String)
  pub rename : Option String

-- os.Rename, where it succeeds
unfoldable pub rename : String → String → Map String → Map String
unfolding lookup insert delete
rename from to files = elim (lookup from files) [
  | none ↦ files
  | some content ↦ insert to content (delete from files)
]

abbrev pub Outcome : Type 0
Outcome = Option String × Map String

-- return os.Rename(part, dst), and then the deferred os.Remove(part)
unfoldable pub publish : Option String → String → Map String → Outcome
unfolding rename delete part_of
publish none dst files = (none, delete (part_of dst) (rename (part_of dst) dst files))
publish (some e) dst files = (some e, delete (part_of dst) files)

-- os.WriteFile(part, data, 0o700): a write that fails may leave a beginning of the data.
unfoldable pub write_part :
    Option (String × String) → Option String → String → String → Map String → Outcome
unfolding publish insert
write_part none renamed content dst files = publish renamed dst (insert (part_of dst) content files)
write_part (some (e, begun)) renamed content dst files =
    (some e, delete (part_of dst) (insert (part_of dst) begun files))

-- Behind the response.
unfoldable pub save : Answers → Result String → String → String → Map String → Outcome
unfolding write_part concat
save a (err e) src dst files = (some (concat ("GET " ∷ src ∷ ": " ∷ e ∷ [])), files)
save a (ok content) src dst files = write_part a.write a.rename content dst files

unfoldable pub receive : Answers → Result Response → String → String → Map String → Outcome
unfolding save concat
receive a (err e) src dst files = (some e, files)
receive a (ok r) src dst files =
    if r.status == 200
    then save a r.body src dst files
    else (some (concat ("GET " ∷ src ∷ ": unexpected status " ∷ r.line ∷ [])), files)

unfoldable pub download : Answers → Option String → String → String → Map String → Outcome
unfolding receive
download a (some e) src dst files = (some e, files)
download a none src dst files = receive a a.response src dst files

-- What Fetch logs: the download, behind MkdirAll.
unfoldable pub fetch_lines : Answers → String → String → Map String → List String
unfolding lookup concat
fetch_lines a dst src files =
    if is_some (lookup dst files) || is_some a.mkdir
    then []
    else concat ("install: downloading " ∷ src ∷ " -> " ∷ dst ∷ []) ∷ []

-- Fetch: its error, and the files.
unfoldable pub fetch : Answers → String → String → Map String → Outcome
unfolding download lookup
fetch a dst src files =
    if is_some (lookup dst files) then (none, files) else download a a.mkdir src dst files
