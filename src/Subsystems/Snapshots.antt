-- ===== src/Subsystems/Snapshots.antt =====
-- What a pause leaves: a checkpoint of the process, or the earlier one.
use text.Mathlib.TextLemmas.{cons-ne-nil, append-nil, append_cancel_left}
use linkspan.Base.{
  String, ◌≡◌, refl, ◌≢◌, sym, ◌∙◌, inl, inr, true, Option, none, some, Map, lookup,
  lookup-insert_self, lookup-insert_ne, lookup-delete_ne, arith, ◌==◌, string_eq, Bool-cases,
  Option-cases,
}
use linkspan.Install.{Platform}
use linkspan.Router.{Params, str}
use linkspan.Servers.{Job, process_kind}
use linkspan.Tasks.{Task, select}
use linkspan.Subsystems.Checkpoint.{
  Snapshot, Folder, Site, Answers, images_dir, part_dir, running_id, snapshot_of, empty_folder,
  make_folder, change_folder, replace, note_snapshot, note_images, dump, paused, pause_task, pause,
}

pub part-ne : (images : String) → images ≢ part_dir images
unfolding part_dir
part-ne images e =
    cons-ne-nil _ _ (append_cancel_left images ".part" "" (sym e ∙ sym (append-nil images)))

make_folder-found :
    (path : String) (folders : Map Folder)
    → (f : Folder) × (lookup path (make_folder path folders) ≡ some f)
unfolding make_folder
make_folder-found path folders = elim (Option-cases (lookup path folders)) [
  | inl e ↦ (empty_folder, rw (make_folder, e) (lookup-insert_self path empty_folder folders))
  | inr (f, e) ↦ (f, rw (make_folder, e) e)
]

make_folder-others :
    (path other : String) (folders : Map Folder)
    → path ≢ other
    → lookup other (make_folder path folders) ≡ lookup other folders
unfolding make_folder
make_folder-others path other folders d = elim (Option-cases (lookup path folders)) [
  | inl e ↦ rw (make_folder, e) (lookup-insert_ne path other empty_folder folders d)
  | inr (f, e) ↦ rw (make_folder, e)
]

change_folder-found :
    (g : Folder → Folder) (path : String) (folders : Map Folder) (f : Folder)
    → lookup path folders ≡ some f
    → lookup path (change_folder g path folders) ≡ some (g f)
unfolding change_folder
change_folder-found g path folders f e =
    rw (change_folder, e) (lookup-insert_self path (g f) folders)

change_folder-others :
    (g : Folder → Folder) (path other : String) (folders : Map Folder)
    → path ≢ other
    → lookup other (change_folder g path folders) ≡ lookup other folders
unfolding change_folder
change_folder-others g path other folders d = elim (Option-cases (lookup path folders)) [
  | inl e ↦ rw (change_folder, e)
  | inr (f, e) ↦ rw (change_folder, e) (lookup-insert_ne path other (g f) folders d)
]

replace-succeeds : (images : String) (folders : Map Folder) → (replace none images folders).0 ≡ none
unfolding replace
replace-succeeds images folders = elim (Option-cases (lookup (part_dir images) folders)) [
  | inl e ↦ rw (replace, e)
  | inr (f, e) ↦ rw (replace, e)
]

-- The chain of a pause that fails, where Rename does not, changes the .part folder alone.
module _ (a : Answers) (s : Snapshot) (images path : String) (renames : a.rename ≡ none)
    (apart : part_dir images ≢ path) where
  note_snapshot-keeps :
      (made : Option String) (folders : Map Folder)
      → (note_snapshot a made s images folders).0 ≢ none
      → lookup path (note_snapshot a made s images folders).1 ≡ lookup path folders
  unfolding note_snapshot
  note_snapshot-keeps (some e) folders n = refl
  note_snapshot-keeps none folders n = absurd (n (rw renames (replace-succeeds images _)))

  note_images-keeps :
      (made : Option String) (folders : Map Folder)
      → (note_images a made s images folders).0 ≢ none
      → lookup path (note_images a made s images folders).1 ≡ lookup path folders
  unfolding note_images
  note_images-keeps (some e) folders n = refl
  note_images-keeps none folders n =
      note_snapshot-keeps a.write _ n
      ∙ change_folder-others (λ f. record f { images = true }) (part_dir images) path folders apart

  dump-keeps :
      (made : Option String) (folders : Map Folder)
      → (dump a made s images folders).0 ≢ none
      → lookup path (dump a made s images folders).1 ≡ lookup path folders
  unfolding dump
  dump-keeps (some e) folders n = refl
  dump-keeps none folders n =
      note_images-keeps a.dump _ n ∙ make_folder-others (part_dir images) path folders apart

  paused-keeps :
      (r : Option String × Map Folder) (id : String) (j : Job) (folders : Map Folder)
      → (r.0 ≢ none → lookup path r.1 ≡ lookup path folders)
      → (paused r id images j).0.status ≢ 200
      → lookup path (paused r id images j).1.folders ≡ lookup path folders
  unfolding paused
  paused-keeps (none, now) id j folders f n = absurd (n refl)
  paused-keeps (some e, now) id j folders f n =
      lookup-delete_ne (part_dir images) path now apart ∙ f (λ q. cc)

-- The chain of a pause that succeeds leaves the snapshot in the checkpoint's folder.
module _ (a : Answers) (s : Snapshot) (images : String) where
  replace-found :
      (r : Option String) (folders : Map Folder) (f : Folder)
      → lookup (part_dir images) folders ≡ some f
      → (replace r images folders).0 ≡ none
      → lookup images (replace r images folders).1 ≡ some f
  unfolding replace
  replace-found (some e) folders f q p = cc
  replace-found none folders f q p = rw (replace, q) (lookup-insert_self images f _)

  note_snapshot-found :
      (made : Option String) (folders : Map Folder) (f : Folder)
      → lookup (part_dir images) folders ≡ some f
      → (note_snapshot a made s images folders).0 ≡ none
      → lookup images (note_snapshot a made s images folders).1
        ≡ some (record f { snapshot = some s })
  unfolding note_snapshot
  note_snapshot-found (some e) folders f q p = cc
  note_snapshot-found none folders f q p =
      replace-found a.rename _ _
        (change_folder-found (λ f. record f { snapshot = some s }) (part_dir images) folders f q) p

  note_images-found :
      (made : Option String) (folders : Map Folder) (f : Folder)
      → lookup (part_dir images) folders ≡ some f
      → (note_images a made s images folders).0 ≡ none
      → lookup images (note_images a made s images folders).1
        ≡ some (record { images = true; snapshot = some s })
  unfolding note_images
  note_images-found (some e) folders f q p = cc
  note_images-found none folders f q p =
      note_snapshot-found a.write _ _
        (change_folder-found (λ f. record f { images = true }) (part_dir images) folders f q) p

  dump-found :
      (made : Option String) (folders : Map Folder)
      → (dump a made s images folders).0 ≡ none
      → lookup images (dump a made s images folders).1
        ≡ some (record { images = true; snapshot = some s })
  unfolding dump
  dump-found (some e) folders p = cc
  dump-found none folders p =
      let (f, q) = make_folder-found (part_dir images) folders in note_images-found a.dump _ f q p

paused-ok :
    (r : Option String × Map Folder) (id images : String) (j : Job)
    → (paused r id images j).0.status ≡ 200
    → (r.0 ≡ none) × ((paused r id images j).1.folders ≡ r.1)
unfolding paused
paused-ok (none, folders) id images j e = (refl, refl)
paused-ok (some x, folders) id images j e = absurd (omega (arith, e))

module _ (p : Platform) (criu : String) (a : Answers) (params : Params) (s : Site) where
  abbrev pub found : Option Task
  found = running_id (str params "id") (select process_kind s.job.world)

  abbrev images_of : String
  images_of = images_dir p (str params "id")

  pause_task-keeps :
      (o : Option Task) (path : String)
      → a.rename ≡ none
      → part_dir images_of ≢ path
      → (pause_task p a (str params "id") o s).0.status ≢ 200
      → lookup path (pause_task p a (str params "id") o s).1.folders ≡ lookup path s.folders
  unfolding pause_task
  pause_task-keeps none path r d n = refl
  pause_task-keeps (some t) path r d n =
      paused-keeps a (snapshot_of a t) images_of path r d _ (str params "id") _ s.folders
        (dump-keeps a (snapshot_of a t) images_of path r d a.mkdir s.folders) n

  -- A pause that does not answer 200, where Rename does not fail, leaves every folder but the checkpoint's
  -- .part one as it was, so an earlier checkpoint stays.
  pub pause-keeps :
      (path : String)
      → a.rename ≡ none
      → part_dir images_of ≢ path
      → (pause p criu a params s).0.status ≢ 200
      → lookup path (pause p criu a params s).1.folders ≡ lookup path s.folders
  unfolding pause
  pause-keeps path r d n = elim (Bool-cases (criu == "")) [
    | inl e ↦ rw e
    | inr e ↦ rw e (pause_task-keeps found path r d (rw e at n))
  ]

  -- A pause that answers 200 has paused the running process of the id: the checkpoint's folder holds CRIU's
  -- images, and a snapshot of that process's pid, stdout and stderr.
  pub pause-saves :
      (t : Task)
      → found ≡ some t
      → (pause p criu a params s).0.status ≡ 200
      → lookup images_of (pause p criu a params s).1.folders
        ≡ some (record { images = true; snapshot = some (snapshot_of a t) })
  unfolding pause pause_task
  pause-saves t q e = elim (Bool-cases (criu == "")) [
    | inl absent ↦ absurd (omega (arith, rw absent at e))
    | inr there ↦
        let (succeeded, same) = paused-ok _ (str params "id") images_of _ (rw (there, q) at e) in
        rw (there, q, same) (dump-found a (snapshot_of a t) images_of a.mkdir s.folders succeeded)
  ]
