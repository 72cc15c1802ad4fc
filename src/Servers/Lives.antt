-- ===== src/Servers/Lives.antt =====
-- The life of a process: what Run answers, and what it leaves.
use linkspan.Base.{
  ℕ, String, ◌≡◌, refl, ◌≢◌, ◌⊎◌, inl, inr, Bool, true, false, none, some, List, [], ◌∷◌, lookup,
  arith, ok, eq_iff, if◌then◌else◌, string_eq, is_some,
}
use linkspan.Router.{Params, Reply, str}
use linkspan.Tasks.{
  Task, World, Net, failed, exited, child, start, start_prepared, prepare, entering, wait_begin,
}
use linkspan.Tasks.Frozen.{is_working}
use linkspan.Tasks.Ends.{EndsWell}
use linkspan.Tasks.Starting.{Entered, start-Entered}
use linkspan.Tasks.Stopping.{stop_begin-lem, wait_end-lem}
use linkspan.Servers.Defs.{
  Job, Others, process_task, start_process, contains, remove, wait, run_reply, run, stop,
}

contains-remove : (s : String) (xs : List String) → contains s (remove s xs) ≡ false
unfolding contains remove
contains-remove s [] = refl
contains-remove s (x ∷ xs) = ground (arith, contains-remove s xs)

-- A process binds no address, so its Start cannot fail.
start-process_task :
    (net : Net) (now : ℕ) (t : Task) (argv : List String) (w : World)
    → t.addr ≡ ""
    → (start net (process_task now argv t) w).0
      ≡ ok (entering (prepare child (process_task now argv t)))
unfolding start start_prepared prepare process_task
start-process_task net now t argv w e = ground (arith, eq_iff t.addr "")

-- Wait answers the task that the id led to when it began, as it is once the others have run.
wait-lem :
    (during : Job → Job) (id : String) (j : Job) (h : ℕ)
    → lookup id j.world.registry ≡ some h
    → let later = during j in
      ((wait during id j).0 ≡ later.world.heap h)
      × ((wait during id j).1 ≡ contains id later.pausing)
      × (contains id (wait during id j).2.pausing ≡ false)
      × (lookup id (wait during id j).2.world.registry ≢ some h)
      × ((wait during id j).2.world.heap ≡ later.world.heap)
unfolding wait wait_begin
wait-lem during id j h e = rw e (
    let w = wait_end-lem id h (during j).world in
    (w.0, refl, contains-remove id (during j).pausing, w.2, w.1))

module _ (net : Net) (now : ℕ) (others : Others) (t : Task) (argv : List String) (j : Job)
    (unbound : t.addr ≡ "") where
  -- The process as created, the state when Wait looks it up, and the state when Wait returns.
  abbrev pub created : Task
  created = (start_process net now t argv j).0

  abbrev pub begun : Job
  begun = others.0 (start_process net now t argv j).1

  abbrev pub later : Job
  later = others.1 begun

  abbrev pub ended_process : Task
  ended_process = later.world.heap j.world.next

  -- A process binds no address, so its Start enters it in the registry.
  pub start_process-Entered : Entered j.world (start_process net now t argv j).1.world created
  unfolding start_process
  start_process-Entered =
      let e = start-process_task net now t argv j.world unbound in
      rw e (start-Entered net (process_task now argv t) j.world _ e)

  run-waits :
      lookup created.id begun.world.registry ≡ some j.world.next
      → let r = run net now others t argv j in
        (r.0 ≡ run_reply ended_process (contains created.id later.pausing))
        × (contains created.id r.1.pausing ≡ false)
        × (lookup created.id r.1.world.registry ≢ some j.world.next)
        × (r.1.world.heap ≡ later.world.heap)
  unfolding run
  run-waits listed =
      let w = wait-lem others.1 created.id begun j.world.next listed in
      (rw (w.0, w.1), w.2, w.3, w.4)

  -- What Run answers of a process as it ended, with or without the note of a pause.
  abbrev pub Answers : Reply → Bool → Task → Type 0
  Answers r true p = (r.status ≡ 202) × (r.message ≡ "")
  Answers r false p =
      (p.state ≡ exited → (r.status ≡ 200) × (r.message ≡ ""))
      × (p.state ≢ exited → (r.status ≡ 500) × (r.message ≡ p.error))

  run_reply-Answers : (p : Task) (paused : Bool) → Answers (run_reply p paused) paused p
  unfolding run_reply
  run_reply-Answers p true = (refl, refl)
  run_reply-Answers p false = ((λ e. ground (arith, e)), (λ n. ground (arith, n)))

  -- Where the registry still leads from the id to the process when Wait looks it up, Run answers on that
  -- process as it is once the others have run: 202 where a pause is noted for the id, else 200 where
  -- the process exited, else 500 with its error; the note of a pause is taken away; the id no longer
  -- leads to the process; and Run changes no task beyond that.
  pub run-lem :
      lookup created.id begun.world.registry ≡ some j.world.next
      → let r = run net now others t argv j in
        Answers r.0 (contains created.id later.pausing) ended_process
        × (contains created.id r.1.pausing ≡ false)
        × (lookup created.id r.1.world.registry ≢ some j.world.next)
        × (r.1.world.heap ≡ later.world.heap)
  run-lem listed =
      let w = run-waits listed in
      rw w.0 (run_reply-Answers ended_process (contains created.id later.pausing), w.1, w.2, w.3)

-- The reply on a process whose goroutine has left Run, and which ended the way Run returned: 202 where a
-- pause ended it, else 200 where it exited, else 500 with its error where it failed; nothing else.
pub run_reply-status :
    (ended : Task) (paused : Bool)
    → EndsWell ended
    → is_working ended.phase ≡ false
    → (((run_reply ended paused).status ≡ 202) × (paused ≡ true))
      ⊎ ((((run_reply ended paused).status ≡ 200) × (paused ≡ false) × (ended.state ≡ exited))
          ⊎ (((run_reply ended paused).status ≡ 500)
              × (paused ≡ false)
              × (ended.state ≡ failed)
              × ((run_reply ended paused).message ≡ ended.error)))
unfolding run_reply
run_reply-status t true e w = inl (refl, refl)
run_reply-status t false e w = elim (e.final w) [
  | inl q ↦ inr (inr (ground (arith, q)))
  | inr q ↦ inr (inl (ground (arith, q)))
]

-- Stop answers 200 where the registry holds the id and 404 where it does not; either way the registry
-- does not hold it afterwards.
pub stop-lem :
    (params : Params) (j : Job)
    → ((stop params j).0.status
        ≡ (if is_some (lookup (str params "id") j.world.registry) then 200 else 404))
      × (lookup (str params "id") (stop params j).1.world.registry ≡ none)
unfolding stop
stop-lem params j =
    let s = stop_begin-lem (str params "id") j.world in
    (ground (arith, s.0), ground (arith, s.0, s.1))
