-- ===== src/Tasks/Tests.antt =====
-- Concrete runs of internal/tasks.
use linkspan.Base.{
  ℕ, String, ◌≡◌, refl, ◌≢◌, ◌⊎◌, ◌<◌, inl, inr, Bool, true, false, Option, none, some, List, [],
  ◌∷◌, Map, lookup, arith, In, Result, ok, err, ◌↔◌, is_some, keep, ◌==◌, string_eq,
}
use linkspan.Tasks.{
  Task, World, offer, working, run, server, spawn, child, new, empty_world, Net, start, Outcome,
  returned, outcome_error, settle, report, starts, settles, reports, forks, Reached, at_start,
  after, Node, socket, listen, register, entering, forked, guard_process, stops, cancels, arms,
  cancel, stop_cancel, stop_begin, prepare, run_spawn, cancel_old, bound, start_prepared, enlist,
}
use linkspan.Tasks.NoneLost.{Reached-IsTracked}
use linkspan.Tasks.Tracked.{IsTracked}
use linkspan.Tasks.Caught.{AllCaught, Reached-AllCaught}
use linkspan.Tasks.Ends.{AllEnd, Reached-AllEnd}
use linkspan.Tasks.Starting.{Entered, start-Entered}
use linkspan.Tasks.StopAll.{alone, stop_each, late_start-survives}
use linkspan.Tasks.Listening.{IsOwners, listen-owner_only}
use linkspan.Tasks.Processes.{run_spawn-refused}
use linkspan.Tasks.Fatal.{AllBlamed, Reached-AllBlamed}

abbrev net_up : Net
net_up = record {
  tcp = λ a. ok "127.0.0.1:4021";
  unix = λ p. none;
  remove = λ p. none;
  chmod = λ p. none;
}

abbrev job_task : Task
job_task = new "workflow" run

abbrev listed_job : World
listed_job = (start net_up job_task empty_world).1

abbrev boom : Outcome
boom = returned (some "boom")

abbrev settled_job : World
settled_job = settle 0 (outcome_error boom) listed_job

abbrev reported_job : World
reported_job = report 0 (some "boom") settled_job

listed_job-Reached : Reached listed_job
listed_job-Reached = after at_start (starts net_up job_task empty_world)

reported_job-Reached : Reached reported_job
unfolding start settle outcome_error lookup cancel_old entering
reported_job-Reached =
    after (after listed_job-Reached (settles 0 boom listed_job (ground arith) refl))
      (reports 0 (some "boom") settled_job (ground arith) refl)

Reached-IsTracked_example : IsTracked reported_job
Reached-IsTracked_example = Reached-IsTracked reported_job-Reached

Reached-AllEnd_example : AllEnd reported_job
Reached-AllEnd_example = Reached-AllEnd reported_job-Reached

Reached-AllBlamed_example : AllBlamed reported_job
Reached-AllBlamed_example = Reached-AllBlamed reported_job-Reached

abbrev sleeper_task : Task
sleeper_task = record (new "process" child) { id = "p-1" }

abbrev forked_process : World
forked_process = forked 0 77 (start net_up sleeper_task empty_world).1

forked_process-Reached : Reached forked_process
unfolding start start_prepared prepare register enlist lookup cancel_old entering
forked_process-Reached =
    after (after at_start (starts net_up sleeper_task empty_world))
      (forks 0 77 (start net_up sleeper_task empty_world).1 (ground arith) refl refl)

-- Its Stop cancels it between cmd.Start and AfterFunc.
abbrev cancelled_process : World
cancelled_process = stop_cancel 0 (stop_begin "p-1" forked_process).1

cancelled_process-Reached : Reached cancelled_process
unfolding start start_prepared prepare register enlist lookup cancel_old entering stop_begin forked
    linkspan.Base.insert
cancelled_process-Reached =
    after (after forked_process-Reached (stops "p-1" forked_process))
      (cancels 0 (stop_begin "p-1" forked_process).1 (inl refl))

Reached-AllCaught_example : AllCaught (guard_process 0 77 cancelled_process)
unfolding start start_prepared prepare register enlist lookup cancel_old entering stop_begin forked
    stop_cancel cancel linkspan.Base.insert
Reached-AllCaught_example =
    Reached-AllCaught
      (after cancelled_process-Reached (arms 0 77 cancelled_process (ground arith) refl refl))

-- A server of internal/tasks on a loopback port: its id names the port that was bound.
abbrev server_task : Task
server_task = new "tunnel" server

start-Entered_example :
    Entered empty_world
      (start net_up server_task empty_world).1
      (entering (bound "127.0.0.1:4021" (prepare server server_task)))
unfolding start prepare listen linkspan.Go.HostPort.split_host_port
start-Entered_example =
    start-Entered net_up server_task empty_world
      (entering (bound "127.0.0.1:4021" (prepare server server_task))) refl

-- While StopAll waits, a task that is not cancelled yet fails.
abbrev another_fails : World → World
another_fails w = record w { fatal = offer w.fatal (some "http-8080: accept: closed") }

late_start-survives_example :
    (lookup "p-1"
        (stop_each
          (λ h. returned none)
          alone
          (0 ∷ [])
          (start net_up sleeper_task listed_job).1).registry
      ≡ some 1)
    × (((stop_each
            (λ h. returned none)
            alone
            (0 ∷ [])
            (start net_up sleeper_task listed_job).1).heap
          1).cancelled
        ≡ false)
    × (((stop_each
            (λ h. returned none)
            alone
            (0 ∷ [])
            (start net_up sleeper_task listed_job).1).heap
          1).phase
        ≡ working)
unfolding start start_prepared prepare lookup cancel_old entering
late_start-survives_example =
    late_start-survives (λ h. returned none) (0 ∷ []) net_up sleeper_task
      (entering (prepare child sleeper_task)) listed_job (λ h i. ground (arith, i)) refl

abbrev socket_path : String
socket_path = "/tmp/linkspan.sock"

-- A socket that an earlier process left, with wider permissions.
abbrev stale_files : Map Node
stale_files = (socket_path, socket 511) ∷ []

listen-owner_only_example :
    IsOwners socket_path socket_path stale_files (listen net_up socket_path stale_files).1
unfolding lookup listen linkspan.Go.HostPort.split_host_port linkspan.Base.delete
    linkspan.Base.insert
listen-owner_only_example = listen-owner_only net_up socket_path socket_path stale_files refl refl

abbrev spawn_task : Task
spawn_task = new "vscode" spawn

abbrev spawned : World
spawned = (start net_up spawn_task empty_world).1

run_spawn-refused_example :
    (is_some (run_spawn 0 (ok tt) (ok 77) (false ∷ false ∷ []) none spawned).0 ≡ true)
    × (((run_spawn 0 (ok tt) (ok 77) (false ∷ false ∷ []) none spawned).1.heap 0).state
        ≡ (spawned.heap 0).state)
run_spawn-refused_example = run_spawn-refused 0 77 (false ∷ false ∷ []) none spawned refl
