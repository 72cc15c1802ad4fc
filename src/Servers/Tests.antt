-- ===== src/Servers/Tests.antt =====
-- Concrete runs of internal/servers.
use linkspan.Base.{◌≡◌, refl, ◌≢◌, false, none, some, [], ◌∷◌, lookup, ok}
use linkspan.Tasks.{Task, start, entering, new, child, Net, empty_world, finish, returned}
use linkspan.Servers.{Job, Others, process_kind, run, run_reply, contains, start_process}
use linkspan.Servers.Lives.{run-lem, later, ended_process, Answers, start_process-Entered}

abbrev net_up : Net
net_up = record { tcp = λ a. ok a; unix = λ p. none; remove = λ p. none; chmod = λ p. none }

abbrev idle : Job
idle = record { world = empty_world; pausing = [] }

abbrev make : Task
make = record (new process_kind child) { id = "make" }

-- The command exits with status 1 while the caller waits.
abbrev fails : Job → Job
fails j = record j { world = finish 0 (returned (some "exit status 1")) j.world }

-- No goroutine comes between Start and the lookup.
abbrev failing : Others
failing = (λ j. j, fails)

run-lem_example :
    Answers net_up 7 failing make
      ("make" ∷ [])
      idle
      refl
      (run net_up 7 failing make ("make" ∷ []) idle).0
      (contains "make" (later net_up 7 failing make ("make" ∷ []) idle refl).pausing)
      (ended_process net_up 7 failing make ("make" ∷ []) idle refl)
    × (contains "make" (run net_up 7 failing make ("make" ∷ []) idle).1.pausing ≡ false)
    × (lookup "make" (run net_up 7 failing make ("make" ∷ []) idle).1.world.registry ≢ some 0)
    × ((run net_up 7 failing make ("make" ∷ []) idle).1.world.heap
        ≡ (later net_up 7 failing make ("make" ∷ []) idle refl).world.heap)
unfolding start_process linkspan.Servers.process_task start linkspan.Tasks.start_prepared
    linkspan.Tasks.prepare linkspan.Tasks.cancel_old entering lookup linkspan.Base.insert
run-lem_example =
    run-lem net_up 7 failing make ("make" ∷ []) idle refl
      (start_process-Entered net_up 7 failing make ("make" ∷ []) idle refl).listed

abbrev busy : Job
busy = (start_process net_up 7 make ("make" ∷ []) idle).1
