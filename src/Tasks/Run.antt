-- ===== src/Tasks/Run.antt =====
-- internal/tasks/tasks.go and exec.go: the goroutine of a task, its Run, and the fork of a child.
use linkspan.Base.{
  ℕ, String, Bool, true, false, ◌&&◌, not, Option, none, some, List, [], ◌∷◌, update, Result, ok,
  err, concat, ◌==◌, nat_eq, if◌then◌else◌,
}
use linkspan.Tasks.Types.{
  State, running, failed, exited, settled, reported, ended, Task, World, is_process,
}
use linkspan.Tasks.Start.{cancel, close_listener}

-- How Run ended: it returned nil or an error, or it panicked with a value and a stack.
pub data Outcome : Type 0 where
  returned : Option String → Outcome
  panicked : String → String → Outcome

-- The err of the deferred function.
unfoldable pub outcome_error : Outcome → Option String
outcome_error (returned e) = e
outcome_error (panicked r stack) = some (concat ("panic: " ∷ r ∷ "\n" ∷ stack ∷ []))

-- t.State = state, and t.Error where there is an error
unfoldable pub put_state : State → Option String → Task → Task
put_state s none t = record t { state = s }
put_state s (some e) t = record t { state = s; error = e }

unfoldable pub set_state : ℕ → State → Option String → World → World
unfolding put_state
set_state h s e w = record w { heap = update w.heap h (put_state s e (w.heap h)) }

-- The deferred function, first part: the state. `stop` of exec.go has unregistered the kills.
unfoldable pub final_state : Option String → State
final_state none = exited
final_state (some e) = failed

unfoldable pub settle : ℕ → Option String → World → World
unfolding put_state final_state
settle h e w = record w {
  heap =
      update w.heap h
        (record (put_state (final_state e) e (w.heap h)) { phase = settled e; on_cancel = [] });
}

-- Second part: an error that is not the cancellation's is fatal unless the task is a process; the
-- channel has room for one.
unfoldable pub fatal_error : Option String → Task → Option String
fatal_error none t = none
fatal_error (some e) t =
    if not t.cancelled && not (is_process t.work)
    then some (concat (t.id ∷ ": " ∷ e ∷ []))
    else none

unfoldable pub offer : Option String → Option String → Option String
offer (some first) _ = some first
offer none e = e

unfoldable pub report : ℕ → Option String → World → World
unfolding fatal_error offer
report h e w = record w {
  fatal = offer w.fatal (fatal_error e (w.heap h));
  heap = update w.heap h (record (w.heap h) { phase = reported });
}

-- Third part: cancel() and close(t.done).
unfoldable pub conclude : ℕ → World → World
unfolding cancel
conclude h w =
    let c = cancel h w in record c { heap = update c.heap h (record (c.heap h) { phase = ended }) }

-- The deferred function, with nothing in between.
unfoldable pub finish : ℕ → Outcome → World → World
unfolding outcome_error settle report conclude
finish h o w = conclude h (report h (outcome_error o) (settle h (outcome_error o) w))

-- context.AfterFunc of a kill: its goroutine starts at once if the context is done.
unfoldable pub after_func : ℕ → ℕ → World → World
after_func h group w =
    if (w.heap h).cancelled then record w { firing = group ∷ w.firing } else record w {
      heap = update w.heap h (record (w.heap h) { on_cancel = group ∷ (w.heap h).on_cancel });
    }

-- cmd.Start() gave a process.
unfoldable pub forked : ℕ → ℕ → World → World
forked h process w = record w {
  heap = update w.heap h (record (w.heap h) { process = some process; guarded = false });
}

-- The AfterFunc of start, exec.go, behind cmd.Start(): in between the context may be done.
unfoldable pub guard_process : ℕ → ℕ → World → World
unfolding after_func
guard_process h process w =
    let a = after_func h process w in
    record a { heap = update a.heap h (record (a.heap h) { guarded = true }) }

-- The whole of start, exec.go, where cmd.Start() gives a process.
unfoldable pub start_command : ℕ → ℕ → World → World
unfolding forked guard_process
start_command h process w = guard_process h process (forked h process w)

-- The first mention of a number is taken out.
unfoldable pub forget : ℕ → List ℕ → List ℕ
forget h [] = []
forget h (g ∷ gs) = let rest = forget h gs in if g == h then gs else g ∷ rest

-- The kill that AfterFunc calls, in its own goroutine.
unfoldable pub fire : ℕ → World → World
unfolding forget
fire group w = record w { firing = forget group w.firing; killed = group ∷ w.killed }

-- A preset Pid is killed with the command.
unfoldable pub guard_preset : ℕ → ℕ → World → World
unfolding after_func
guard_preset h preset w = if preset == 0 then w else after_func h preset w

-- t.Pid, t.State = cmp.Or(t.Pid, cmd.Process.Pid), StateRunning
unfoldable pub publish : ℕ → ℕ → World → World
publish h process w = record w {
  heap = update w.heap h (record (w.heap h) {
    pid = if (w.heap h).pid == 0 then process else (w.heap h).pid;
    state = running;
  });
}

-- child, up to cmd.Wait()
unfoldable pub child_starts : ℕ → ℕ → World → World
unfolding start_command guard_preset publish
child_starts h process w =
    let f = start_command h process w in publish h process (guard_preset h (f.heap h).pid f)

-- child: what t.Child, cmd.Start and cmd.Wait answer; the error that Run returns, and the world.
unfoldable pub run_child :
    ℕ → Result (Unit {0}) → Result ℕ → Option String → World → Option String × World
unfolding child_starts
run_child h (err e) started waited w = (some e, w)
run_child h (ok _) (err e) waited w = (some e, w)
run_child h (ok _) (ok process) waited w = (waited, child_starts h process w)

-- spawn, once the port accepts: setState(StateRunning, nil)
unfoldable pub accepts : ℕ → World → World
unfolding set_state
accepts h w = set_state h running none w

-- "exited before answering: %w", where a nil error prints as `%!w(<nil>)`
unfoldable pub before_answering : Option String → Option String
before_answering none = some "exited before answering: %!w(<nil>)"
before_answering (some e) = some (concat ("exited before answering: " ∷ e ∷ []))

-- The loop of spawn: `dials` says of each round whether the port accepted before the process ended;
-- with no round left the process has ended.
unfoldable pub poll : ℕ → List Bool → Option String → World → Option String × World
unfolding accepts before_answering
poll h [] waited w = (before_answering waited, w)
poll h (dialed ∷ rest) waited w =
    let again = poll h rest waited w in if dialed then (waited, accepts h w) else again

-- Exec: what cmd.Start and cmd.Wait answer; the kill it registers is gone when the task settles.
unfoldable pub run_exec : ℕ → Result ℕ → Option String → World → Option String × World
unfolding start_command
run_exec h (err e) waited w = (some e, w)
run_exec h (ok process) waited w = (waited, start_command h process w)

-- spawn: the port is released to the command; what t.Spawn answers, what Exec meets, and the rounds of
-- the loop. A command that does not start has Exec answer at once.
unfoldable pub run_spawn :
    ℕ → Result (Unit {0}) → Result ℕ → List Bool → Option String → World → Option String × World
unfolding close_listener run_exec poll
run_spawn h (err e) started dials waited w = (some e, close_listener h w)
run_spawn h (ok _) started dials waited w =
    let (answer, after) = run_exec h started waited (close_listener h w) in
    poll h dials answer after
