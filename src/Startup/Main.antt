-- ===== src/Startup/Main.antt =====
-- main.go, main: from the parsed flags to the exit code.
use linkspan.Base.{
  ℕ, String, Option, none, some, List, [], ◌∷◌, ◌++◌, Result, concat, if◌then◌else◌,
}
use linkspan.Tasks.{Net, World, Outcome}
use linkspan.Tasks.StopAll.{stop_all}
use linkspan.Tunnel.{Carrier}
use linkspan.Startup.Defs.{Options, start_all, exit_code}

-- What ends the wait of main: a signal, or an error that a task sends to tasks.Failed.
pub data Woken : Type 0 where
  signalled : Woken
  failed : String → Woken

-- What happens beside main: the tasks' steps until it wakes, workflow.Run with the stop steps, what the
-- others do while StopAll waits on a task, and how each Run returns that StopAll cancels.
pub record Life : Type 0 where
  pub meanwhile : World → World
  pub woken : Woken
  pub stop_steps : World → Option String × World
  pub while_stopping : World → World
  pub outcome : ℕ → Outcome

-- What is left at os.Exit: the lines printed and logged, and the tasks.
pub record Exit : Type 0 where
  pub code : ℕ
  pub lines : List String
  pub world : World

abbrev pub fatal_line : String → String
unfolding concat
fatal_line e = concat ("fatal: " ∷ e ∷ [])

abbrev pub woken_error : Woken → Option String
woken_error signalled = none
woken_error (failed e) = some e

abbrev pub woken_line : Woken → String
unfolding fatal_line
woken_line signalled = "signal received, stopping"
woken_line (failed e) = fatal_line e

abbrev pub stop_lines : Option String → List String
unfolding concat
stop_lines none = []
stop_lines (some e) = concat ("fatal: workflow: " ∷ e ∷ []) ∷ []

-- The deferred StopAll, which main's two returns behind it share.
abbrev pub stopped : Life → World → World
stopped l w = stop_all l.outcome l.while_stopping w

-- Behind a start without an error.
unfoldable pub woken_exit : Life → World → Exit
unfolding woken_line stop_lines exit_code
woken_exit l w =
    let s = l.stop_steps (l.meanwhile w) in
    record {
      code = exit_code none (woken_error l.woken) s.0;
      lines = (woken_line l.woken ∷ stop_lines s.0) ++ ("stopped" ∷ []);
      world = stopped l s.1;
    }

abbrev pub started_exit : Life → Option String × World → Exit
unfolding fatal_line woken_exit exit_code
started_exit l (none, w) = woken_exit l w
started_exit l (some e, w) = record {
  code = exit_code (some e) none none;
  lines = fatal_line e ∷ "stopped" ∷ [];
  world = stopped l w;
}

-- main
unfoldable pub main :
    String → Net → Options → Result (List Carrier) → Option String → Life → World → Exit
unfolding started_exit start_all
main version net o tunnels load l w =
    if o.print_version
    then record { code = 0; lines = version ∷ []; world = w }
    else started_exit l (start_all net o tunnels load w)
