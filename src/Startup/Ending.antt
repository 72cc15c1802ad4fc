-- ===== src/Startup/Ending.antt =====
-- main.go, main: however it ends, it stops every task first.
use linkspan.Base.{
  ℕ, String, ◌≡◌, refl, ap, ◌∙◌, false, Option, none, some, List, [], ◌∷◌, lookup, Result, concat,
}
use linkspan.Tasks.{Net, World, ended}
use linkspan.Tasks.StopAll.{stop_all, stop_all-ends, KeepsEnded}
use linkspan.Tunnel.{Carrier}
use linkspan.Startup.Defs.{Options, start_all, exit_code}
use linkspan.Startup.Main.{Life, Exit, Woken, signalled, failed, woken_exit, started_exit, main}

-- What main leaves behind a world `before`: StopAll came last, and every task that stood in the registry
-- when it began has ended.
pub record HasStopped (l : Life) (before : World) (e : Exit) : Type 0 where
  pub stopped : e.world ≡ stop_all l.outcome l.while_stopping before
  pub ended :
      (id : String) (h : ℕ) → lookup id before.registry ≡ some h → (e.world.heap h).phase ≡ ended

-- What the wait of main and the stop steps make of the exit: 0 behind a signal and stop steps without an
-- error, else 1; every error is logged.
abbrev pub Answers : Woken → Option String → Exit → Type 0
Answers signalled none e = (e.code ≡ 0) × (e.lines ≡ "signal received, stopping" ∷ "stopped" ∷ [])
Answers signalled (some x) e =
    (e.code ≡ 1)
    × (e.lines
        ≡ "signal received, stopping" ∷ concat ("fatal: workflow: " ∷ x ∷ []) ∷ "stopped" ∷ [])
Answers (failed f) none e = (e.code ≡ 1) × (e.lines ≡ concat ("fatal: " ∷ f ∷ []) ∷ "stopped" ∷ [])
Answers (failed f) (some x) e =
    (e.code ≡ 1)
    × (e.lines
        ≡ concat ("fatal: " ∷ f ∷ []) ∷ concat ("fatal: workflow: " ∷ x ∷ []) ∷ "stopped" ∷ [])

-- What main does of a start: behind an error it logs it and exits 1, with the tasks as the start left
-- them; else the stop steps run once main has woken, and the tasks are those that they leave.
abbrev pub EndsAs : Life → Option String × World → Exit → Type 0
EndsAs l (some x, w) e =
    (e.code ≡ 1) × (e.lines ≡ concat ("fatal: " ∷ x ∷ []) ∷ "stopped" ∷ []) × HasStopped l w e
EndsAs l (none, w) e =
    Answers l.woken (l.stop_steps (l.meanwhile w)).0 e
    × HasStopped l (l.stop_steps (l.meanwhile w)).1 e

HasStopped-of :
    (l : Life) (w : World) (e : Exit)
    → KeepsEnded l.while_stopping
    → e.world ≡ stop_all l.outcome l.while_stopping w
    → HasStopped l w e
HasStopped-of l w e keeps q = record {
  stopped = q;
  ended = λ id h i.
      ap (λ (v : World). (v.heap h).phase) q
      ∙ stop_all-ends l.outcome l.while_stopping w id h keeps i;
}

-- The exit of main with what woke it and the answer of the stop steps.
abbrev with_answers : Woken → Option String × World → Life → Life
with_answers woken s l = record l { woken = woken; stop_steps = λ w. s }

woken_exit-Answers :
    (l : Life) (w : World) (woken : Woken) (s : Option String × World)
    → Answers woken s.0 (woken_exit (with_answers woken s l) w)
unfolding woken_exit exit_code concat
woken_exit-Answers l w signalled (none, v) = (refl, refl)
woken_exit-Answers l w signalled (some x, v) = (refl, refl)
woken_exit-Answers l w (failed f) (none, v) = (refl, refl)
woken_exit-Answers l w (failed f) (some x, v) = (refl, refl)

started_exit-EndsAs :
    (l : Life) (s : Option String × World)
    → KeepsEnded l.while_stopping
    → EndsAs l s (started_exit l s)
unfolding woken_exit exit_code concat
started_exit-EndsAs l (none, w) keeps =
    (woken_exit-Answers l w l.woken (l.stop_steps (l.meanwhile w)), HasStopped-of l _ _ keeps refl)
started_exit-EndsAs l (some e, w) keeps = (refl, refl, HasStopped-of l _ _ keeps refl)

-- Unless it prints the version, main ends as startAll leaves it. Behind an error of startAll it logs the
-- error and exits with 1, and no stop step runs. Else the stop steps run once it has woken, and it exits
-- with 0 where a signal woke it and they have no error, and with 1 where a task failed or they have one;
-- it logs each error. Either way StopAll comes last: whatever the other goroutines do meanwhile, every
-- task that the registry held then, those of a start that failed half way included, has ended.
pub main-EndsAs :
    (version : String) (net : Net) (o : Options) (tunnels : Result (List Carrier))
    (load : Option String) (l : Life) (w : World)
    → o.print_version ≡ false
    → KeepsEnded l.while_stopping
    → EndsAs l (start_all net o tunnels load w) (main version net o tunnels load l w)
unfolding main
main-EndsAs version net o tunnels load l w e keeps =
    rw (main, e) (started_exit-EndsAs l (start_all net o tunnels load w) keeps)
