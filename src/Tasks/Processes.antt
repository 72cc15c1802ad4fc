-- ===== src/Tasks/Processes.antt =====
-- What the Run of a Spawn and of a Child answers, and the port of a Spawn.
use linkspan.Base.{
  ℕ, String, ◌≡◌, refl, ◌⊎◌, Bool, true, false, Option, List, [], ◌∷◌, In, inl, inr, arith, ok,
  is_some, Bool-cases, nat_beq_iff, if◌then◌else◌, ◌==◌, nat_eq,
}
use linkspan.Tasks.{
  World, running, close_listener, start_command, accepts, before_answering, poll, run_spawn,
  child_starts,
}

-- Some round of the loop reached the port.
abbrev pub any : List Bool → Bool
any [] = false
any (b ∷ bs) = if b then true else any bs

poll-accepted :
    (h : ℕ) (dials : List Bool) (waited : Option String) (w : World)
    → any dials ≡ true
    → poll h dials waited w ≡ (waited, accepts h w)
unfolding poll
poll-accepted h [] waited w a = cc
poll-accepted h (d ∷ ds) waited w a = ground (arith, poll-accepted h ds waited w)

poll-refused :
    (h : ℕ) (dials : List Bool) (waited : Option String) (w : World)
    → any dials ≡ false
    → poll h dials waited w ≡ (before_answering waited, w)
unfolding poll
poll-refused h [] waited w a = refl
poll-refused h (d ∷ ds) waited w a = ground (arith, poll-refused h ds waited w)

module _ (h process : ℕ) (dials : List Bool) (waited : Option String) (w : World) where
  abbrev after_fork : World
  after_fork = start_command h process (close_listener h w)

  -- A server whose port accepted once becomes running, and its Run answers what the process's end
  -- answers.
  pub run_spawn-accepted :
      any dials ≡ true
      → run_spawn h (ok tt) (ok process) dials waited w ≡ (waited, accepts h after_fork)
  unfolding run_spawn
  run_spawn-accepted a = poll-accepted h dials waited after_fork a

  -- A server that ends before its port accepted fails, also when its process exited with status 0,
  -- and it never became running: its state is the one it had.
  pub run_spawn-refused :
      any dials ≡ false
      → (is_some (run_spawn h (ok tt) (ok process) dials waited w).0 ≡ true)
        × (((run_spawn h (ok tt) (ok process) dials waited w).1.heap h).state ≡ (w.heap h).state)
  unfolding run_spawn
  run_spawn-refused a =
      rw (poll-refused h dials waited after_fork a)
        (unfold before_answering start_command close_listener in ground arith)

-- What child leaves behind the start of the command, under the preset pid if there is one and else
-- under the process's own.
abbrev pub shown_pid : ℕ → ℕ → ℕ
shown_pid preset process = if preset == 0 then process else preset

module _ (h process : ℕ) (w : World) where
  -- A task that is not cancelled is running once its command is started, shows the preset pid or else the
  -- process's, and has both process groups registered to be killed when it is cancelled.
  pub child_starts-live :
      (w.heap h).cancelled ≡ false
      → (((child_starts h process w).heap h).state ≡ running)
        × (((child_starts h process w).heap h).pid ≡ shown_pid (w.heap h).pid process)
        × In process ((child_starts h process w).heap h).on_cancel
        × (((w.heap h).pid ≡ 0) ⊎ In (w.heap h).pid ((child_starts h process w).heap h).on_cancel)
  unfolding child_starts
  child_starts-live c = elim (Bool-cases ((w.heap h).pid == 0)) [
    | inl e ↦ (ground arith, ground arith, ground arith, inl ((nat_beq_iff (w.heap h).pid 0).0 e))
    | inr e ↦ (ground arith, ground arith, ground arith, inr (ground (arith, e)))
  ]

  -- A task that is cancelled before its command is started has the kill of both process groups
  -- called at once.
  pub child_starts-cancelled :
      (w.heap h).cancelled ≡ true
      → In process (child_starts h process w).firing
        × (((w.heap h).pid ≡ 0) ⊎ In (w.heap h).pid (child_starts h process w).firing)
  unfolding child_starts
  child_starts-cancelled c = elim (Bool-cases ((w.heap h).pid == 0)) [
    | inl e ↦ (ground arith, inl ((nat_beq_iff (w.heap h).pid 0).0 e))
    | inr e ↦ (ground arith, inr (ground (arith, e)))
  ]
