-- ===== src/Workflow/Ordering.antt =====
-- subsystems/workflow/workflow.go, Start: in which order the steps of start and ready run beside those of
-- signals, and what Start's end and the SIGTERM tell of them.
use linkspan.Base.{
  ℕ, suc, String, ◌≡◌, refl, sym, subst, ap, ◌∙◌, inl, inr, ◌⊎◌, true, false, Option, none, some,
  List, [], ◌++◌, ◌==◌, string_eq, eq_iff, Bool-cases,
}
use linkspan.Workflow.Document.{BoundTrigger, is_signal}
use linkspan.Workflow.Running.{steps_at}
use linkspan.Workflow.Interleaving.{
  Performed, over, SetupPhase, starting, readying, sent, received, LoopPhase, selecting, handling,
  returned, Task, next, start_task, Moves, start_moves, start_ends, start_fails, ready_moves,
  ready_ends, receives, receives_error, context_ends, signalled, signal_moves, signal_ends,
  signal_fails, Moved, unmoved, moved,
}
use linkspan.Workflow.Logged.{
  of_moment, Going, HasPassed, HasFailed, RunHolds, next-RunHolds, own_lines, other_lines, IsLogged,
  ErrorLogged, HasFailed-IsLogged, IsLogged-append, ErrorLogged-append, next-ErrorLogged,
}

module _ {S : Type 0} (wait : String → S → S) (loaded : List (BoundTrigger S)) where
  -- What the lines of start and of ready are while the goroutine is in a phase.
  abbrev pub SetupHolds : SetupPhase S → List (Performed S) → List (Performed S) → Type 0
  SetupHolds (starting p) es rs = RunHolds (steps_at "start" loaded) es p × (rs ≡ [])
  SetupHolds (readying p) es rs =
      HasPassed (steps_at "start" loaded) es × RunHolds (steps_at "ready" loaded) rs p
  SetupHolds (sent none) es rs =
      HasPassed (steps_at "start" loaded) es × HasPassed (steps_at "ready" loaded) rs
  SetupHolds (sent (some e)) es rs =
      (HasFailed (steps_at "start" loaded) es e × (rs ≡ []))
      ⊎ (HasPassed (steps_at "start" loaded) es × HasFailed (steps_at "ready" loaded) rs e)
  SetupHolds received es rs =
      HasPassed (steps_at "start" loaded) es × HasPassed (steps_at "ready" loaded) rs

  -- How often Linkspan has been sent SIGTERM.
  abbrev pub expected : SetupPhase S → ℕ
  expected received = 1
  expected (starting p) = 0
  expected (readying p) = 0
  expected (sent r) = 0

  abbrev pub LoopHolds : LoopPhase S → List (Performed S) → Type 0
  LoopHolds selecting log = Unit
  LoopHolds (handling moment p) log = (is_signal moment ≡ true) × ErrorLogged log p
  LoopHolds (returned none) log = Unit
  LoopHolds (returned (some e)) log = IsLogged log e

  -- The lines of start are a beginning of its steps, and those of ready of its own, each step but the last
  -- with success, and ready's only once start's Run has ended without an error; Linkspan has been sent
  -- SIGTERM once where the results of both have been received, else not; and an error that Start has
  -- returned is that of a step that the log holds.
  pub record IsOrdered (w : Task S) : Type 0 where
    pub setup : SetupHolds w.setup (of_moment "start" w.log) (of_moment "ready" w.log)
    pub sent_once : w.terminations ≡ expected w.setup
    pub loop : LoopHolds w.loop w.log

  LoopHolds-append :
      (l : LoopPhase S) (log more : List (Performed S))
      → LoopHolds l log
      → LoopHolds l (log ++ more)
  LoopHolds-append selecting log more h = tt
  LoopHolds-append (handling moment p) log more h = (h.0, ErrorLogged-append log more p h.1)
  LoopHolds-append (returned none) log more h = tt
  LoopHolds-append (returned (some e)) log more h = IsLogged-append log more e h

  not_setup :
      (moment : String)
      → is_signal moment ≡ true
      → ((moment == "start") ≡ false) × ((moment == "ready") ≡ false)
  unfolding is_signal
  not_setup moment h = (not_name "start" refl, not_name "ready" refl)
    where
      not_name : (name : String) → is_signal name ≡ false → (moment == name) ≡ false
      not_name name n = elim (Bool-cases (moment == name)) [
        | inl q ↦ absurd (cc (sym n ∙ ap is_signal (sym ((eq_iff moment name).0 q)) ∙ h))
        | inr q ↦ q
      ]

  -- A fact of a phase, at the phase that the goroutine or the loop is in.
  setup_at :
      (w : Task S) (phase : SetupPhase S)
      → IsOrdered w
      → w.setup ≡ phase
      → SetupHolds phase (of_moment "start" w.log) (of_moment "ready" w.log)
  setup_at w phase h e =
      subst (λ k. SetupHolds k (of_moment "start" w.log) (of_moment "ready" w.log)) e h.setup

  loop_at :
      (w : Task S) (phase : LoopPhase S) → IsOrdered w → w.loop ≡ phase → LoopHolds phase w.log
  loop_at w phase h e = subst (λ k. LoopHolds k w.log) e h.loop

  count_at :
      (w : Task S) (phase : SetupPhase S)
      → IsOrdered w
      → w.setup ≡ phase
      → w.terminations ≡ expected phase
  count_at w phase h e = h.sent_once ∙ ap expected e

  sent-IsLogged :
      (w : Task S) (e : String) → IsOrdered w → w.setup ≡ sent (some e) → IsLogged w.log e
  sent-IsLogged w e h q = elim (setup_at w (sent (some e)) h q) [
    | inl f ↦ HasFailed-IsLogged "start" (steps_at "start" loaded) w.log e f.0
    | inr f ↦ HasFailed-IsLogged "ready" (steps_at "ready" loaded) w.log e f.1
  ]

  SetupHolds-over :
      (r : Option String) (es rs : List (Performed S))
      → SetupHolds (readying (over r)) es rs
      → SetupHolds (sent r) es rs
  SetupHolds-over none es rs h = h
  SetupHolds-over (some e) es rs h = inr h

  Moves-IsOrdered : {w v : Task S} → IsOrdered w → Moves wait loaded w v → IsOrdered v
  Moves-IsOrdered {w} h (start_moves p q) =
      let before = setup_at w (starting p) h q in
      record {
        setup = (
          subst (λ l. RunHolds (steps_at "start" loaded) l (next wait "start" p w.inner).0)
              (sym (own_lines wait "start" p w.inner w.log))
              (next-RunHolds wait "start" (steps_at "start" loaded) (of_moment "start" w.log) p
                w.inner before.0),
          other_lines wait "start" p w.inner w.log "ready" refl ∙ before.1,
        );
        sent_once = count_at w (starting p) h q;
        loop = LoopHolds-append w.loop w.log (next wait "start" p w.inner).2 h.loop;
      }
  Moves-IsOrdered {w} h (start_ends q) =
      let before = setup_at w (starting (over none)) h q in
      record {
        setup = (
          before.0,
          subst (λ l. Going (steps_at "ready" loaded) l (steps_at "ready" loaded)) (sym before.1)
              (refl, tt),
        );
        sent_once = count_at w (starting (over none)) h q;
        loop = h.loop;
      }
  Moves-IsOrdered {w} h (start_fails e q) = record {
    setup = inl (setup_at w (starting (over (some e))) h q);
    sent_once = count_at w (starting (over (some e))) h q;
    loop = h.loop;
  }
  Moves-IsOrdered {w} h (ready_moves p q) =
      let before = setup_at w (readying p) h q in
      record {
        setup = (
          subst (HasPassed (steps_at "start" loaded))
              (sym (other_lines wait "ready" p w.inner w.log "start" refl)) before.0,
          subst (λ l. RunHolds (steps_at "ready" loaded) l (next wait "ready" p w.inner).0)
              (sym (own_lines wait "ready" p w.inner w.log))
              (next-RunHolds wait "ready" (steps_at "ready" loaded) (of_moment "ready" w.log) p
                w.inner before.1),
        );
        sent_once = count_at w (readying p) h q;
        loop = LoopHolds-append w.loop w.log (next wait "ready" p w.inner).2 h.loop;
      }
  Moves-IsOrdered {w} h (ready_ends r q) = record {
    setup =
        SetupHolds-over r (of_moment "start" w.log) (of_moment "ready" w.log)
          (setup_at w (readying (over r)) h q);
    sent_once = count_at w (readying (over r)) h q;
    loop = h.loop;
  }
  Moves-IsOrdered {w} h (receives q l) = record {
    setup = setup_at w (sent none) h q;
    sent_once = ap suc (count_at w (sent none) h q);
    loop = h.loop;
  }
  Moves-IsOrdered {w} h (receives_error e q l) = record {
    setup = h.setup;
    sent_once = h.sent_once;
    loop = sent-IsLogged w e h q;
  }
  Moves-IsOrdered {w} h (context_ends l) = record {
    setup = h.setup;
    sent_once = h.sent_once;
    loop = tt;
  }
  Moves-IsOrdered {w} h (signalled moment s l) = record {
    setup = h.setup;
    sent_once = h.sent_once;
    loop = (s, tt);
  }
  Moves-IsOrdered {w} h (signal_moves moment p l) =
      let (s, logged) = loop_at w (handling moment p) h l in
      let (n, m) = not_setup moment s in
      record {
        setup =
            subst
              (λ es.
                SetupHolds w.setup es (of_moment "ready" (w.log ++ (next wait moment p w.inner).2)))
              (sym (other_lines wait moment p w.inner w.log "start" n))
              (subst (SetupHolds w.setup (of_moment "start" w.log))
                (sym (other_lines wait moment p w.inner w.log "ready" m)) h.setup);
        sent_once = h.sent_once;
        loop = (s, next-ErrorLogged wait moment w.log p w.inner logged);
      }
  Moves-IsOrdered {w} h (signal_ends moment l) = record {
    setup = h.setup;
    sent_once = h.sent_once;
    loop = tt;
  }
  Moves-IsOrdered {w} h (signal_fails moment e l) = record {
    setup = h.setup;
    sent_once = h.sent_once;
    loop = (loop_at w (handling moment (over (some e))) h l).1;
  }

  start_task-IsOrdered : (s : S) → IsOrdered (start_task wait loaded s)
  start_task-IsOrdered s = record { setup = ((refl, tt), refl); sent_once = refl; loop = tt }

  -- Start's goroutine and its loop, in any interleaving, whatever the steps answer and whatever signals
  -- come: the lines of the steps of start are a beginning of start's steps, and those of ready of ready's,
  -- in order, each but perhaps the last with success; a step of ready has run only if start's Run has ended
  -- without an error, all its steps having run or one having paused it; Linkspan has been sent SIGTERM at
  -- most once, and only where the same holds of ready; and an error that Start returns is that of a step
  -- that was performed and answered outside 2xx.
  pub Moved-IsOrdered :
      (s : S) {w : Task S} → Moved wait loaded (start_task wait loaded s) w → IsOrdered w
  Moved-IsOrdered s unmoved = start_task-IsOrdered s
  Moved-IsOrdered s (moved m n) = Moves-IsOrdered (Moved-IsOrdered s m) n
