-- ===== src/Tasks/Caught.antt =====
-- The process of a task dies with it: cancellation kills the process group, whenever it comes.
use linkspan.Base.{
  ℕ, String, update, ◌≡◌, refl, ◌∙◌, ◌⊎◌, List, [], ◌∷◌, nat_beq_iff, nat_eq, true, false, inl, inr,
  Option, none, some, lookup, arith, In, In-append_left, In-append_right, Result, ok, err,
  Bool-cases, ◌==◌, string_eq,
}
use linkspan.Tasks.{
  Task, World, working, ended, Net, cancel, cancel_old, close_listener, entering, enlist, register,
  bound, start_bound, start_prepared, prepare, start, forked, guard_process, fire, forget,
  guard_preset, publish, accepts, settle, report, conclude, wait_end, unlist_same, stop_begin,
  stop_cancel, stop_all_begin, Step, starts, releases, forks, arms, fires, closes, guards,
  publishes, answers, settles, reports, concludes, waited, stops, cancels, stops_all, Reached,
  at_start, after, outcome_error,
}

-- While the work goes on and start has returned: where the task is cancelled, its process was killed or
-- its kill is called, and else the process is registered to be killed.
pub record IsCaught (t : Task) (killed firing : List ℕ) : Type 0 where
  pub dead :
      (p : ℕ)
      → t.phase ≡ working
      → t.process ≡ some p
      → t.guarded ≡ true
      → t.cancelled ≡ true
      → In p killed ⊎ In p firing
  pub armed :
      (p : ℕ)
      → t.phase ≡ working
      → t.process ≡ some p
      → t.guarded ≡ true
      → t.cancelled ≡ false
      → In p t.on_cancel

pub record AllCaught (w : World) : Type 0 where
  pub each : (h : ℕ) → IsCaught (w.heap h) w.killed w.firing

-- A step that starts no process and cancels nothing.
record Quiet (a b : Task) : Type 0 where
  begun : b.phase ≡ working → a.phase ≡ working
  same_process : b.process ≡ a.process
  same_guarded : b.guarded ≡ a.guarded
  same_cancelled : b.cancelled ≡ a.cancelled
  arms : (p : ℕ) → b.phase ≡ working → In p a.on_cancel → In p b.on_cancel

record Calm (v w : World) : Type 0 where
  kills : (p : ℕ) → In p v.killed ⊎ In p v.firing → In p w.killed ⊎ In p w.firing
  quiet : (h : ℕ) → Quiet (v.heap h) (w.heap h)

Calm-AllCaught : {v w : World} → Calm v w → AllCaught v → AllCaught w
Calm-AllCaught c s = record {
  each = λ h. record {
    dead = λ p a b g d. c.kills p (
        (s.each h).dead p ((c.quiet h).begun a) (cc ((c.quiet h).same_process))
          (cc ((c.quiet h).same_guarded)) (cc ((c.quiet h).same_cancelled)));
    armed = λ p a b g d. (c.quiet h).arms p a (
        (s.each h).armed p ((c.quiet h).begun a) (cc ((c.quiet h).same_process))
          (cc ((c.quiet h).same_guarded)) (cc ((c.quiet h).same_cancelled)));
  };
}

module _ (h : ℕ) (w : World) where
  Calm-close_listener : Calm w (close_listener h w)
  unfolding close_listener
  Calm-close_listener = ground arith

  Calm-guard_preset : (preset : ℕ) → Calm w (guard_preset h preset w)
  unfolding guard_preset
  Calm-guard_preset preset = ground arith

  Calm-publish : (process : ℕ) → Calm w (publish h process w)
  unfolding publish
  Calm-publish process = ground arith

  Calm-accepts : Calm w (accepts h w)
  unfolding accepts
  Calm-accepts = ground arith

  Calm-settle : (e : Option String) → Calm w (settle h e w)
  unfolding settle
  Calm-settle e = ground arith

  Calm-report : (e : Option String) → Calm w (report h e w)
  unfolding report
  Calm-report e = ground arith

  Calm-wait_end : (id : String) → Calm w (wait_end id h w).1
  unfolding wait_end unlist_same
  Calm-wait_end id = ground arith

  Calm-ends : Calm w (record w { heap = update w.heap h (record (w.heap h) { phase = ended }) })
  Calm-ends = ground arith

Calm-stop_begin : (id : String) (w : World) → Calm w (stop_begin id w).1
unfolding stop_begin
Calm-stop_begin id w = ground arith

module _ {w : World} (s : AllCaught w) where
  cancel-AllCaught : (h : ℕ) → AllCaught (cancel h w)
  unfolding cancel
  cancel-AllCaught h = record {
    each = λ g. record {
      dead = λ p a b d c. ground (
        arith,
        (s.each g).dead p,
        (s.each g).armed p,
        In-append_left p (w.heap h).on_cancel w.firing,
        In-append_right p (w.heap h).on_cancel w.firing,
      );
      armed = λ p a b d c. ground (arith, (s.each g).armed p);
    };
  }

  cancel_old-AllCaught : (o : Option ℕ) → AllCaught (cancel_old o w)
  unfolding cancel_old
  cancel_old-AllCaught none = s
  cancel_old-AllCaught (some h) = cancel-AllCaught h

  enlist-AllCaught : (t : Task) → t.process ≡ none → AllCaught (enlist t w)
  unfolding enlist
  enlist-AllCaught t fresh = record {
    each = λ g. record {
      dead = λ p a b d c. ground (arith, (s.each g).dead p);
      armed = λ p a b d c. ground (arith, (s.each g).armed p);
    };
  }

  forked-AllCaught : (h process : ℕ) → (w.heap h).process ≡ none → AllCaught (forked h process w)
  unfolding forked
  forked-AllCaught h process fresh = record {
    each = λ g. record {
      dead = λ p a b d c. ground (arith, (s.each g).dead p);
      armed = λ p a b d c. ground (arith, (s.each g).armed p);
    };
  }

  guard_process-AllCaught :
      (h process : ℕ) → (w.heap h).process ≡ some process → AllCaught (guard_process h process w)
  unfolding guard_process
  guard_process-AllCaught h process started = record {
    each = λ g. record {
      dead = λ p a b d c. ground (arith, (s.each g).dead p, started);
      armed = λ p a b d c. ground (arith, (s.each g).armed p, started);
    };
  }

-- A kill that is called is made or still to come.
In-forget : (p group : ℕ) (gs : List ℕ) → In p gs → (p ≡ group) ⊎ In p (forget group gs)
unfolding forget
In-forget p group [] i = elim i [ ]
In-forget p group (g ∷ gs) (inl e) = elim (Bool-cases (g == group)) [
  | inl q ↦ inl (e ∙ (nat_beq_iff g group).0 q)
  | inr q ↦ rw q (inr (inl e))
]
In-forget p group (g ∷ gs) (inr i) = elim (Bool-cases (g == group)) [
  | inl q ↦ rw q (inr i)
  | inr q ↦ elim (In-forget p group gs i) [ inl e ↦ inl e | inr j ↦ rw q (inr (inr j)) ]
]

Calm-fire : (group : ℕ) (w : World) → Calm w (fire group w)
unfolding fire
Calm-fire group w = record {
  kills = λ p i. elim i [
    | inl k ↦ inl (inr k)
    | inr f ↦ elim (In-forget p group w.firing f) [ inl e ↦ inl (inl e) | inr j ↦ inr j ]
  ];
  quiet = λ h. ground arith;
}

conclude-AllCaught : {w : World} → AllCaught w → (h : ℕ) → AllCaught (conclude h w)
unfolding conclude
conclude-AllCaught {w} s h = Calm-AllCaught (Calm-ends h (cancel h w)) (cancel-AllCaught s h)

stop_cancel-AllCaught : {w : World} → AllCaught w → (h : ℕ) → AllCaught (stop_cancel h w)
unfolding stop_cancel
stop_cancel-AllCaught s h = record { each = (cancel-AllCaught s h).each }

register-AllCaught : {w : World} → AllCaught w → (t : Task) → AllCaught (register t w)
unfolding register entering
register-AllCaught {w} s t =
    enlist-AllCaught (cancel_old-AllCaught s (lookup (entering t).id w.registry)) (entering t) refl

start_bound-AllCaught :
    {w : World} → AllCaught w → (a : Result String) (t : Task) → AllCaught (start_bound a t w).1
unfolding start_bound
start_bound-AllCaught s (err e) t = s
start_bound-AllCaught s (ok addr) t = register-AllCaught s (bound addr t)

start-AllCaught : {w : World} → AllCaught w → (net : Net) (t : Task) → AllCaught (start net t w).1
unfolding start start_prepared
start-AllCaught {w} s net t = elim (Bool-cases ((prepare t.work t).addr == "")) [
  | inl e ↦ rw e (register-AllCaught s (prepare t.work t))
  | inr e ↦ rw e (start_bound-AllCaught (record { each = s.each }) _ _)
]

Step-AllCaught : {v w : World} → Step v w → AllCaught v → AllCaught w
Step-AllCaught (starts net t w) s = start-AllCaught s net t
Step-AllCaught (releases h w b p) s = Calm-AllCaught (Calm-close_listener h w) s
Step-AllCaught (forks h process w b p q) s = forked-AllCaught s h process q
Step-AllCaught (arms h process w b p q) s = guard_process-AllCaught s h process q
Step-AllCaught (fires group w i) s = Calm-AllCaught (Calm-fire group w) s
Step-AllCaught (closes h w c) s = Calm-AllCaught (Calm-close_listener h w) s
Step-AllCaught (guards h w b p) s = Calm-AllCaught (Calm-guard_preset h w (w.heap h).pid) s
Step-AllCaught (publishes h process w b p q r) s = Calm-AllCaught (Calm-publish h w process) s
Step-AllCaught (answers h w b p) s = Calm-AllCaught (Calm-accepts h w) s
Step-AllCaught (settles h o w b p) s = Calm-AllCaught (Calm-settle h w (outcome_error o)) s
Step-AllCaught (reports h e w b p) s = Calm-AllCaught (Calm-report h w e) s
Step-AllCaught (concludes h w b p) s = conclude-AllCaught s h
Step-AllCaught (waited id h w b p) s = Calm-AllCaught (Calm-wait_end h w id) s
Step-AllCaught (stops id w) s = Calm-AllCaught (Calm-stop_begin id w) s
Step-AllCaught (cancels h w i) s = stop_cancel-AllCaught s h
Step-AllCaught (stops_all w) s = unfold stop_all_begin in record { each = s.each }

-- After any interleaving of callers, goroutines and the kills that cancellation calls, once start has
-- returned and while Run still waits for the process: where the task is cancelled, whichever came first,
-- the process group was sent SIGKILL or a goroutine is about to send it; where it is not, the group is
-- registered to be killed when the task is cancelled.
pub Reached-AllCaught : {w : World} → Reached w → AllCaught w
Reached-AllCaught at_start = record {
  each = λ h. record { dead = λ p a b d c. cc; armed = λ p a b d c. cc };
}
Reached-AllCaught (after r st) = Step-AllCaught st (Reached-AllCaught r)
