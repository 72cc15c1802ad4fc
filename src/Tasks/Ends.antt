-- ===== src/Tasks/Ends.antt =====
-- How work ends: the state of a task whose work has ended.
use linkspan.Base.{
  ℕ, String, ◌≡◌, refl, ◌⊎◌, inl, inr, false, Option, none, some, lookup, arith, Result, ok, err,
  Bool-cases, ◌==◌, string_eq,
}
use linkspan.Tasks.{
  Task, World, failed, exited, working, settled, reported, Net, cancel, cancel_old, close_listener,
  entering, enlist, register, bound, start_bound, start_prepared, prepare, start, forked,
  guard_process, fire, guard_preset, publish, accepts, settle, report, conclude, wait_end,
  unlist_same, stop_begin, stop_cancel, stop_all_begin, Step, starts, releases, forks, arms, fires,
  closes, guards, publishes, answers, settles, reports, concludes, waited, stops, cancels,
  stops_all, Reached, at_start, after, outcome_error,
}
use linkspan.Tasks.Frozen.{is_working}

-- The state and the error say how the work ended.
pub record EndsWell (t : Task) : Type 0 where
  pub clean : t.phase ≡ settled none → t.state ≡ exited
  pub faulty : (e : String) → t.phase ≡ settled (some e) → (t.state ≡ failed) × (t.error ≡ e)
  pub final : is_working t.phase ≡ false → (t.state ≡ failed) ⊎ (t.state ≡ exited)

pub record AllEnd (w : World) : Type 0 where
  pub each : (h : ℕ) → EndsWell (w.heap h)

-- A step that leaves the phase, and the state and error where the work has ended.
record Alike (a b : Task) : Type 0 where
  same_phase : b.phase ≡ a.phase
  same_state : is_working a.phase ≡ false → b.state ≡ a.state
  same_error : is_working a.phase ≡ false → b.error ≡ a.error

record AllAlike (v w : World) : Type 0 where
  alike : (h : ℕ) → Alike (v.heap h) (w.heap h)

Alike-AllEnd : {v w : World} → AllAlike v w → AllEnd v → AllEnd w
Alike-AllEnd l s = record {
  each = λ h.
      let a = l.alike h in
      let b = s.each h in
      record {
        clean = λ p. ground (arith, a.same_phase, a.same_state, b.clean);
        faulty = λ e p. ground (arith, a.same_phase, a.same_state, a.same_error, b.faulty e);
        final = λ p. ground (arith, a.same_phase, a.same_state, b.final);
      };
}

module _ (h : ℕ) (w : World) where
  AllAlike-cancel : AllAlike w (cancel h w)
  unfolding cancel
  AllAlike-cancel = ground arith

  AllAlike-close_listener : AllAlike w (close_listener h w)
  unfolding close_listener
  AllAlike-close_listener = ground arith

  AllAlike-forked : (process : ℕ) → AllAlike w (forked h process w)
  unfolding forked
  AllAlike-forked process = ground arith

  AllAlike-guard_process : (process : ℕ) → AllAlike w (guard_process h process w)
  unfolding guard_process
  AllAlike-guard_process process = ground arith

  AllAlike-fire : AllAlike w (fire h w)
  unfolding fire
  AllAlike-fire = ground arith

  AllAlike-guard_preset : (preset : ℕ) → AllAlike w (guard_preset h preset w)
  unfolding guard_preset
  AllAlike-guard_preset preset = ground arith

  AllAlike-publish : (process : ℕ) → (w.heap h).phase ≡ working → AllAlike w (publish h process w)
  unfolding publish
  AllAlike-publish process live = ground arith

  AllAlike-accepts : (w.heap h).phase ≡ working → AllAlike w (accepts h w)
  unfolding accepts
  AllAlike-accepts live = ground arith

module _ {w : World} (s : AllEnd w) where
  enlist-AllEnd : (t : Task) → t.phase ≡ working → AllEnd (enlist t w)
  unfolding enlist
  enlist-AllEnd t fresh = record {
    each = λ h. record {
      clean = λ p. ground (arith, (s.each h).clean);
      faulty = λ e p. ground (arith, (s.each h).faulty e);
      final = λ p. ground (arith, (s.each h).final);
    };
  }

  settle-AllEnd : (h : ℕ) (e : Option String) → AllEnd (settle h e w)
  unfolding settle
  settle-AllEnd h e = record {
    each = λ g. record {
      clean = λ p. ground (arith, (s.each g).clean);
      faulty = λ x p. ground (arith, (s.each g).faulty x);
      final = λ p. ground (arith, (s.each g).final);
    };
  }

  report-AllEnd : (h : ℕ) (e : Option String) → (w.heap h).phase ≡ settled e → AllEnd (report h e w)
  unfolding report
  report-AllEnd h e q = record {
    each = λ g. record {
      clean = λ p. ground (arith, (s.each g).clean);
      faulty = λ x p. ground (arith, (s.each g).faulty x);
      final = λ p. ground (arith, (s.each g).final, (s.each h).final);
    };
  }

  cancel-AllEnd : (h : ℕ) → AllEnd (cancel h w)
  cancel-AllEnd h = Alike-AllEnd (AllAlike-cancel h w) s

  cancel_old-AllEnd : (o : Option ℕ) → AllEnd (cancel_old o w)
  unfolding cancel_old
  cancel_old-AllEnd none = s
  cancel_old-AllEnd (some h) = cancel-AllEnd h

conclude-AllEnd :
    {w : World} → AllEnd w → (h : ℕ) → (w.heap h).phase ≡ reported → AllEnd (conclude h w)
unfolding conclude
conclude-AllEnd {w} s h q =
    let c = cancel-AllEnd s h in
    let same = ((AllAlike-cancel h w).alike h).same_phase in
    record {
      each = λ g. record {
        clean = λ p. ground (arith, (c.each g).clean);
        faulty = λ x p. ground (arith, (c.each g).faulty x);
        final = λ p. ground (arith, (c.each g).final, (c.each h).final, same);
      };
    }

register-AllEnd : {w : World} → AllEnd w → (t : Task) → AllEnd (register t w)
unfolding register entering
register-AllEnd {w} s t =
    enlist-AllEnd (cancel_old-AllEnd s (lookup (entering t).id w.registry)) (entering t) refl

start_bound-AllEnd :
    {w : World} → AllEnd w → (a : Result String) (t : Task) → AllEnd (start_bound a t w).1
unfolding start_bound
start_bound-AllEnd s (err e) t = s
start_bound-AllEnd s (ok addr) t = register-AllEnd s (bound addr t)

start-AllEnd : {w : World} → AllEnd w → (net : Net) (t : Task) → AllEnd (start net t w).1
unfolding start start_prepared
start-AllEnd {w} s net t = elim (Bool-cases ((prepare t.work t).addr == "")) [
  | inl e ↦ rw e (register-AllEnd s (prepare t.work t))
  | inr e ↦ rw e (start_bound-AllEnd (record { each = s.each }) _ _)
]

Step-AllEnd : {v w : World} → Step v w → AllEnd v → AllEnd w
Step-AllEnd (starts net t w) s = start-AllEnd s net t
Step-AllEnd (releases h w b p) s = Alike-AllEnd (AllAlike-close_listener h w) s
Step-AllEnd (forks h process w b p q) s = Alike-AllEnd (AllAlike-forked h w process) s
Step-AllEnd (arms h process w b p q) s = Alike-AllEnd (AllAlike-guard_process h w process) s
Step-AllEnd (fires group w i) s = Alike-AllEnd (AllAlike-fire group w) s
Step-AllEnd (closes h w c) s = Alike-AllEnd (AllAlike-close_listener h w) s
Step-AllEnd (guards h w b p) s = Alike-AllEnd (AllAlike-guard_preset h w (w.heap h).pid) s
Step-AllEnd (publishes h process w b p q r) s = Alike-AllEnd (AllAlike-publish h w process p) s
Step-AllEnd (answers h w b p) s = Alike-AllEnd (AllAlike-accepts h w p) s
Step-AllEnd (settles h o w b p) s = settle-AllEnd s h (outcome_error o)
Step-AllEnd (reports h e w b p) s = report-AllEnd s h e p
Step-AllEnd (concludes h w b p) s = conclude-AllEnd s h p
Step-AllEnd (waited id h w b p) s =
    unfold wait_end unlist_same in Alike-AllEnd (record { alike = λ g. ground arith }) s
Step-AllEnd (stops id w) s =
    unfold stop_begin in Alike-AllEnd (record { alike = λ g. ground arith }) s
Step-AllEnd (cancels h w i) s = unfold stop_cancel in record { each = (cancel-AllEnd s h).each }
Step-AllEnd (stops_all w) s = unfold stop_all_begin in record { each = s.each }

-- After any interleaving, a task whose Run has returned is listed as exited where Run returned nil,
-- and as failed with Run's error where it returned one; and it stays failed or exited.
pub Reached-AllEnd : {w : World} → Reached w → AllEnd w
Reached-AllEnd at_start = record {
  each = λ h. record { clean = λ p. cc; faulty = λ e p. cc; final = λ p. cc };
}
Reached-AllEnd (after r st) = Step-AllEnd st (Reached-AllEnd r)
