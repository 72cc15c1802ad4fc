-- ===== src/Tasks/NoneLost.antt =====
-- Every interleaving of callers and goroutines keeps every task in sight.
use linkspan.Base.{ℕ, String, Option, arith, lookup}
use linkspan.Tasks.{
  World, empty_world, Step, starts, releases, forks, arms, fires, closes, guards, publishes,
  answers, settles, reports, concludes, waited, stops, cancels, stops_all, Reached, at_start, after,
  close_listener, forked, guard_process, fire, guard_preset, publish, accepts, settle, report,
  conclude, outcome_error,
}
use linkspan.Tasks.Later
use linkspan.Tasks.Tracked.{
  IsTracked, Later-IsTracked, start-IsTracked, wait_end-IsTracked, stop_begin-IsTracked,
  stop_cancel-IsTracked, stop_all_begin-IsTracked,
}

module _ {w : World} (s : IsTracked w) (h : ℕ) where
  close_listener-IsTracked : IsTracked (close_listener h w)
  unfolding close_listener
  close_listener-IsTracked =
      Later-IsTracked (Later.Later-close_listener h w) s (λ g p. ground (arith, s.over g))

  forked-IsTracked : (process : ℕ) → IsTracked (forked h process w)
  unfolding forked
  forked-IsTracked process =
      Later-IsTracked (Later.Later-forked h w process) s (λ g p. ground (arith, s.over g))

  guard_process-IsTracked : (process : ℕ) → IsTracked (guard_process h process w)
  unfolding guard_process
  guard_process-IsTracked process =
      Later-IsTracked (Later.Later-guard_process h w process) s (λ g p. ground (arith, s.over g))

  fire-IsTracked : IsTracked (fire h w)
  unfolding fire
  fire-IsTracked = Later-IsTracked (Later.Later-fire h w) s (λ g p. ground (arith, s.over g))

  guard_preset-IsTracked : (preset : ℕ) → IsTracked (guard_preset h preset w)
  unfolding guard_preset
  guard_preset-IsTracked preset =
      Later-IsTracked (Later.Later-guard_preset h w preset) s (λ g p. ground (arith, s.over g))

  publish-IsTracked : (process : ℕ) → IsTracked (publish h process w)
  unfolding publish
  publish-IsTracked process =
      Later-IsTracked (Later.Later-publish h w process) s (λ g p. ground (arith, s.over g))

  accepts-IsTracked : IsTracked (accepts h w)
  unfolding accepts
  accepts-IsTracked = Later-IsTracked (Later.Later-accepts h w) s (λ g p. ground (arith, s.over g))

  settle-IsTracked : (e : Option String) → IsTracked (settle h e w)
  unfolding settle
  settle-IsTracked e =
      Later-IsTracked (Later.Later-settle h w e) s (λ g p. ground (arith, s.over g))

  report-IsTracked : (e : Option String) → IsTracked (report h e w)
  unfolding report
  report-IsTracked e =
      Later-IsTracked (Later.Later-report h w e) s (λ g p. ground (arith, s.over g))

  conclude-IsTracked : IsTracked (conclude h w)
  unfolding conclude
  conclude-IsTracked =
      Later-IsTracked (Later.Later-conclude h w) s (λ g p. ground (arith, s.over g))

pub Step-IsTracked : {v w : World} → Step v w → IsTracked v → IsTracked w
Step-IsTracked (starts net t w) s = start-IsTracked s net t
Step-IsTracked (releases h w b p) s = close_listener-IsTracked s h
Step-IsTracked (forks h process w b p q) s = forked-IsTracked s h process
Step-IsTracked (arms h process w b p q) s = guard_process-IsTracked s h process
Step-IsTracked (fires group w i) s = fire-IsTracked s group
Step-IsTracked (closes h w c) s = close_listener-IsTracked s h
Step-IsTracked (guards h w b p) s = guard_preset-IsTracked s h (w.heap h).pid
Step-IsTracked (publishes h process w b p q r) s = publish-IsTracked s h process
Step-IsTracked (answers h w b p) s = accepts-IsTracked s h
Step-IsTracked (settles h o w b p) s = settle-IsTracked s h (outcome_error o)
Step-IsTracked (reports h e w b p) s = report-IsTracked s h e
Step-IsTracked (concludes h w b p) s = conclude-IsTracked s h
Step-IsTracked (waited id h w b p) s = wait_end-IsTracked s id h p
Step-IsTracked (stops id w) s = stop_begin-IsTracked s id
Step-IsTracked (cancels h w i) s = stop_cancel-IsTracked s h
Step-IsTracked (stops_all w) s = stop_all_begin-IsTracked s

empty-IsTracked : IsTracked empty_world
unfolding lookup
empty-IsTracked = record { listed = λ id h p. cc; accounted = λ h p. elim p [ ]; over = λ h p. cc }

-- After any interleaving of callers and goroutines, an id of the registry names a task that has that
-- id; each task that was started stands in the registry under its id, or is cancelled, or is held by a
-- Stop or StopAll that has still to cancel it; and a task whose done is closed is cancelled.
pub Reached-IsTracked : {w : World} → Reached w → IsTracked w
Reached-IsTracked at_start = empty-IsTracked
Reached-IsTracked (after r st) = Step-IsTracked st (Reached-IsTracked r)
