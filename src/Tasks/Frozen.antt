-- ===== src/Tasks/Frozen.antt =====
-- What no later step changes of a task whose work has ended: its id, work, state and error.
use linkspan.Base.{ℕ, ◌<◌, ◌≤◌, String, ◌≡◌, Bool, true, false, Option, arith, string_eq}
use linkspan.Tasks.{
  Task, World, Phase, working, cancel, close_listener, enlist, forked, guard_process, fire,
  guard_preset, publish, accepts, settle, report, conclude,
}

abbrev pub is_working : Phase → Bool
is_working working = true
is_working _ = false

-- What stays of a task whose work has ended.
pub record Fixed (a b : Task) : Type 0 where
  pub over : is_working b.phase ≡ false
  pub same_id : b.id ≡ a.id
  pub same_work : b.work ≡ a.work
  pub same_state : b.state ≡ a.state
  pub same_error : b.error ≡ a.error

pub record Frozen (v w : World) : Type 0 where
  pub grows : v.next ≤ w.next
  pub fixed :
      (h : ℕ) → h < v.next → is_working (v.heap h).phase ≡ false → Fixed (v.heap h) (w.heap h)

pub Frozen-refl : (w : World) → Frozen w w
Frozen-refl w = ground arith

pub Frozen-trans : {u v w : World} → Frozen u v → Frozen v w → Frozen u w
Frozen-trans a b = record {
  grows = ground (arith, a.grows, b.grows);
  fixed = λ h p q.
      ground (arith, a.fixed h p q, b.fixed h (ground (arith, a.grows)) (a.fixed h p q).over);
}

module _ (h : ℕ) (w : World) where
  pub Frozen-cancel : Frozen w (cancel h w)
  unfolding cancel
  Frozen-cancel = ground arith

  pub Frozen-close_listener : Frozen w (close_listener h w)
  unfolding close_listener
  Frozen-close_listener = ground arith

  pub Frozen-report : (e : Option String) → Frozen w (report h e w)
  unfolding report
  Frozen-report e = ground arith

  pub Frozen-conclude : Frozen w (conclude h w)
  unfolding conclude
  Frozen-conclude = ground arith

  pub Frozen-forked : (process : ℕ) → Frozen w (forked h process w)
  unfolding forked
  Frozen-forked process = ground arith

  pub Frozen-guard_process : (process : ℕ) → Frozen w (guard_process h process w)
  unfolding guard_process
  Frozen-guard_process process = ground arith

  pub Frozen-fire : Frozen w (fire h w)
  unfolding fire
  Frozen-fire = ground arith

  pub Frozen-guard_preset : (preset : ℕ) → Frozen w (guard_preset h preset w)
  unfolding guard_preset
  Frozen-guard_preset preset = ground arith

module _ (h : ℕ) (w : World) (live : (w.heap h).phase ≡ working) where
  pub Frozen-publish : (process : ℕ) → Frozen w (publish h process w)
  unfolding publish
  Frozen-publish process = ground arith

  pub Frozen-accepts : Frozen w (accepts h w)
  unfolding accepts
  Frozen-accepts = ground arith

  pub Frozen-settle : (e : Option String) → Frozen w (settle h e w)
  unfolding settle
  Frozen-settle e = ground arith

pub Frozen-enlist : (t : Task) (w : World) → Frozen w (enlist t w)
unfolding enlist
Frozen-enlist t w = ground arith
