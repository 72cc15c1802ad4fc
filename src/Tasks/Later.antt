-- ===== src/Tasks/Later.antt =====
-- What one task's goroutine, and a cancellation, leave as it was: the registry, and of each task its
-- id, kind and work.
use linkspan.Base.{ℕ, String, ◌≡◌, refl, ◌∙◌, true, Option, none, some, arith}
use linkspan.Tasks.{
  Task, World, cancel, cancel_old, close_listener, settle, report, conclude, accepts, forked,
  guard_process, fire, guard_preset, publish,
}

-- `b` is `a` at a later time.
pub record Grew (a b : Task) : Type 0 where
  pub same_id : b.id ≡ a.id
  pub same_kind : b.kind ≡ a.kind
  pub same_work : b.work ≡ a.work
  pub still : a.cancelled ≡ true → b.cancelled ≡ true

pub record Later (v w : World) : Type 0 where
  pub same_next : w.next ≡ v.next
  pub same_registry : w.registry ≡ v.registry
  pub same_stopping : w.stopping ≡ v.stopping
  pub grew : (h : ℕ) → Grew (v.heap h) (w.heap h)

pub Later-refl : (w : World) → Later w w
Later-refl w = record {
  same_next = refl;
  same_registry = refl;
  same_stopping = refl;
  grew = λ h. record { same_id = refl; same_kind = refl; same_work = refl; still = λ c. c };
}

pub Later-trans : {u v w : World} → Later u v → Later v w → Later u w
Later-trans a b = record {
  same_next = b.same_next ∙ a.same_next;
  same_registry = b.same_registry ∙ a.same_registry;
  same_stopping = b.same_stopping ∙ a.same_stopping;
  grew = λ h. record {
    same_id = (b.grew h).same_id ∙ (a.grew h).same_id;
    same_kind = (b.grew h).same_kind ∙ (a.grew h).same_kind;
    same_work = (b.grew h).same_work ∙ (a.grew h).same_work;
    still = λ c. (b.grew h).still ((a.grew h).still c);
  };
}

module _ (h : ℕ) (w : World) where
  pub Later-close_listener : Later w (close_listener h w)
  unfolding close_listener
  Later-close_listener = ground arith

  pub Later-cancel : Later w (cancel h w)
  unfolding cancel
  Later-cancel = ground arith

  pub cancel-cancelled : ((cancel h w).heap h).cancelled ≡ true
  unfolding cancel
  cancel-cancelled = ground arith

  pub Later-settle : (e : Option String) → Later w (settle h e w)
  unfolding settle
  Later-settle e = ground arith

  pub Later-report : (e : Option String) → Later w (report h e w)
  unfolding report
  Later-report e = ground arith

  pub Later-conclude : Later w (conclude h w)
  unfolding conclude
  Later-conclude = ground arith

  pub Later-accepts : Later w (accepts h w)
  unfolding accepts
  Later-accepts = ground arith

  pub Later-forked : (process : ℕ) → Later w (forked h process w)
  unfolding forked
  Later-forked process = ground arith

  pub Later-guard_process : (process : ℕ) → Later w (guard_process h process w)
  unfolding guard_process
  Later-guard_process process = ground arith

  pub Later-fire : Later w (fire h w)
  unfolding fire
  Later-fire = ground arith

  pub Later-guard_preset : (preset : ℕ) → Later w (guard_preset h preset w)
  unfolding guard_preset
  Later-guard_preset preset = ground arith

  pub Later-publish : (process : ℕ) → Later w (publish h process w)
  unfolding publish
  Later-publish process = ground arith

pub Later-cancel_old : (o : Option ℕ) (w : World) → Later w (cancel_old o w)
unfolding cancel_old
Later-cancel_old none w = Later-refl w
Later-cancel_old (some h) w = Later-cancel h w
