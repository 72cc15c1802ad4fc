-- ===== src/Tasks/Tracked.antt =====
-- No task is lost: whatever callers and goroutines do, each task that was started is in the registry
-- under its id, or cancelled, or held by a Stop or StopAll that is about to cancel it.
use linkspan.Base.{
  ℕ, ◌<◌, String, ◌≡◌, refl, ◌⊎◌, inl, inr, true, Option, none, some, List, [], ◌∷◌, Map, lookup,
  lookup-insert, lookup-delete, arith, Bool-cases, Result, ok, err, ◌==◌, string_eq, In,
  In-append_left, In-append_right, eq_iff, str_eq_refl,
}
use linkspan.Tasks.{
  Task, World, ended, Net, cancel, cancel_old, entering, enlist, register, bound, start_bound,
  start_prepared, prepare, start, handles, forget, unlist_same, wait_end, stop_begin, stop_cancel,
  stop_all_begin, working,
}
use linkspan.Tasks.Later

pub record IsTracked (w : World) : Type 0 where
  pub listed :
      (id : String) (h : ℕ) → lookup id w.registry ≡ some h → (h < w.next) × ((w.heap h).id ≡ id)
  pub accounted :
      (h : ℕ)
      → h < w.next
      → (lookup (w.heap h).id w.registry ≡ some h)
        ⊎ (((w.heap h).cancelled ≡ true) ⊎ In h w.stopping)
  pub over : (h : ℕ) → (w.heap h).phase ≡ ended → (w.heap h).cancelled ≡ true

module _ {v w : World} (l : Later.Later v w) (s : IsTracked v) where
  Later-listed :
      (id : String) (h : ℕ) → lookup id w.registry ≡ some h → (h < w.next) × ((w.heap h).id ≡ id)
  Later-listed id h p =
      ground (arith, s.listed id h, l.same_registry, l.same_next, (l.grew h).same_id)

  Later-accounted :
      (h : ℕ)
      → h < w.next
      → (lookup (w.heap h).id w.registry ≡ some h)
        ⊎ (((w.heap h).cancelled ≡ true) ⊎ In h w.stopping)
  Later-accounted h p =
      rw (l.same_registry, l.same_stopping, (l.grew h).same_id)
        (elim (s.accounted h (rw l.same_next at p)) [
          | inl here ↦ inl here
          | inr (inl gone) ↦ inr (inl ((l.grew h).still gone))
          | inr (inr pending) ↦ inr (inr pending)
        ])

  -- A later world is tracked if each task that has ended in it is cancelled.
  pub Later-IsTracked :
      ((h : ℕ) → (w.heap h).phase ≡ ended → (w.heap h).cancelled ≡ true) → IsTracked w
  Later-IsTracked over = record { listed = Later-listed; accounted = Later-accounted; over = over }

handles-In : (id : String) (m : Map ℕ) (h : ℕ) → lookup id m ≡ some h → In h (handles m)
unfolding lookup handles
handles-In id [] h p = cc
handles-In id ((k, g) ∷ m) h p = ground (arith, handles-In id m h)

In-forget : (g h : ℕ) (hs : List ℕ) → In g hs → (g ≡ h) ⊎ In g (forget h hs)
unfolding forget
In-forget g h [] i = elim i [ ]
In-forget g h (x ∷ hs) i = ground (arith, In-forget g h hs)

module _ {w : World} (s : IsTracked w) where
  over-cancel :
      (h g : ℕ) → ((cancel h w).heap g).phase ≡ ended → ((cancel h w).heap g).cancelled ≡ true
  unfolding cancel
  over-cancel h g p = ground (arith, s.over g)

  cancel-IsTracked : (h : ℕ) → IsTracked (cancel h w)
  cancel-IsTracked h = Later-IsTracked (Later.Later-cancel h w) s (over-cancel h)

  cancel_old-IsTracked : (o : Option ℕ) → IsTracked (cancel_old o w)
  unfolding cancel_old
  cancel_old-IsTracked none = s
  cancel_old-IsTracked (some h) = cancel-IsTracked h

  -- A task may enter under an id if whatever has the id is cancelled.
  enlist-IsTracked :
      (t : Task)
      → ((h : ℕ) → lookup t.id w.registry ≡ some h → (w.heap h).cancelled ≡ true)
      → t.phase ≡ working
      → IsTracked (enlist t w)
  unfolding enlist
  enlist-IsTracked t replaced fresh = record {
    listed = λ id h p.
        ground (arith, lookup-insert t.id id w.next w.registry, eq_iff t.id id, s.listed id h);
    accounted = λ h p. ground (
      arith,
      lookup-insert t.id (w.heap h).id w.next w.registry,
      lookup-insert t.id t.id w.next w.registry,
      eq_iff t.id (w.heap h).id,
      str_eq_refl t.id,
      replaced h,
      s.accounted h,
    );
    over = λ h p. ground (arith, s.over h);
  }

  pub stop_all_begin-IsTracked : IsTracked (stop_all_begin w)
  unfolding stop_all_begin lookup
  stop_all_begin-IsTracked = record {
    listed = λ id h p. cc;
    accounted = λ h p. elim (s.accounted h p) [
      | inl here ↦
          inr (
            inr (In-append_left h (handles w.registry) w.stopping (handles-In _ w.registry h here)))
      | inr (inl gone) ↦ inr (inl gone)
      | inr (inr pending) ↦ inr (inr (In-append_right h (handles w.registry) w.stopping pending))
    ];
    over = s.over;
  }

  pub stop_begin-IsTracked : (id : String) → IsTracked (stop_begin id w).1
  unfolding stop_begin
  stop_begin-IsTracked id = record {
    listed = λ j h p. ground (arith, lookup-delete id j w.registry, s.listed j h);
    accounted = λ h p.
        ground (
          arith,
          lookup-delete id (w.heap h).id w.registry,
          eq_iff id (w.heap h).id,
          s.accounted h,
        );
    over = λ h p. ground (arith, s.over h);
  }

  pub stop_cancel-IsTracked : (h : ℕ) → IsTracked (stop_cancel h w)
  unfolding stop_cancel
  stop_cancel-IsTracked h = record {
    listed = (cancel-IsTracked h).listed;
    accounted = λ g p. elim ((cancel-IsTracked h).accounted g p) [
      | inl here ↦ inl here
      | inr (inl gone) ↦ inr (inl gone)
      | inr (inr pending) ↦ elim (In-forget g h (cancel h w).stopping pending) [
        | inl e ↦ inr (inl (rw e (Later.cancel-cancelled h w)))
        | inr rest ↦ inr (inr rest)
      ]
    ];
    over = (cancel-IsTracked h).over;
  }

  pub wait_end-IsTracked :
      (id : String) (h : ℕ) → (w.heap h).phase ≡ ended → IsTracked (wait_end id h w).1
  unfolding wait_end unlist_same
  wait_end-IsTracked id h done = record {
    listed = λ j g p. ground (arith, lookup-delete id j w.registry, s.listed j g);
    accounted = λ g p. ground (
      arith,
      lookup-delete id (w.heap g).id w.registry,
      eq_iff id (w.heap g).id,
      s.accounted g,
      s.over h done,
    );
    over = λ g p. ground (arith, s.over g);
  }

cancel_old-cancelled :
    (o : Option ℕ) (w : World) (h : ℕ) → o ≡ some h → ((cancel_old o w).heap h).cancelled ≡ true
unfolding cancel_old
cancel_old-cancelled none w h e = cc
cancel_old-cancelled (some g) w h e = ground (arith, Later.cancel-cancelled g w)

register-IsTracked : {w : World} → IsTracked w → (t : Task) → IsTracked (register t w)
unfolding register entering
register-IsTracked {w} s t =
    let o = lookup (entering t).id w.registry in
    enlist-IsTracked (cancel_old-IsTracked s o) (entering t)
      (λ h p. cancel_old-cancelled o w h (rw (Later.Later-cancel_old o w).same_registry at p)) refl

start_bound-IsTracked :
    {w : World} → IsTracked w → (a : Result String) (t : Task) → IsTracked (start_bound a t w).1
unfolding start_bound
start_bound-IsTracked s (err e) t = s
start_bound-IsTracked s (ok addr) t = register-IsTracked s (bound addr t)

-- Start keeps every task in sight, whether the bind fails, or an earlier task is replaced.
pub start-IsTracked :
    {w : World} → IsTracked w → (net : Net) (t : Task) → IsTracked (start net t w).1
unfolding start start_prepared
start-IsTracked {w} s net t = elim (Bool-cases ((prepare t.work t).addr == "")) [
  | inl e ↦ rw e (register-IsTracked s (prepare t.work t))
  | inr e ↦ rw e (
      start_bound-IsTracked (record { listed = s.listed; accounted = s.accounted; over = s.over }) _
        _)
]
