-- ===== src/Tasks/StopAll.antt =====
-- internal/tasks/tasks.go: StopAll as a whole. `Run must return once its context is done`: `outcome`
-- says how each task's Run returns.
use linkspan.Base.{
  ℕ, ◌<◌, String, ◌≡◌, refl, ◌≢◌, ◌⊎◌, inl, inr, ◌∙◌, true, false, Option, none, some, List, [],
  ◌∷◌, Map, lookup, arith, In, ok, ap,
}
use linkspan.Tasks.{
  Task, World, Phase, working, settled, reported, ended, Outcome, outcome_error, cancel, settle,
  report, fatal_error, offer, conclude, handles, stop_cancel, stop_all_begin, Net, start,
}
use native.Mathlib.Decide.{ℕ_discrete}
use linkspan.Tasks.Starting.{start-Entered}

-- The rest of a goroutine, from the phase that it has reached.
pub unwind_from : Phase → Outcome → ℕ → World → World
unwind_from working o h w = conclude h (report h (outcome_error o) (settle h (outcome_error o) w))
unwind_from (settled e) o h w = conclude h (report h e w)
unwind_from reported o h w = conclude h w
unwind_from ended o h w = w

-- t.cancel(); <-t.done: `meanwhile` is what every other goroutine does until the task has ended.
pub stop_one : (ℕ → Outcome) → (World → World) → ℕ → World → World
unfolding stop_cancel unwind_from
stop_one outcome meanwhile h w =
    let c = meanwhile (stop_cancel h w) in unwind_from (c.heap h).phase (outcome h) h c

-- The loop over the copy of the registry.
pub stop_each : (ℕ → Outcome) → (World → World) → List ℕ → World → World
unfolding stop_one
stop_each outcome meanwhile [] w = w
stop_each outcome meanwhile (h ∷ hs) w =
    stop_each outcome meanwhile hs (stop_one outcome meanwhile h w)

pub stop_all : (ℕ → Outcome) → (World → World) → World → World
unfolding stop_each stop_all_begin
stop_all outcome meanwhile w = stop_each outcome meanwhile (handles w.registry) (stop_all_begin w)

-- Nothing happens beside the loop.
abbrev pub alone : World → World
alone w = w

-- What stopping one task leaves as it was.
record Stopped (h : ℕ) (v w : World) : Type 0 where
  same_registry : w.registry ≡ v.registry
  same_fatal : w.fatal ≡ v.fatal
  same_next : w.next ≡ v.next
  done : (w.heap h).phase ≡ ended
  others : (g : ℕ) → g ≢ h → w.heap g ≡ v.heap g

stop_cancel-Stopped :
    (h : ℕ) (w : World)
    → ((stop_cancel h w).registry ≡ w.registry)
      × ((stop_cancel h w).fatal ≡ w.fatal)
      × ((stop_cancel h w).next ≡ w.next)
      × (((stop_cancel h w).heap h).cancelled ≡ true)
      × ((g : ℕ) → g ≢ h → (stop_cancel h w).heap g ≡ w.heap g)
unfolding stop_cancel cancel
stop_cancel-Stopped h w = ground arith

fatal_error-cancelled : (e : Option String) (t : Task) → t.cancelled ≡ true → fatal_error e t ≡ none
unfolding fatal_error
fatal_error-cancelled none t c = refl
fatal_error-cancelled (some e) t c = ground arith

offer-none : (o : Option String) → offer o none ≡ o
unfolding offer
offer-none none = refl
offer-none (some x) = refl

conclude-Stopped : (h : ℕ) (w : World) → (w.heap h).cancelled ≡ true → Stopped h w (conclude h w)
unfolding conclude cancel
conclude-Stopped h w c = ground arith

report-Stopped :
    (h : ℕ) (e : Option String) (w : World)
    → (w.heap h).cancelled ≡ true
    → Stopped h w (conclude h (report h e w))
unfolding conclude cancel report
report-Stopped h e w c = ground (arith, fatal_error-cancelled e (w.heap h) c, offer-none w.fatal)

settle-keeps :
    (h : ℕ) (e : Option String) (w : World)
    → (((settle h e w).heap h).cancelled ≡ (w.heap h).cancelled)
      × ((g : ℕ) → g ≢ h → (settle h e w).heap g ≡ w.heap g)
unfolding settle
settle-keeps h e w = ground arith

settle-Stopped :
    (h : ℕ) (e : Option String) (w : World)
    → (w.heap h).cancelled ≡ true
    → Stopped h w (conclude h (report h e (settle h e w)))
settle-Stopped h e w c =
    let k = settle-keeps h e w in
    let r = report-Stopped h e (settle h e w) (k.0 ∙ c) in
    record {
      same_registry = unfold settle in r.same_registry;
      same_fatal = unfold settle in r.same_fatal;
      same_next = unfold settle in r.same_next;
      done = r.done;
      others = λ g d. r.others g d ∙ k.1 g d;
    }

unwind_from-Stopped :
    (p : Phase) (o : Outcome) (h : ℕ) (w : World)
    → (w.heap h).phase ≡ p
    → (w.heap h).cancelled ≡ true
    → Stopped h w (unwind_from p o h w)
unfolding unwind_from
unwind_from-Stopped working o h w e c = settle-Stopped h (outcome_error o) w c
unwind_from-Stopped (settled x) o h w e c = report-Stopped h x w c
unwind_from-Stopped reported o h w e c = conclude-Stopped h w c
unwind_from-Stopped ended o h w e c = record {
  same_registry = refl;
  same_fatal = refl;
  same_next = refl;
  done = e;
  others = λ g d. refl;
}

stop_one-Stopped :
    (outcome : ℕ → Outcome) (h : ℕ) (w : World) → Stopped h w (stop_one outcome alone h w)
unfolding stop_one
stop_one-Stopped outcome h w =
    let c = stop_cancel-Stopped h w in
    let u = unwind_from-Stopped _ (outcome h) h (stop_cancel h w) refl c.3 in
    record {
      same_registry = u.same_registry ∙ c.0;
      same_fatal = u.same_fatal ∙ c.1;
      same_next = u.same_next ∙ c.2;
      done = u.done;
      others = λ g d. u.others g d ∙ c.4 g d;
    }

-- What stopping some tasks leaves as it was.
pub record AllStopped (hs : List ℕ) (v w : World) : Type 0 where
  pub same_registry : w.registry ≡ v.registry
  pub same_fatal : w.fatal ≡ v.fatal
  pub done : (h : ℕ) → In h hs ⊎ ((v.heap h).phase ≡ ended) → (w.heap h).phase ≡ ended
  pub others : (h : ℕ) → ¬ In h hs → w.heap h ≡ v.heap h

stop_each-AllStopped :
    (outcome : ℕ → Outcome) (hs : List ℕ) (w : World)
    → AllStopped hs w (stop_each outcome alone hs w)
unfolding stop_each
stop_each-AllStopped outcome [] w = record {
  same_registry = refl;
  same_fatal = refl;
  done = λ h o. elim o [ inl i ↦ elim i [ ] | inr e ↦ e ];
  others = λ h n. refl;
}
stop_each-AllStopped outcome (h ∷ hs) w =
    let one = stop_one-Stopped outcome h w in
    let rest = stop_each-AllStopped outcome hs (stop_one outcome alone h w) in
    record {
      same_registry = rest.same_registry ∙ one.same_registry;
      same_fatal = rest.same_fatal ∙ one.same_fatal;
      done = λ g o. elim (ℕ_discrete g h) [
        | yes here ↦ rest.done g (inr (rw here one.done))
        | no there ↦ rest.done g (elim o [
          | inl (inl here) ↦ absurd (there here)
          | inl (inr later) ↦ inl later
          | inr over ↦ inr (ap (λ (t : Task). t.phase) (one.others g there) ∙ over)
        ])
      ];
      others = λ g n. rest.others g (λ i. n (inr i)) ∙ one.others g (λ e. n (inl e));
    }

handles-In : (id : String) (m : Map ℕ) (h : ℕ) → lookup id m ≡ some h → In h (handles m)
unfolding lookup handles
handles-In id [] h p = cc
handles-In id ((k, g) ∷ m) h p = ground (arith, handles-In id m h)

-- What every goroutine keeps: a task that has ended stays ended, since its done is closed for good.
abbrev pub KeepsEnded : (World → World) → Type 0
KeepsEnded meanwhile =
    (w : World) (h : ℕ) → (w.heap h).phase ≡ ended → ((meanwhile w).heap h).phase ≡ ended

-- What the end of one task's goroutine makes of the phases: its own is the last, no other changes.
record Unwound (h : ℕ) (v w : World) : Type 0 where
  over : (w.heap h).phase ≡ ended
  others : (g : ℕ) → g ≢ h → (w.heap g).phase ≡ (v.heap g).phase

module _ (h : ℕ) (w : World) where
  conclude-Unwound : Unwound h w (conclude h w)
  unfolding conclude cancel
  conclude-Unwound = ground arith

  report-Unwound : (e : Option String) → Unwound h w (conclude h (report h e w))
  unfolding conclude cancel report
  report-Unwound e = ground arith

  settle-Unwound : (e : Option String) → Unwound h w (conclude h (report h e (settle h e w)))
  unfolding conclude cancel report settle
  settle-Unwound e = ground arith

  stop_cancel-phase : (g : ℕ) → ((stop_cancel h w).heap g).phase ≡ (w.heap g).phase
  unfolding stop_cancel cancel
  stop_cancel-phase g = ground arith

unwind_from-Unwound :
    (p : Phase) (o : Outcome) (h : ℕ) (w : World)
    → (w.heap h).phase ≡ p
    → Unwound h w (unwind_from p o h w)
unfolding unwind_from
unwind_from-Unwound working o h w e = settle-Unwound h w (outcome_error o)
unwind_from-Unwound (settled x) o h w e = report-Unwound h w x
unwind_from-Unwound reported o h w e = conclude-Unwound h w
unwind_from-Unwound ended o h w e = record { over = e; others = λ g d. refl }

module _ (outcome : ℕ → Outcome) (meanwhile : World → World) (keeps : KeepsEnded meanwhile) where
  stop_one-ends :
      (h g : ℕ) (w : World)
      → (g ≡ h) ⊎ ((w.heap g).phase ≡ ended)
      → ((stop_one outcome meanwhile h w).heap g).phase ≡ ended
  unfolding stop_one
  stop_one-ends h g w o =
      let u = unwind_from-Unwound _ (outcome h) h (meanwhile (stop_cancel h w)) refl in
      elim (ℕ_discrete g h) [
        | yes here ↦ rw here u.over
        | no there ↦ elim o [
          | inl here ↦ absurd (there here)
          | inr over ↦ u.others g there ∙ keeps (stop_cancel h w) g (stop_cancel-phase h w g ∙ over)
        ]
      ]

  stop_each-ends :
      (hs : List ℕ) (g : ℕ) (w : World)
      → In g hs ⊎ ((w.heap g).phase ≡ ended)
      → ((stop_each outcome meanwhile hs w).heap g).phase ≡ ended
  unfolding stop_each
  stop_each-ends [] g w (inl i) = elim i [ ]
  stop_each-ends [] g w (inr e) = e
  stop_each-ends (h ∷ hs) g w (inl (inl here)) =
      stop_each-ends hs g (stop_one outcome meanwhile h w) (inr (stop_one-ends h g w (inl here)))
  stop_each-ends (h ∷ hs) g w (inl (inr later)) =
      stop_each-ends hs g (stop_one outcome meanwhile h w) (inl later)
  stop_each-ends (h ∷ hs) g w (inr over) =
      stop_each-ends hs g (stop_one outcome meanwhile h w) (inr (stop_one-ends h g w (inr over)))

pub stop_all-ends :
    (outcome : ℕ → Outcome) (meanwhile : World → World) (w : World) (id : String) (h : ℕ)
    → KeepsEnded meanwhile
    → lookup id w.registry ≡ some h
    → ((stop_all outcome meanwhile w).heap h).phase ≡ ended
unfolding stop_all stop_all_begin
stop_all-ends outcome meanwhile w id h keeps p =
    stop_each-ends outcome meanwhile keeps (handles w.registry) h (stop_all_begin w)
      (inl (handles-In id w.registry h p))

-- A task that is started between StopAll's copy of the registry and its end, while its loop has
-- still to stop `hs`, outlives StopAll: it stays listed, is not cancelled, and its work goes on.
pub late_start-survives :
    (outcome : ℕ → Outcome) (hs : List ℕ) (net : Net) (t c : Task) (w : World)
    → ((h : ℕ) → In h hs → h < w.next)
    → (start net t w).0 ≡ ok c
    → (lookup c.id (stop_each outcome alone hs (start net t w).1).registry ≡ some w.next)
      × (((stop_each outcome alone hs (start net t w).1).heap w.next).cancelled ≡ false)
      × (((stop_each outcome alone hs (start net t w).1).heap w.next).phase ≡ working)
late_start-survives outcome hs net t c w below p =
    let e = start-Entered net t w c p in
    let all = stop_each-AllStopped outcome hs (start net t w).1 in
    let same = all.others w.next (λ i. absurd (omega (arith, below w.next i))) ∙ e.stored in
    (rw all.same_registry e.listed, rw same e.fresh.1, rw same e.fresh.0)
