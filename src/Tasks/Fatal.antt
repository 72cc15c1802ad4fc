-- ===== src/Tasks/Fatal.antt =====
-- Which errors end Linkspan: those of Linkspan's own code, and none that a cancellation causes.
use linkspan.Base.{
  ℕ, ◌<◌, String, ◌≡◌, refl, ◌⊎◌, inl, inr, false, Option, none, some, [], ◌∷◌, Map, lookup, arith,
  ap, sym, ◌∙◌, Result, ok, err, concat, Bool-cases, ◌==◌, string_eq,
}
use linkspan.Tasks.{
  Task, World, Node, failed, settled, is_process, Net, cancel, cancel_old, close_listener, entering,
  enlist, register, bound, start_bound, start_prepared, prepare, start, forked, guard_process, fire,
  guard_preset, publish, accepts, settle, report, fatal_error, offer, conclude, wait_end,
  unlist_same, stop_begin, stop_cancel, stop_all_begin, Step, starts, releases, forks, arms, fires,
  closes, guards, publishes, answers, settles, reports, concludes, waited, stops, cancels,
  stops_all, Reached, at_start, after, outcome_error,
}
use linkspan.Tasks.Frozen
use linkspan.Tasks.Frozen.{is_working, Frozen}
use linkspan.Tasks.Ends.{AllEnd, Reached-AllEnd}

-- The message in Failed is the error of a task that failed, and that is neither a Spawn nor a Child.
pub record IsBlamed (w : World) (message : String) : Type 0 where
  pub cell : ℕ
  pub started : cell < w.next
  pub over : is_working (w.heap cell).phase ≡ false
  pub has_failed : (w.heap cell).state ≡ failed
  pub own_code : is_process (w.heap cell).work ≡ false
  pub says : message ≡ concat ((w.heap cell).id ∷ ": " ∷ (w.heap cell).error ∷ [])

pub record AllBlamed (w : World) : Type 0 where
  pub each : (m : String) → w.fatal ≡ some m → IsBlamed w m

Frozen-IsBlamed : {v w : World} (m : String) → Frozen v w → IsBlamed v m → IsBlamed w m
Frozen-IsBlamed m f b =
    let x = f.fixed b.cell b.started b.over in
    record {
      cell = b.cell;
      started = ground (arith, f.grows, b.started);
      over = x.over;
      has_failed = x.same_state ∙ b.has_failed;
      own_code = ap is_process x.same_work ∙ b.own_code;
      says = rw (x.same_id, x.same_error) b.says;
    }

Frozen-AllBlamed : {v w : World} → Frozen v w → w.fatal ≡ v.fatal → AllBlamed v → AllBlamed w
Frozen-AllBlamed f e s = record { each = λ m p. Frozen-IsBlamed m f (s.each m (sym e ∙ p)) }

cancel-fatal : (h : ℕ) (w : World) → (cancel h w).fatal ≡ w.fatal
unfolding cancel
cancel-fatal h w = ground arith

Frozen-cancel_old : (o : Option ℕ) (w : World) → Frozen w (cancel_old o w)
unfolding cancel_old
Frozen-cancel_old none w = Frozen.Frozen-refl w
Frozen-cancel_old (some h) w = Frozen.Frozen-cancel h w

cancel_old-fatal : (o : Option ℕ) (w : World) → (cancel_old o w).fatal ≡ w.fatal
unfolding cancel_old
cancel_old-fatal none w = refl
cancel_old-fatal (some h) w = cancel-fatal h w

register-AllBlamed : {w : World} → AllBlamed w → (t : Task) → AllBlamed (register t w)
unfolding register
register-AllBlamed {w} s t =
    let o = lookup (entering t).id w.registry in
    Frozen-AllBlamed (Frozen.Frozen-enlist (entering t) (cancel_old o w)) (unfold enlist in refl)
      (Frozen-AllBlamed (Frozen-cancel_old o w) (cancel_old-fatal o w) s)

start_bound-AllBlamed :
    {w : World} → AllBlamed w → (a : Result String) (t : Task) → AllBlamed (start_bound a t w).1
unfolding start_bound
start_bound-AllBlamed s (err e) t = s
start_bound-AllBlamed s (ok addr) t = register-AllBlamed s (bound addr t)

files-AllBlamed :
    {w : World} → AllBlamed w → (files : Map Node) → AllBlamed (record w { files = files })
files-AllBlamed s files =
    Frozen-AllBlamed (record { grows = ground arith; fixed = λ h p q. ground arith }) refl s

start-AllBlamed : {w : World} → AllBlamed w → (net : Net) (t : Task) → AllBlamed (start net t w).1
unfolding start start_prepared
start-AllBlamed {w} s net t = elim (Bool-cases ((prepare t.work t).addr == "")) [
  | inl e ↦ rw e (register-AllBlamed s (prepare t.work t))
  | inr e ↦ rw e (start_bound-AllBlamed (files-AllBlamed s _) _ _)
]

-- What the deferred function offers to Failed is the error of a failed task.
fatal_error-lem :
    (e : Option String) (t : Task) (m : String)
    → fatal_error e t ≡ some m
    → (x : String) × (e ≡ some x)
      × (is_process t.work ≡ false)
      × (m ≡ concat (t.id ∷ ": " ∷ x ∷ []))
unfolding fatal_error
fatal_error-lem none t m p = cc
fatal_error-lem (some x) t m p = (x, refl, ground arith, ground arith)

offer-cases :
    (old new : Option String) (m : String)
    → offer old new ≡ some m
    → (old ≡ some m) ⊎ (new ≡ some m)
unfolding offer
offer-cases none new m p = inr p
offer-cases (some x) new m p = inl p

report-IsBlamed :
    {w : World} (h : ℕ) (e : Option String) (m : String)
    → AllEnd w
    → h < w.next
    → (w.heap h).phase ≡ settled e
    → fatal_error e (w.heap h) ≡ some m
    → IsBlamed w m
report-IsBlamed {w} h e m a b p q =
    let (x, is_x, own, says) = fatal_error-lem e (w.heap h) m q in
    let f = (a.each h).faulty x (rw is_x at p) in
    record {
      cell = h;
      started = b;
      over = ground arith;
      has_failed = f.0;
      own_code = own;
      says = rw f.1 says;
    }

report-AllBlamed :
    {w : World} (h : ℕ) (e : Option String)
    → AllBlamed w
    → AllEnd w
    → h < w.next
    → (w.heap h).phase ≡ settled e
    → AllBlamed (report h e w)
report-AllBlamed {w} h e s a b p = record {
  each = λ m q.
      Frozen-IsBlamed m (Frozen.Frozen-report h w e)
        (elim (offer-cases w.fatal (fatal_error e (w.heap h)) m (unfold report in q)) [
          | inl old ↦ s.each m old
          | inr new ↦ report-IsBlamed h e m a b p new
        ]);
}

Step-AllBlamed : {v w : World} → Step v w → AllEnd v → AllBlamed v → AllBlamed w
Step-AllBlamed (starts net t w) a s = start-AllBlamed s net t
Step-AllBlamed (releases h w b p) a s =
    Frozen-AllBlamed (Frozen.Frozen-close_listener h w) (unfold close_listener in ground arith) s
Step-AllBlamed (forks h process w b p q) a s =
    Frozen-AllBlamed (Frozen.Frozen-forked h w process) (unfold forked in ground arith) s
Step-AllBlamed (arms h process w b p q) a s =
    Frozen-AllBlamed (Frozen.Frozen-guard_process h w process)
      (unfold guard_process in ground arith) s
Step-AllBlamed (fires group w i) a s =
    Frozen-AllBlamed (Frozen.Frozen-fire group w) (unfold fire in refl) s
Step-AllBlamed (closes h w c) a s =
    Frozen-AllBlamed (Frozen.Frozen-close_listener h w) (unfold close_listener in ground arith) s
Step-AllBlamed (guards h w b p) a s =
    Frozen-AllBlamed (Frozen.Frozen-guard_preset h w (w.heap h).pid)
      (unfold guard_preset in ground arith) s
Step-AllBlamed (publishes h process w b p q r) a s =
    Frozen-AllBlamed (Frozen.Frozen-publish h w p process) (unfold publish in refl) s
Step-AllBlamed (answers h w b p) a s =
    Frozen-AllBlamed (Frozen.Frozen-accepts h w p) (unfold accepts in refl) s
Step-AllBlamed (settles h o w b p) a s =
    Frozen-AllBlamed (Frozen.Frozen-settle h w p (outcome_error o)) (unfold settle in refl) s
Step-AllBlamed (reports h e w b p) a s = report-AllBlamed h e s a b p
Step-AllBlamed (concludes h w b p) a s =
    Frozen-AllBlamed (Frozen.Frozen-conclude h w) (unfold conclude in ground arith) s
Step-AllBlamed (waited id h w b p) a s =
    unfold wait_end unlist_same in
    Frozen-AllBlamed (record { grows = ground arith; fixed = λ g i q. ground arith }) (ground arith)
      s
Step-AllBlamed (stops id w) a s =
    unfold stop_begin in
    Frozen-AllBlamed (record { grows = ground arith; fixed = λ g i q. ground arith }) (ground arith)
      s
Step-AllBlamed (cancels h w i) a s =
    unfold stop_cancel in
    Frozen-AllBlamed
      (record {
        grows = (Frozen.Frozen-cancel h w).grows;
        fixed = (Frozen.Frozen-cancel h w).fixed;
      })
      (cancel-fatal h w) s
Step-AllBlamed (stops_all w) a s =
    unfold stop_all_begin in
    Frozen-AllBlamed (record { grows = ground arith; fixed = λ g i q. ground arith }) refl s

-- After any interleaving, the error that is in Failed, on which main exits, is "id: error" of a task
-- that has failed and whose work is a Run or a Server: no process makes Linkspan exit.
pub Reached-AllBlamed : {w : World} → Reached w → AllBlamed w
Reached-AllBlamed at_start = record { each = λ m p. cc }
Reached-AllBlamed (after r st) = Step-AllBlamed st (Reached-AllEnd r) (Reached-AllBlamed r)
