-- ===== src/Tasks/Starting.antt =====
-- What Start does, on each outcome of the bind.
use linkspan.Base.{
  ℕ, subst, Map, inl, inr, ◌+◌, ◌<◌, String, ◌≡◌, refl, ◌≢◌, sym, true, false, Option, none, some,
  lookup, lookup-insert_self, lookup-insert_ne, arith, ap, ◌∙◌, Result, ok, err, Bool-cases, ◌==◌,
  string_eq,
}
use linkspan.Tasks.{
  Task, World, Net, Node, working, cancel_old, entering, enlist, register, bound, start_bound,
  start_prepared, prepare, start, listen,
}
use linkspan.Tasks.Later
use linkspan.Tasks.Later.{Later, Grew}

-- The world `w'` is `w` with the task `c` entered, in a new cell.
pub record Entered (w w' : World) (c : Task) : Type 0 where
  pub listed : lookup c.id w'.registry ≡ some w.next
  pub stored : w'.heap w.next ≡ c
  pub grown : w'.next ≡ w.next + 1
  pub others : (id : String) → c.id ≢ id → lookup id w'.registry ≡ lookup id w.registry
  pub replaced :
      (old : ℕ) → lookup c.id w.registry ≡ some old → old < w.next → (w'.heap old).cancelled ≡ true
  pub kept : (h : ℕ) → h < w.next → Grew (w.heap h) (w'.heap h)
  pub fresh : (c.phase ≡ working) × (c.cancelled ≡ false)

cancel_old-cancels :
    (o : Option ℕ) (w : World) (h : ℕ) → o ≡ some h → ((cancel_old o w).heap h).cancelled ≡ true
unfolding cancel_old
cancel_old-cancels none w h e = cc
cancel_old-cancels (some g) w h e = ground (arith, Later.cancel-cancelled g w)

enlist-Entered :
    (c : Task) (w v : World)
    → Later w v
    → ((old : ℕ) → lookup c.id w.registry ≡ some old → (v.heap old).cancelled ≡ true)
    → (c.phase ≡ working) × (c.cancelled ≡ false)
    → Entered w (enlist c v) c
unfolding enlist
enlist-Entered c w v l gone fresh = record {
  listed = ground (arith, lookup-insert_self c.id v.next v.registry, l.same_next);
  stored = ground (arith, l.same_next);
  grown = ground (arith, l.same_next);
  others = λ id d. ground (arith, lookup-insert_ne c.id id v.next v.registry d, l.same_registry);
  replaced = λ old p b. ground (arith, gone old p, l.same_next);
  kept = λ h b. ground (arith, l.grew h, l.same_next);
  fresh = fresh;
}

pub register-Entered : (t : Task) (w : World) → Entered w (register t w) (entering t)
unfolding register entering
register-Entered t w =
    let o = lookup (entering t).id w.registry in
    enlist-Entered (entering t) w (cancel_old o w) (Later.Later-cancel_old o w)
      (λ old p. cancel_old-cancels o w old p) (refl, refl)

module _ (w : World) (files : Map Node) where
  files-Entered : {v : World} {c : Task} → Entered (record w { files = files }) v c → Entered w v c
  files-Entered e = record {
    listed = e.listed;
    stored = e.stored;
    grown = e.grown;
    others = e.others;
    replaced = e.replaced;
    kept = e.kept;
    fresh = e.fresh;
  }

  start_bound-Entered :
      (a : Result String) (u c : Task)
      → (start_bound a u (record w { files = files })).0 ≡ ok c
      → Entered w (start_bound a u (record w { files = files })).1 c
  unfolding start_bound
  start_bound-Entered (err e) u c p = cc
  start_bound-Entered (ok addr) u c p =
      let entered = register-Entered (bound addr u) (record w { files = files }) in
      let same : entering (bound addr u) ≡ c = cc in
      files-Entered (
        subst
          (Entered (record w { files = files })
            (register (bound addr u) (record w { files = files })))
          same entered)

  start_bound-refused :
      (a : Result String) (u : Task) (e : String)
      → (start_bound a u (record w { files = files })).0 ≡ err e
      → (start_bound a u (record w { files = files })).1 ≡ record w { files = files }
  unfolding start_bound
  start_bound-refused (err x) u e p = refl
  start_bound-refused (ok addr) u e p = cc

module _ (net : Net) (t : Task) (w : World) where
  abbrev answer : Result String
  answer = (listen net (prepare t.work t).addr w.files).0

  -- A successful Start answers a copy of the task as registered: its id leads to it, in a new cell;
  -- an earlier task of that id is cancelled; no other id's entry changes; and every earlier task
  -- keeps its id, its kind and its work, and stays cancelled if it was.
  pub start-Entered : (c : Task) → (start net t w).0 ≡ ok c → Entered w (start net t w).1 c
  unfolding start start_prepared
  start-Entered c p = elim (Bool-cases ((prepare t.work t).addr == "")) [
    | inl e ↦ rw e (
        let same : entering (prepare t.work t) ≡ c = cc (rw e at p) in
        subst (Entered w (register (prepare t.work t) w)) same
          (register-Entered (prepare t.work t) w))
    | inr e ↦ rw e (start_bound-Entered w _ _ (prepare t.work t) c (rw e at p))
  ]

  -- A Start that fails registers nothing and changes no task.
  pub start-refused :
      (e : String)
      → (start net t w).0 ≡ err e
      → (start net t w).1 ≡ record w { files = (start net t w).1.files }
  unfolding start start_prepared
  start-refused e p = elim (Bool-cases ((prepare t.work t).addr == "")) [
    | inl q ↦ cc (rw q at p)
    | inr q ↦ rw q (
        let r = start_bound-refused w _ answer (prepare t.work t) e (rw q at p) in
        r ∙ sym (ap (λ (v : World). record w { files = v.files }) r))
  ]
