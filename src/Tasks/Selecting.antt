-- ===== src/Tasks/Selecting.antt =====
-- What Select and IsServing answer.
use mathlib.Core.List.{Perm}
use mathlib.Core.List.Perm
use linkspan.Base.{
  String, ◌≡◌, refl, inl, inr, ◌↔◌, Bool, true, List, [], ◌∷◌, arith, All, All-map, In, keep, ◌==◌,
  string_eq, Bool-cases,
}
use linkspan.Base.Int.{ℤ, is_pos, int_beq_iff, int_eq}
use linkspan.Go.Order.{str_leb, str_leb_total, str_leb_trans}
use linkspan.Tasks.{
  Task, World, running, state_beq, insert_sorted, sorted_by_id, select, registered, port, serves,
  any_serves, is_serving,
}

-- Each id is at most those behind it.
abbrev pub IsSorted : List Task → Type 0
IsSorted [] = Unit
IsSorted (t ∷ ts) = All (λ u. str_leb t.id u.id ≡ true) ts × IsSorted ts

abbrev Below : Task → List Task → Type 0
Below t = All (λ u. str_leb t.id u.id ≡ true)

Below-insert_sorted :
    (t u : Task) (us : List Task)
    → str_leb t.id u.id ≡ true
    → Below t us
    → Below t (insert_sorted u us)
unfolding insert_sorted
Below-insert_sorted t u [] h b = (h, tt)
Below-insert_sorted t u (v ∷ us) h b = ground (arith, Below-insert_sorted t u us h b.1)

Below-trans : (t u : Task) (us : List Task) → str_leb t.id u.id ≡ true → Below u us → Below t us
Below-trans t u us h = All-map _ _ (λ v p. str_leb_trans t.id u.id v.id h p) us

insert_sorted-IsSorted : (t : Task) (us : List Task) → IsSorted us → IsSorted (insert_sorted t us)
unfolding insert_sorted
insert_sorted-IsSorted t [] s = (tt, tt)
insert_sorted-IsSorted t (u ∷ us) s = elim (Bool-cases (str_leb t.id u.id)) [
  | inl le ↦ rw le ((le, Below-trans t u us le s.0), s)
  | inr gt ↦ rw gt (
    Below-insert_sorted u t us (ground (arith, str_leb_total t.id u.id)) s.0,
    insert_sorted-IsSorted t us s.1,
  )
]

sorted_by_id-IsSorted : (ts : List Task) → IsSorted (sorted_by_id ts)
unfolding sorted_by_id
sorted_by_id-IsSorted [] = tt
sorted_by_id-IsSorted (t ∷ ts) =
    insert_sorted-IsSorted t (sorted_by_id ts) (sorted_by_id-IsSorted ts)

module _ (p : Task → Bool) where
  All-keep {ℓ} : (P : Task → Type ℓ) (ts : List Task) → All P ts → All P (keep p ts)
  All-keep P [] a = tt
  All-keep P (t ∷ ts) a = elim (Bool-cases (p t)) [
    | inl e ↦ rw e (a.0, All-keep P ts a.1)
    | inr e ↦ rw e (All-keep P ts a.1)
  ]

  keep-IsSorted : (ts : List Task) → IsSorted ts → IsSorted (keep p ts)
  keep-IsSorted [] s = tt
  keep-IsSorted (t ∷ ts) s = elim (Bool-cases (p t)) [
    | inl e ↦ rw e (All-keep _ ts s.0, keep-IsSorted ts s.1)
    | inr e ↦ rw e (keep-IsSorted ts s.1)
  ]

  keep-cons-perm :
      (t : Task) (us vs : List Task)
      → Perm (keep p us) (keep p vs)
      → Perm (keep p (t ∷ us)) (keep p (t ∷ vs))
  keep-cons-perm t us vs h = elim (Bool-cases (p t)) [
    | inl e ↦ rw e (Perm.cons t h)
    | inr e ↦ rw e h
  ]

  keep-swap : (t u : Task) (us : List Task) → Perm (keep p (t ∷ u ∷ us)) (keep p (u ∷ t ∷ us))
  keep-swap t u us = elim (Bool-cases (p t)) [
    | inl e ↦ elim (Bool-cases (p u)) [
      | inl f ↦ rw (e, f) (Perm.swap u t (keep p us))
      | inr f ↦ rw (e, f) (Perm.refl _)
    ]
    | inr e ↦ rw e (Perm.refl _)
  ]

  keep-insert_sorted-perm :
      (t : Task) (us : List Task) → Perm (keep p (insert_sorted t us)) (keep p (t ∷ us))
  unfolding insert_sorted
  keep-insert_sorted-perm t [] = Perm.refl _
  keep-insert_sorted-perm t (u ∷ us) = elim (Bool-cases (str_leb t.id u.id)) [
    | inl le ↦ rw le (Perm.refl _)
    | inr gt ↦ rw gt (
        Perm.trans (keep-cons-perm u (insert_sorted t us) (t ∷ us) (keep-insert_sorted-perm t us))
          (keep-swap u t us))
  ]

  keep-sorted_by_id-perm : (ts : List Task) → Perm (keep p (sorted_by_id ts)) (keep p ts)
  unfolding sorted_by_id
  keep-sorted_by_id-perm [] = Perm.refl _
  keep-sorted_by_id-perm (t ∷ ts) =
      Perm.trans (keep-insert_sorted-perm t (sorted_by_id ts))
        (keep-cons-perm t (sorted_by_id ts) ts (keep-sorted_by_id-perm ts))

-- Select answers the registry's tasks of one kind, each as often as the registry holds it, ordered by
-- id.
pub select-IsSorted_perm :
    (kind : String) (w : World)
    → IsSorted (select kind w) × Perm (select kind w) (keep (λ t. t.kind == kind) (registered w))
unfolding select
select-IsSorted_perm kind w = (
  keep-IsSorted _ _ (sorted_by_id-IsSorted (registered w)),
  keep-sorted_by_id-perm _ (registered w),
)

-- A task serves a port if it is running and bound to it, and the port is positive.
pub record Serves (p : ℤ) (ts : List Task) : Type 0 where
  pub task : Task
  pub listed : In task ts
  pub is_running : task.state ≡ running
  pub positive : is_pos p ≡ true
  pub bound_to : port task ≡ p

state_beq-running : (t : Task) → state_beq t.state running ≡ true → t.state ≡ running
state_beq-running t h = ground arith

serves_iff :
    (p : ℤ) (t : Task)
    → (serves p t ≡ true) ↔ ((t.state ≡ running) × (is_pos p ≡ true) × (port t ≡ p))
unfolding serves
serves_iff p t = ground (arith, int_beq_iff (port t) p)

any_serves→Serves : (p : ℤ) (ts : List Task) → any_serves p ts ≡ true → Serves p ts
unfolding any_serves
any_serves→Serves p [] h = cc
any_serves→Serves p (t ∷ ts) h = elim (Bool-cases (serves p t)) [
  | inl e ↦
      let (r, q, b) = (serves_iff p t).0 e in
      record { task = t; listed = inl refl; is_running = r; positive = q; bound_to = b }
  | inr e ↦
      let s = any_serves→Serves p ts (rw e at h) in
      record {
        task = s.task;
        listed = inr s.listed;
        is_running = s.is_running;
        positive = s.positive;
        bound_to = s.bound_to;
      }
]

Serves→any_serves :
    (p : ℤ) (ts : List Task) (t : Task) → In t ts → serves p t ≡ true → any_serves p ts ≡ true
unfolding any_serves
Serves→any_serves p [] t i h = elim i [ ]
Serves→any_serves p (u ∷ ts) t (inl e) h = rw (← e, h)
Serves→any_serves p (u ∷ ts) t (inr i) h = ground (arith, Serves→any_serves p ts t i h)

-- IsServing is true exactly when the port is positive and some task of the registry is running and
-- bound to it.
pub is_serving_iff : (p : ℤ) (w : World) → (is_serving p w ≡ true) ↔ Serves p (registered w)
unfolding is_serving
is_serving_iff p w = (
  any_serves→Serves p (registered w),
  (λ s.
      Serves→any_serves p (registered w) s.task s.listed
        ((serves_iff p s.task).1 (s.is_running, s.positive, s.bound_to))),
)
