-- ===== src/Tasks/Stopping.antt =====
-- What Wait and Stop take off the registry.
use linkspan.Base.{
  ℕ, String, ◌≡◌, refl, ◌≢◌, ◌⊎◌, none, some, inl, inr, lookup, lookup-delete_self,
  lookup-delete_ne, arith, eq_iff, ◌==◌, nat_eq, Bool-cases, Option-cases, string_eq,
}
use linkspan.Tasks.{World, wait_end, unlist_same, stop_begin}

-- Stop answers the task that the registry has under the id, or nil; then the id is free, and no other id's
-- entry has changed.
pub stop_begin-lem :
    (id : String) (w : World)
    → ((stop_begin id w).0 ≡ lookup id w.registry)
      × (lookup id (stop_begin id w).1.registry ≡ none)
      × ((j : String) → (id ≡ j) ⊎ (lookup j (stop_begin id w).1.registry ≡ lookup j w.registry))
unfolding stop_begin
stop_begin-lem id w = (
  refl,
  ground (arith, lookup-delete_self id w.registry),
  (λ j. elim (Bool-cases (id == j)) [
    | inl e ↦ inl ((eq_iff id j).0 e)
    | inr d ↦
        inr (ground (arith, lookup-delete_ne id j w.registry (λ q. ground (arith, eq_iff id j))))
  ]),
)

-- Wait on a task, once the task has ended: it answers that task and changes no task; afterwards the id
-- does not lead to the task, and unless it led to it before the registry is as it was.
pub wait_end-lem :
    (id : String) (h : ℕ) (w : World)
    → ((wait_end id h w).0 ≡ w.heap h)
      × ((wait_end id h w).1.heap ≡ w.heap)
      × (lookup id (wait_end id h w).1.registry ≢ some h)
      × ((lookup id w.registry ≡ some h) ⊎ ((wait_end id h w).1 ≡ w))
unfolding wait_end unlist_same
wait_end-lem id h w = elim (Option-cases (lookup id w.registry)) [
  | inl e ↦ (refl, ground (arith, e), (λ q. ground (arith, e)), inr (ground (arith, e)))
  | inr (g, e) ↦ elim (Bool-cases (g == h)) [
    | inl same ↦ (
      refl,
      ground (arith, e, same),
      (λ q. ground (arith, e, same, lookup-delete_self id w.registry)),
      inl (ground (arith, e, same)),
    )
    | inr other ↦ (
      refl,
      ground (arith, e, other),
      (λ q. ground (arith, e, other)),
      inr (ground (arith, e, other)),
    )
  ]
]
