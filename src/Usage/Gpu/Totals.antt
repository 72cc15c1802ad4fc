-- ===== src/Usage/Gpu/Totals.antt =====
-- internal/usage/gpu.go, gpuMem: the memory of a process, summed over the GPUs, does not overflow.
use linkspan.Base.{
  ℕ, ◌+◌, ◌-◌, ◌*◌, ◌/◌, ◌%◌, ◌^◌, ◌≤◌, ◌<◌, ◌≡◌, refl, ap, ◌∙◌, inl, inr, true, some, List, [],
  ◌∷◌, arith, All, length, if◌then◌else◌, ◌==◌, nat_eq, Bool-cases,
}
use linkspan.Base.Int.{ℤ, pos, int_eq}
use linkspan.Usage.Defs.{wrap_positive}
use linkspan.Usage.Gpu.{
  NvmlSample, Gpu, succeeded, plus, add_process, add_processes, gpu_mem_from, gpu_mem_table,
}

-- The whole MiB that a process has, as one item of the list says; none where the use is unknown.
abbrev pub share : ℕ → ℕ × ℕ → ℕ
share p (pid, used) = if used == 2 ^ 64 - 1 then 0 else if p == pid then used / 2 ^ 20 else 0

abbrev pub shares : ℕ → List (ℕ × ℕ) → ℕ
shares p [] = 0
shares p (q ∷ qs) = share p q + shares p qs

abbrev pub total : NvmlSample → ℕ → List Gpu → ℕ
total a p [] = 0
total a p (g ∷ gs) = shares p (a.procs g.handle).1 + total a p gs

-- NVML answers for a GPU: at most the 1024 processes there is room for, with 64-bit sizes.
abbrev pub HasAnswered : NvmlSample → Gpu → Type 0
HasAnswered a g =
    (succeeded (a.procs g.handle).0 ≡ true)
    × (length (a.procs g.handle).1 ≤ 1024)
    × All (λ (q : ℕ × ℕ). q.1 < 2 ^ 64) (a.procs g.handle).1

share-bound : (p : ℕ) (q : ℕ × ℕ) → q.1 < 2 ^ 64 → share p q ≤ 2 ^ 44
share-bound p (pid, used) b = ground (arith, b)

shares-bound :
    (p : ℕ) (qs : List (ℕ × ℕ))
    → All (λ (q : ℕ × ℕ). q.1 < 2 ^ 64) qs
    → shares p qs ≤ length qs * 2 ^ 44
shares-bound p [] b = omega arith
shares-bound p (q ∷ qs) b = omega (arith, share-bound p q b.0, shares-bound p qs b.1)

plus-exact : (n m : ℕ) → n + m < 2 ^ 63 → plus (pos n) m ≡ pos (n + m)
unfolding plus wrap_positive
plus-exact n m b =
    let same : (n + m) % 2 ^ 64 ≡ n + m = omega (arith, b) in rw same (ground (arith, b))

add_process-share :
    (q : ℕ × ℕ) (mem : ℤ → ℤ) (p n : ℕ)
    → mem (pos p) ≡ pos n
    → n + share p q < 2 ^ 63
    → add_process q mem (pos p) ≡ pos (n + share p q)
unfolding add_process
add_process-share (pid, used) mem p n e b =
    let same : pos n ≡ pos (n + 0) = ap pos (omega arith) in
    elim (Bool-cases (used == 2 ^ 64 - 1)) [
      | inl q ↦ rw q (e ∙ same)
      | inr q ↦ elim (Bool-cases (p == pid)) [
        | inl r ↦ rw (q, r, e) (plus-exact n (used / 2 ^ 20) (rw (q, r) at b))
        | inr r ↦ rw (q, r) (e ∙ same)
      ]
    ]

add_processes-shares :
    (qs : List (ℕ × ℕ)) (mem : ℤ → ℤ) (p n : ℕ)
    → mem (pos p) ≡ pos n
    → n + shares p qs < 2 ^ 63
    → add_processes qs mem (pos p) ≡ pos (n + shares p qs)
unfolding add_processes
add_processes-shares [] mem p n e b = e ∙ ap pos (omega arith)
add_processes-shares (q ∷ qs) mem p n e b =
    add_processes-shares qs (add_process q mem) p (n + share p q)
      (add_process-share q mem p n e (omega (arith, b))) (omega (arith, b))
    ∙ ap pos (omega arith)

module _ (a : NvmlSample) where
  total-bound :
      (p : ℕ) (gpus : List Gpu) → All (HasAnswered a) gpus → total a p gpus ≤ length gpus * 2 ^ 54
  total-bound p [] h = omega arith
  total-bound p (g ∷ gs) h =
      let (here, rest) = h in
      let few : length (a.procs g.handle).1 ≤ 1024 = here.1 in
      let bound : shares p (a.procs g.handle).1 ≤ length (a.procs g.handle).1 * 2 ^ 44 =
        shares-bound p (a.procs g.handle).1 here.2 in
      omega (arith, few, bound, total-bound p gs rest)

  gpu_mem_from-total :
      (gpus : List Gpu) (mem : ℤ → ℤ) (count : ℕ → ℕ)
      → All (HasAnswered a) gpus
      → ((p : ℕ) → mem (pos p) ≡ pos (count p))
      → ((p : ℕ) → count p + total a p gpus < 2 ^ 63)
      → (table : ℤ → ℤ) × (gpu_mem_from a gpus mem ≡ some table)
        × ((p : ℕ) → table (pos p) ≡ pos (count p + total a p gpus))
  unfolding gpu_mem_from
  gpu_mem_from-total [] mem count h e b = (mem, refl, λ p. e p ∙ ap pos (omega arith))
  gpu_mem_from-total (g ∷ gs) mem count h e b =
      let (table, f, t) =
        gpu_mem_from-total gs (add_processes (a.procs g.handle).1 mem)
          (λ p. count p + shares p (a.procs g.handle).1) h.1
          (λ p.
            add_processes-shares (a.procs g.handle).1 mem p (count p) (e p) (omega (arith, b p)))
          (λ p. omega (arith, b p)) in
      (table, rw (gpu_mem_from, h.0.0) f, λ p. t p ∙ ap pos (omega arith))

-- With at most 511 GPUs, where NVML answers for each of them, the table of GPU memory gives every
-- process exactly the sum, over the GPUs, of the whole MiB that each list gives it, a use that NVML
-- does not know counting nothing: the sum never leaves the int64.
pub gpu_mem_table-total :
    (a : NvmlSample) (gpus : List Gpu)
    → length gpus ≤ 511
    → All (HasAnswered a) gpus
    → (table : ℤ → ℤ) × (gpu_mem_table a gpus ≡ some table)
      × ((p : ℕ) → table (pos p) ≡ pos (total a p gpus))
unfolding gpu_mem_table
gpu_mem_table-total a gpus few h =
    let (table, f, t) =
      gpu_mem_from-total a gpus (λ pid. pos 0) (λ p. 0) h (λ p. refl)
        (λ p. omega (arith, few, total-bound a p gpus h)) in
    (table, f, λ p. t p ∙ ap pos (omega arith))
