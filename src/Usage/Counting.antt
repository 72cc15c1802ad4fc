-- ===== src/Usage/Counting.antt =====
-- What is counted: each process that can be read, and byte counts without a wrap.
use linkspan.Base.{
  ℕ, ◌*◌, ◌%◌, ◌^◌, ◌<◌, String, ◌≡◌, refl, sym, ap, ◌∙◌, inl, inr, Bool, Option, some, List, [],
  ◌∷◌, ◌++◌, Map, map, keep, arith, is_some, Option-cases,
}
use linkspan.Base.Int.{ℤ, pos}
use linkspan.Go.Strings.{fields}
use linkspan.Go.Strconv.{atoi}
use linkspan.Usage.Defs.{
  Process, read, comm_of, process, processes_of, read_processes, times, wrap_positive, scale,
}

-- The ids that the files list, in order.
abbrev pub listed_ids : Map String → List String → List String
listed_ids files [] = []
listed_ids files (path ∷ walked) = fields (read files path) ++ listed_ids files walked

abbrev pub is_readable : Map String → String → Bool
is_readable files f = is_some (comm_of files f)

map-append : {A B : Type 0} (f : A → B) (xs ys : List A) → map f (xs ++ ys) ≡ map f xs ++ map f ys
map-append f [] ys = refl
map-append f (x ∷ xs) ys = ap (λ r. f x ∷ r) (map-append f xs ys)

keep-append :
    {A : Type 0} (p : A → Bool) (xs ys : List A) → keep p (xs ++ ys) ≡ keep p xs ++ keep p ys
keep-append p [] ys = refl
keep-append p (x ∷ xs) ys = ground (arith, keep-append p xs ys)

module _ (files : Map String) (gpu_mem : Option (ℤ → ℤ)) where
  processes_of-pids :
      (fs : List String)
      → map (λ (q : Process). q.pid) (processes_of files gpu_mem fs)
        ≡ map atoi (keep (is_readable files) fs)
  unfolding processes_of process
  processes_of-pids [] = refl
  processes_of-pids (f ∷ fs) = elim (Option-cases (comm_of files f)) [
    | inl e ↦ rw (e, processes_of-pids fs)
    | inr (comm, e) ↦ rw (e, processes_of-pids fs)
  ]

  -- The processes of a sample are those that the job's cgroup.procs files list and whose name can still be
  -- read, each once for each mention, in the order of the files.
  pub read_processes-pids :
      (walked : List String)
      → map (λ (q : Process). q.pid) (read_processes files gpu_mem walked)
        ≡ map atoi (keep (is_readable files) (listed_ids files walked))
  unfolding read_processes
  read_processes-pids [] = refl
  read_processes-pids (path ∷ walked) =
      map-append (λ (q : Process). q.pid) (processes_of files gpu_mem (fields (read files path)))
        (read_processes files gpu_mem walked)
      ∙ rw (processes_of-pids (fields (read files path)), read_processes-pids walked)
          (sym (
            ap (map atoi)
              (keep-append (is_readable files) (fields (read files path)) (listed_ids files walked))
            ∙ map-append atoi (keep (is_readable files) (fields (read files path)))
                (keep (is_readable files) (listed_ids files walked))))

wrap_positive-exact : (m : ℕ) → m < 2 ^ 63 → wrap_positive (m % 2 ^ 64) ≡ pos m
unfolding wrap_positive
wrap_positive-exact m b =
    let same : m % 2 ^ 64 ≡ m = omega (arith, b) in rw same (ground (arith, b))

-- A count whose product with the unit is below 2^63 is scaled exactly.
pub scale-exact : (n by : ℕ) → n * by < 2 ^ 63 → scale (some (pos n)) by ≡ some (pos (n * by))
unfolding scale times
scale-exact n by b = ap some (wrap_positive-exact (n * by) b)
