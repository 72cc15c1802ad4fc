-- ===== src/Usage/Gpu/Fallback.antt =====
-- internal/usage/gpu.go: the entries of a sample that DCGM does not answer.
use linkspan.Base.{
  ℕ, String, ◌≡◌, ◌≢◌, All, All-map, lookup-insert_ne, lookup-insert_self, refl, sym, ◌∙◌, Bool,
  Option, none, some, List, [], ◌∷◌, Map, lookup, insert, lookup-insert, arith, if◌then◌else◌, ◌==◌,
  string_eq,
}
use linkspan.Usage.Gpu.{
  NvmlSample, Gpu, Float, Reading, readings, put_all, read_gpu, nvml_values, from_nvml, Answers,
  Watch, Sampled, disconnect, failed, read_dcgm, sample_gpus,
}
use linkspan.Usage.Gpu.Entries.{Holds, AreEntries, entries-AreEntries}

-- The value of the reading with a key that could be read.
abbrev pub reported : String → List (String × Reading) → Option Float
reported key [] = none
reported key ((k, r) ∷ rs) =
    let rest = reported key rs in if k == key then (if r.good then some r.value else rest) else rest

lookup-put_all :
    (key : String) (rs : List (String × Reading)) → lookup key (put_all rs) ≡ reported key rs
unfolding put_all lookup
lookup-put_all key [] = refl
lookup-put_all key ((k, r) ∷ rs) =
    ground (arith, lookup-put_all key rs, lookup-insert k key r.value (put_all rs))

-- No two GPUs have the same UUID.
abbrev pub Distinct : List Gpu → Type 0
Distinct [] = Unit
Distinct (g ∷ gs) = All (λ (h : Gpu). g.uuid ≢ h.uuid) gs × Distinct gs

module _ (a : NvmlSample) where
  lookup-nvml_values_ne :
      (u : String) (gs : List Gpu) (out : Map (Map Float))
      → All (λ (h : Gpu). u ≢ h.uuid) gs
      → lookup u (nvml_values a gs out) ≡ lookup u out
  unfolding nvml_values
  lookup-nvml_values_ne u [] out n = refl
  lookup-nvml_values_ne u (g ∷ gs) out n =
      lookup-nvml_values_ne u gs (insert g.uuid (read_gpu a g.handle) out) n.1
      ∙ lookup-insert_ne g.uuid u (read_gpu a g.handle) out (λ e. n.0 (sym e))

  -- What NVML reads of a GPU's own handle.
  abbrev pub nvml_value : Gpu → String → Option Float
  nvml_value g key = reported key (readings a g.handle)

  nvml-Holds :
      (g : Gpu) (values : Map (Map Float))
      → lookup g.uuid values ≡ some (read_gpu a g.handle)
      → Holds (nvml_value g) values g
  unfolding read_gpu
  nvml-Holds g values e = record {
    stored = λ key. rw e (lookup-put_all key (readings a g.handle));
    no_index = refl;
    no_uuid = refl;
    no_name = refl;
  }

  nvml_values-All :
      (gs : List Gpu) (out : Map (Map Float))
      → Distinct gs
      → All (λ (g : Gpu). lookup g.uuid (nvml_values a gs out) ≡ some (read_gpu a g.handle)) gs
  unfolding nvml_values
  nvml_values-All [] out d = tt
  nvml_values-All (g ∷ gs) out d = (
    lookup-nvml_values_ne g.uuid gs (insert g.uuid (read_gpu a g.handle) out) d.0
        ∙ lookup-insert_self g.uuid (read_gpu a g.handle) out,
    nvml_values-All gs (insert g.uuid (read_gpu a g.handle) out) d.1,
  )

-- The reader of DCGM answers nothing: there is none, or its call fails.
abbrev pub FailsAt : Answers → Option Watch → Type 0
FailsAt a none = Unit
FailsAt a (some w) = read_dcgm w (a.newest w.entities) ≡ failed

from_nvml-AreEntries :
    (loaded : Bool) (gpus : List Gpu) (a : Answers) (live : List ℕ)
    → Distinct gpus
    → AreEntries (nvml_value a.nvml) gpus (from_nvml loaded gpus a live).gpus
unfolding from_nvml
from_nvml-AreEntries loaded gpus a live d =
    let values = nvml_values a.nvml gpus [] in
    entries-AreEntries (nvml_value a.nvml) values gpus (
      All-map (λ (g : Gpu). lookup g.uuid values ≡ some (read_gpu a.nvml g.handle))
        (λ (g : Gpu). Holds (nvml_value a.nvml g) values g) (λ g e. nvml-Holds a.nvml g values e)
        gpus (nvml_values-All a.nvml gpus [] d))

-- A sample that DCGM does not answer, of GPUs whose UUIDs differ, has the source "nvml" and one entry for
-- each GPU, in their order: with the GPU's index, UUID and name, and under each of the metrics the
-- value that NVML reads of that GPU's own handle, or null where NVML does not read it or its call
-- fails.
pub sample_gpus-AreRead :
    (loaded : Bool) (g : Gpu) (gs : List Gpu) (a : Answers) (live : List ℕ) (o : Option Watch)
    → Distinct (g ∷ gs)
    → FailsAt a o
    → (r : Sampled) × (sample_gpus loaded (g ∷ gs) a (record { live = live; dcgm = o }) ≡ some r)
      × (r.source ≡ some "nvml")
      × AreEntries (nvml_value a.nvml) (g ∷ gs) r.gpus
unfolding sample_gpus from_nvml
sample_gpus-AreRead loaded g gs a live none d f =
    (from_nvml loaded (g ∷ gs) a live, refl, refl, from_nvml-AreEntries loaded (g ∷ gs) a live d)
sample_gpus-AreRead loaded g gs a live (some w) d f = (
  from_nvml loaded (g ∷ gs) a (disconnect w.handle live),
  rw (sample_gpus, f) refl,
  refl,
  from_nvml-AreEntries loaded (g ∷ gs) a (disconnect w.handle live) d,
)
