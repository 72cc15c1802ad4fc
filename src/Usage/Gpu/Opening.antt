-- ===== src/Usage/Gpu/Opening.antt =====
-- internal/usage/gpu.go, openGPUs: the reader of the GPU entries, from DCGM where it answers and from NVML
-- otherwise, which then opens DCGM again.
use linkspan.Base.{ℕ, String, Bool, Option, none, some, List, [], ◌∷◌, Map, lookup, insert}
use linkspan.Base.Int.{ℤ, pos}
use linkspan.Usage.Gpu.Values.{Metric, metrics, Gpu, Float}
use linkspan.Usage.Gpu.Nvml.{NvmlSample, nvml_values, gpu_mem_table}
use linkspan.Usage.Gpu.Dcgm.{
  DcgmValue, Engine, Watch, disconnect, open_dcgm, failed, panicked, answered, read_dcgm,
}

-- What an entry holds under a key.
pub data Item : Type 0 where
  integer : ℕ → Item
  text : String → Item
  null : Item
  measured : Float → Item

-- e[m.key] = nil, for each metric
unfoldable pub null_each : List Metric → Map Item → Map Item
unfolding insert
null_each [] e = e
null_each (m ∷ ms) e = null_each ms (insert m.key null e)

-- maps.Copy(e, values)
unfoldable pub copy : Map Float → Map Item → Map Item
unfolding insert
copy [] e = e
copy ((key, value) ∷ values) e = insert key (measured value) (copy values e)

abbrev pub identity : Gpu → Map Item
identity g = ("index", integer g.index) ∷ ("uuid", text g.uuid) ∷ ("name", text g.name) ∷ []

-- values[g.uuid], a nil map where it is missing
abbrev pub copied : Option (Map Float) → Map Item → Map Item
copied none e = e
copied (some values) e = copy values e

-- The body of the loop over the GPUs.
unfoldable pub entry : Map (Map Float) → Gpu → Map Item
unfolding null_each copy lookup
entry values g = copied (lookup g.uuid values) (null_each metrics (identity g))

-- entries
unfoldable pub entries : Map (Map Float) → List Gpu → List (Map Item)
unfolding entry
entries values [] = []
entries values (g ∷ gs) = entry values g ∷ entries values gs

-- The variables that the reader captures: the connections that are open, and the reader of DCGM.
pub record Gpus : Type 0 where
  pub live : List ℕ
  pub dcgm : Option Watch

-- What the libraries answer to one sample: NVML, the latest values of DCGM's entities, and the host
-- engine where it is opened again.
pub record Answers : Type 0 where
  pub nvml : NvmlSample
  pub newest : List ℕ → ℤ × List DcgmValue
  pub engine : Engine

-- A sample: the source, the entries, and the state behind it.
pub record Sampled : Type 0 where
  pub source : Option String
  pub gpus : List (Map Item)
  pub state : Gpus

abbrev pub opened : Option Watch × List ℕ → Gpus
opened (w, live) = record { live = live; dcgm = w }

-- dcgm = openDCGM(gpus), and the entries from NVML
unfoldable pub from_nvml : Bool → List Gpu → Answers → List ℕ → Sampled
unfolding open_dcgm entries nvml_values
from_nvml loaded gpus a live = record {
  source = some "nvml";
  gpus = entries (nvml_values a.nvml gpus []) gpus;
  state = opened (open_dcgm loaded a.engine gpus live);
}

-- The reader: `none` where it panics.
unfoldable pub sample_gpus : Bool → List Gpu → Answers → Gpus → Option Sampled
unfolding from_nvml read_dcgm disconnect entries
sample_gpus loaded [] a s = some record { source = none; gpus = []; state = s }
sample_gpus loaded (g ∷ gs) a s = elim s.dcgm [
  | none ↦ some (from_nvml loaded (g ∷ gs) a s.live)
  | some w ↦ elim (read_dcgm w (a.newest w.entities)) [
    | failed ↦ some (from_nvml loaded (g ∷ gs) a (disconnect w.handle s.live))
    | panicked ↦ none
    | answered values ↦
        some record { source = some "dcgm"; gpus = entries values (g ∷ gs); state = s }
  ]
]

-- openGPUs: DCGM is opened where there are GPUs.
unfoldable pub open_gpus : Bool → Engine → List Gpu → Gpus
unfolding open_dcgm
open_gpus loaded e [] = record { live = []; dcgm = none }
open_gpus loaded e (g ∷ gs) = opened (open_dcgm loaded e (g ∷ gs) [])

-- The samples of a run, one after another: the state behind the last.
unfoldable pub samples : Bool → List Gpu → List Answers → Gpus → Option Gpus
unfolding sample_gpus
samples loaded gpus [] s = some s
samples loaded gpus (a ∷ as_later) s = elim (sample_gpus loaded gpus a s) [
  | none ↦ none
  | some r ↦ samples loaded gpus as_later r.state
]

-- The reader of the memory by process: no process where there are no GPUs.
unfoldable pub mem_by_process : NvmlSample → List Gpu → Option (ℤ → ℤ)
unfolding gpu_mem_table
mem_by_process a [] = some (λ pid. pos 0)
mem_by_process a (g ∷ gs) = gpu_mem_table a (g ∷ gs)
