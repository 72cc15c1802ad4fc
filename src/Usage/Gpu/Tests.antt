-- ===== src/Usage/Gpu/Tests.antt =====
-- Two GPUs, and the libraries' answers.
use linkspan.Base.{
  Map, inl, inr, In, All-map, ◌==◌, nat_eq, if◌then◌else◌, ℕ, true, ◌≡◌, refl, ap, string_eq,
  Option, none, some, List, [], ◌∷◌, All, map, lookup, arith,
}
use linkspan.Base.Int.{ℤ, pos, negsuc}
use linkspan.Usage.Gpu.{
  Float, NvmlSample, Gpu, float, NvmlStart, Linker, open_nvml, gpu_mem_table, DcgmValue, Engine,
  Gpus, Answers, open_gpus, samples, sample_gpus, Watch, read_dcgm, Sampled, Item, measured,
}
use linkspan.Usage.Gpu.Entries.{AreEntries}
use linkspan.Usage.Gpu.Fallback.{nvml_value, sample_gpus-AreRead}
use linkspan.Usage.Gpu.Merging.{dcgm_value, sample_gpus-AreMerged}
use linkspan.Usage.Gpu.Totals.{total, gpu_mem_table-total}
use linkspan.Usage.Gpu.Watching.{connections}
use linkspan.Usage.Gpu.Sampling.{samples-Connected}

abbrev linker : Linker
linker = record { dlopen = λ lib. true; dlsym = λ lib name. true }

-- Three devices, the second without a name.
abbrev nvml_start : NvmlStart
nvml_start = record {
  initialize = pos 0;
  count = (pos 0, 3);
  handle = λ i. (pos 0, i);
  uuid = λ h. (pos 0, if h == 0 then "GPU-a" else "GPU-b");
  name = λ h. (if h == 1 then pos 3 else pos 0, "H100");
}

abbrev first_gpu : Gpu
first_gpu = record { index = 0; uuid = "GPU-a"; name = "H100"; handle = 0 }

abbrev second_gpu : Gpu
second_gpu = record { index = 2; uuid = "GPU-b"; name = "H100"; handle = 2 }

abbrev two_gpus : List Gpu
two_gpus = first_gpu ∷ second_gpu ∷ []

-- The temperature of the second cannot be read.
abbrev nvml : NvmlSample
nvml = record {
  util = λ h. (pos 0, (30, 7));
  memory = λ h. (pos 0, (85899345920, 3145728));
  fields = λ h id. (pos 0, (pos 3, 0));
  power = λ h. (pos 0, 250500);
  temp = λ h sensor. (if h == 2 then pos 15 else pos 0, 41);
  clock = λ h kind. (pos 0, 1980);
  reasons = λ h. (pos 0, 1);
  ecc = λ h kind counter. (pos 3, 0);
  procs = λ h. (pos 0, (7, 2097152) ∷ (8, 18446744073709551615) ∷ []);
}

abbrev uuid_values : List ℕ → List DcgmValue
uuid_values es =
    map
      (λ id. record {
        entity = id;
        field = 54;
        kind = 115;
        status = pos 0;
        value = if id == 4 then "GPU-a" else "GPU-b";
      })
      es

-- DCGM numbers them 4 and 5, and reads each entity's first field.
abbrev engine : Engine
engine = record {
  connect = (pos 0, 9);
  devices = (pos 0, 5 ∷ 4 ∷ []);
  counted = omega arith;
  uuids = λ es. (pos 0, uuid_values es);
  group = pos 0;
  add_entity = λ id. pos 0;
  field_group = pos 0;
  watch = pos 0;
}

abbrev latest_values : List ℕ → List DcgmValue
latest_values [] = []
latest_values (id ∷ es) =
    record { entity = id; field = 203; kind = 105; status = pos 0; value = "A" } ∷ latest_values es

newest-Asked : (es : List ℕ) → All (λ (v : DcgmValue). In v.entity es) (latest_values es)
newest-Asked [] = tt
newest-Asked (id ∷ es) = (
  inl refl,
  All-map (λ (v : DcgmValue). In v.entity es) (λ (v : DcgmValue). In v.entity (id ∷ es))
      (λ v i. inr i) (latest_values es) (newest-Asked es),
)

abbrev answering : Answers
answering = record { nvml = nvml; newest = λ es. (pos 0, latest_values es); engine = engine }

abbrev silent : Answers
silent = record { nvml = nvml; newest = λ es. (negsuc 20, []); engine = engine }

open_nvml-start : open_nvml linker nvml_start ≡ two_gpus
unfolding open_nvml
open_nvml-start = refl

samples-Connected_example :
    (s : Gpus) × (samples true two_gpus
        (answering ∷ silent ∷ answering ∷ [])
        (open_gpus true engine two_gpus)
      ≡ some s)
    × (s.live ≡ connections s.dcgm)
samples-Connected_example =
    samples-Connected true engine two_gpus (answering ∷ silent ∷ answering ∷ [])
      (newest-Asked, ((λ es. tt), (newest-Asked, tt)))

abbrev watching : Watch
watching = record { handle = 9; entities = 4 ∷ 5 ∷ []; uuids = (4, "GPU-a") ∷ (5, "GPU-b") ∷ [] }

sample_gpus-AreRead_example :
    (r : Sampled) × (sample_gpus true two_gpus silent
        (record { live = 9 ∷ []; dcgm = some watching })
      ≡ some r)
    × (r.source ≡ some "nvml")
    × AreEntries (nvml_value nvml) two_gpus r.gpus
unfolding read_dcgm
sample_gpus-AreRead_example =
    sample_gpus-AreRead true first_gpu (second_gpu ∷ []) silent (9 ∷ []) (some watching)
      (((λ e. cc (ap (λ s. s == "GPU-a") e)), tt), (tt, tt)) refl

gpu_mem_table-total_example :
    (table : ℤ → ℤ) × (gpu_mem_table nvml two_gpus ≡ some table)
    × ((p : ℕ) → table (pos p) ≡ pos (total nvml p two_gpus))
gpu_mem_table-total_example = gpu_mem_table-total nvml two_gpus (omega arith) (
  (refl, omega arith, (omega arith, (omega arith, tt))),
  ((refl, omega arith, (omega arith, (omega arith, tt))), tt),
)

total-seven : total nvml 7 two_gpus ≡ 4
total-seven = refl

-- DCGM answers 65 for the use of the first GPU; without it NVML answers 30.
use_of : Option Sampled → Option Item
unfolding lookup
use_of none = none
use_of (some r) = elim r.gpus [ [] ↦ none | e ∷ es ↦ lookup "utilPct" e ]

sample_gpus-dcgm :
    use_of (sample_gpus true two_gpus answering (open_gpus true engine two_gpus))
    ≡ some (measured (float (pos 65)))
unfolding use_of sample_gpus open_gpus
sample_gpus-dcgm = refl

sample_gpus-nvml :
    use_of (sample_gpus true two_gpus silent (open_gpus true engine two_gpus))
    ≡ some (measured (float (pos 30)))
unfolding use_of sample_gpus open_gpus
sample_gpus-nvml = refl

-- DCGM answers 65 of both.
abbrev merged : Map (Map Float)
merged =
    ("GPU-b", ("utilPct", float (pos 65)) ∷ []) ∷ ("GPU-a", ("utilPct", float (pos 65)) ∷ []) ∷ []

sample_gpus-AreMerged_example :
    (r : Sampled) × (sample_gpus true two_gpus answering
        (record { live = 9 ∷ []; dcgm = some watching })
      ≡ some r)
    × (r.source ≡ some "dcgm")
    × (r.state ≡ record { live = 9 ∷ []; dcgm = some watching })
    × AreEntries (dcgm_value watching (latest_values (4 ∷ 5 ∷ []))) two_gpus r.gpus
unfolding read_dcgm
sample_gpus-AreMerged_example =
    sample_gpus-AreMerged true first_gpu (second_gpu ∷ []) answering (9 ∷ []) watching merged refl
