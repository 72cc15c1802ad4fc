-- ===== src/Usage/Gpu/Nvml.antt =====
-- internal/usage/gpu.go, openNVML: the GPUs that NVML sees, their metrics, and the memory of each process.
-- What the library answers to each call, by handle, is an argument.
use linkspan.Base.{
  ℕ, zero, suc, ◌+◌, ◌-◌, ◌/◌, ◌%◌, ◌^◌, String, ◌&&◌, Option, none, some, List, [], ◌∷◌, Map,
  insert, ◌==◌, nat_eq, if◌then◌else◌,
}
use linkspan.Base.Int.{ℤ, pos, negsuc, int_eq}
use linkspan.Usage.Defs.{wrap_positive}
use linkspan.Usage.Gpu.Values.{
  Gpu, Float, float, Reading, succeeded, cstr, unit, thousandth, scalar, Linker, bind, put,
}

-- The answers at the start.
pub record NvmlStart : Type 0 where
  pub initialize : ℤ
  pub count : ℤ × ℕ
  pub handle : ℕ → ℤ × ℕ
  pub uuid : ℕ → ℤ × String
  pub name : ℕ → ℤ × String

-- The answers of one sample: power, temp (by sensor), clock (by type), reasons and ecc (by kind and
-- counter) write one integer; util writes two rates, memory the total and the use, fields (by field)
-- a status and a value, procs the list of processes and their memory.
pub record NvmlSample : Type 0 where
  pub util : ℕ → ℤ × (ℕ × ℕ)
  pub memory : ℕ → ℤ × (ℕ × ℕ)
  pub fields : ℕ → ℕ → ℤ × (ℤ × ℕ)
  pub power : ℕ → ℤ × ℕ
  pub temp : ℕ → ℕ → ℤ × ℕ
  pub clock : ℕ → ℕ → ℤ × ℕ
  pub reasons : ℕ → ℤ × ℕ
  pub ecc : ℕ → ℕ → ℕ → ℤ × ℕ
  pub procs : ℕ → ℤ × List (ℕ × ℕ)

abbrev pub nvml_symbols : List String
nvml_symbols =
    "nvmlInit_v2" ∷ "nvmlDeviceGetCount_v2" ∷ "nvmlDeviceGetHandleByIndex_v2" ∷ "nvmlDeviceGetUUID"
    ∷ "nvmlDeviceGetName" ∷ "nvmlDeviceGetUtilizationRates" ∷ "nvmlDeviceGetMemoryInfo_v2"
    ∷ "nvmlDeviceGetPowerUsage" ∷ "nvmlDeviceGetTemperature" ∷ "nvmlDeviceGetClockInfo"
    ∷ "nvmlDeviceGetCurrentClocksEventReasons" ∷ "nvmlDeviceGetTotalEccErrors"
    ∷ "nvmlDeviceGetFieldValues" ∷ "nvmlDeviceGetComputeRunningProcesses_v3" ∷ []

-- The body of the loop over the devices.
unfoldable pub add_gpu : NvmlStart → ℕ → List Gpu → List Gpu
unfolding cstr
add_gpu a i gpus =
    let h : ℕ = (a.handle i).1 in
    if succeeded (a.handle i).0 && (succeeded (a.uuid h).0 && succeeded (a.name h).0)
    then record { index = i; uuid = cstr (a.uuid h).1; name = cstr (a.name h).1; handle = h } ∷ gpus
    else gpus

-- for i := range n, with `left` rounds from `i`
unfoldable pub gpus_from : NvmlStart → ℕ → ℕ → List Gpu
unfolding add_gpu
gpus_from a i zero = []
gpus_from a i (suc left) = add_gpu a i (gpus_from a (i + 1) left)

-- openNVML: no GPUs where the library is missing or refuses.
unfoldable pub open_nvml : Linker → NvmlStart → List Gpu
unfolding gpus_from
open_nvml l a =
    if bind l "libnvidia-ml.so.1" nvml_symbols && (succeeded a.initialize && succeeded a.count.0)
    then gpus_from a 0 a.count.1
    else []

-- The map of readings.
abbrev pub readings : NvmlSample → ℕ → List (String × Reading)
readings a h =
    ("utilPct", record { value = float (pos (a.util h).1.0); good = succeeded (a.util h).0 })
    ∷ ("memUtilPct", record { value = float (pos (a.util h).1.1); good = succeeded (a.util h).0 })
    ∷ (
      "memUsedMiB",
      record { value = float (pos ((a.memory h).1.1 / 2 ^ 20)); good = succeeded (a.memory h).0 },
    )
    ∷ (
      "memTotalMiB",
      record { value = float (pos ((a.memory h).1.0 / 2 ^ 20)); good = succeeded (a.memory h).0 },
    )
    ∷ (
      "memTempC",
      record {
        value = float (pos ((a.fields h 82).1.1 % 2 ^ 32));
        good = succeeded (a.fields h 82).0 && succeeded (a.fields h 82).1.0;
      },
    )
    ∷ ("powerW", scalar thousandth (a.power h))
    ∷ ("tempC", scalar unit (a.temp h 0))
    ∷ ("smClockMHz", scalar unit (a.clock h 1))
    ∷ ("memClockMHz", scalar unit (a.clock h 2))
    ∷ ("throttleReasons", scalar unit (a.reasons h))
    ∷ ("eccErrors", scalar unit (a.ecc h 1 0))
    ∷ []

-- The loop over that map.
unfoldable pub put_all : List (String × Reading) → Map Float
unfolding insert
put_all [] = []
put_all ((key, r) ∷ rs) = put key r (put_all rs)

-- read
unfoldable pub read_gpu : NvmlSample → ℕ → Map Float
unfolding put_all
read_gpu a h = put_all (readings a h)

-- out[g.uuid] = read(g.handle), for each GPU in order
unfoldable pub nvml_values : NvmlSample → List Gpu → Map (Map Float) → Map (Map Float)
unfolding read_gpu insert
nvml_values a [] out = out
nvml_values a (g ∷ gs) out = nvml_values a gs (insert g.uuid (read_gpu a g.handle) out)

-- The sum of an int64 and a count, which wraps.
unfoldable pub plus : ℤ → ℕ → ℤ
unfolding wrap_positive
plus (pos n) m = wrap_positive ((n + m) % 2 ^ 64)
plus (negsuc n) m = wrap_positive ((2 ^ 64 - (n + 1) + m) % 2 ^ 64)

-- mem[pid] += used >> 20, unless the use is unknown
unfoldable pub add_process : ℕ × ℕ → (ℤ → ℤ) → ℤ → ℤ
unfolding plus
add_process (pid, used) mem asked =
    if used == 2 ^ 64 - 1
    then mem asked
    else if asked == pos pid
    then plus (mem asked) (used / 2 ^ 20)
    else mem asked

unfoldable pub add_processes : List (ℕ × ℕ) → (ℤ → ℤ) → ℤ → ℤ
unfolding add_process
add_processes [] mem = mem
add_processes (p ∷ ps) mem = add_processes ps (add_process p mem)

-- The reader of the memory by process: nil where one GPU does not answer.
unfoldable pub gpu_mem_from : NvmlSample → List Gpu → (ℤ → ℤ) → Option (ℤ → ℤ)
unfolding add_processes
gpu_mem_from a [] mem = some mem
gpu_mem_from a (g ∷ gs) mem =
    let rest = gpu_mem_from a gs (add_processes (a.procs g.handle).1 mem) in
    if succeeded (a.procs g.handle).0 then rest else none

unfoldable pub gpu_mem_table : NvmlSample → List Gpu → Option (ℤ → ℤ)
unfolding gpu_mem_from
gpu_mem_table a gpus = gpu_mem_from a gpus (λ pid. pos 0)
