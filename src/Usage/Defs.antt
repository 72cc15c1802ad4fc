-- ===== src/Usage/Defs.antt =====
-- internal/usage/usage.go and internal/usage/procs.go. A file system is its readable files.
use linkspan.Base.{
  ℕ, ◌+◌, ◌-◌, ◌*◌, ◌%◌, ◌^◌, String, Bool, true, false, Option, none, some, List, [], ◌∷◌, ◌++◌,
  Map, lookup, concat, ltb, leb, ◌==◌, string_eq, nat_eq, if◌then◌else◌,
}
use linkspan.Base.Int.{ℤ, pos, negsuc}
use linkspan.Go.Strings.{split, fields, cut_prefix, trim_space}
use linkspan.Go.Strconv.{parse_int, atoi}

-- The content of a file, "" where it cannot be read.
abbrev pub read : Map String → String → String
read files path = elim (lookup path files) [ none ↦ "" | some s ↦ s ]

-- v, where err is nil
abbrev parsed_int : ℤ × Bool → Option ℤ
parsed_int (v, true) = some v
parsed_int (v, false) = none

abbrev first_int : List String → Option ℤ
first_int [] = none
first_int (f ∷ fs) = parsed_int (parse_int f)

-- The integer behind a key at the start of a line.
unfoldable pub line_value : String → String → Option ℤ
unfolding cut_prefix fields parse_int
line_value key line = elim (cut_prefix key line) [ none ↦ none | some s ↦ first_int (fields s) ]

abbrev pub first_of : Option ℤ → Option ℤ → Option ℤ
first_of (some v) rest = some v
first_of none rest = rest

-- The loop over the lines.
unfoldable pub lines_value : String → List String → Option ℤ
unfolding line_value
lines_value key [] = none
lines_value key (line ∷ lines) = first_of (line_value key line) (lines_value key lines)

-- readInt
unfoldable pub read_int : Map String → String → String → Option ℤ
unfolding lines_value split lookup
read_int files path key = lines_value key (split 10 (read files path))

-- An int64 from a product: two's complement on 64 bits.
unfoldable pub wrap_positive : ℕ → ℤ
wrap_positive m = if ltb m (2 ^ 63) then pos m else negsuc (2 ^ 64 - m - 1)

unfoldable pub wrap_negative : ℕ → ℤ
wrap_negative m =
    if m == 0 then pos 0 else if leb m (2 ^ 63) then negsuc (m - 1) else pos (2 ^ 64 - m)

unfoldable pub times : ℤ → ℕ → ℤ
unfolding wrap_positive wrap_negative
times (pos n) by = wrap_positive ((n * by) % 2 ^ 64)
times (negsuc n) by = wrap_negative (((n + 1) * by) % 2 ^ 64)

unfoldable pub scale : Option ℤ → ℕ → Option ℤ
unfolding times
scale none by = none
scale (some v) by = some (times v by)

pub record Process : Type 0 where
  pub pid : ℤ
  pub name : String
  pub rss_bytes : Option ℤ
  pub gpu_mem : Option ℤ

-- gpuMem[pid], where there is a table
abbrev pub mem_of : Option (ℤ → ℤ) → ℤ → Option ℤ
mem_of none pid = none
mem_of (some table) pid = some (table pid)

abbrev pub proc_dir : String → String
proc_dir f = concat ("/proc/" ∷ f ∷ [])

abbrev pub comm_of : Map String → String → Option String
comm_of files f = lookup (concat (proc_dir f ∷ "/comm" ∷ [])) files

unfoldable pub process : Map String → Option (ℤ → ℤ) → String → String → Process
unfolding read_int scale atoi trim_space
process files gpu_mem f comm = record {
  pid = atoi f;
  name = trim_space comm;
  rss_bytes = scale (read_int files (concat (proc_dir f ∷ "/status" ∷ [])) "VmRSS:") 1024;
  gpu_mem = mem_of gpu_mem (atoi f);
}

abbrev pub listed : Option Process → List Process → List Process
listed none rest = rest
listed (some p) rest = p ∷ rest

abbrev pub process_of : Map String → Option (ℤ → ℤ) → String → Option String → Option Process
process_of files gpu_mem f none = none
process_of files gpu_mem f (some comm) = some (process files gpu_mem f comm)

-- The loop over the fields of one cgroup.procs.
unfoldable pub processes_of : Map String → Option (ℤ → ℤ) → List String → List Process
unfolding process lookup concat
processes_of files gpu_mem [] = []
processes_of files gpu_mem (f ∷ fs) =
    listed (process_of files gpu_mem f (comm_of files f)) (processes_of files gpu_mem fs)

-- readProcesses: `walked` are the files of that name under the job's cgroup, in WalkDir's order.
unfoldable pub read_processes : Map String → Option (ℤ → ℤ) → List String → List Process
unfolding processes_of fields lookup
read_processes files gpu_mem [] = []
read_processes files gpu_mem (path ∷ walked) =
    processes_of files gpu_mem (fields (read files path)) ++ read_processes files gpu_mem walked

-- What sample reads of the job's cgroup.
pub record Counters : Type 0 where
  pub mem_bytes : Option ℤ
  pub mem_anon_bytes : Option ℤ
  pub mem_file_bytes : Option ℤ
  pub oom_kills : Option ℤ
  pub cpu_usage_usec : Option ℤ
  pub cpu_system_usec : Option ℤ
  pub processes : List Process

abbrev pub no_counters : Counters
no_counters = record {
  mem_bytes = none;
  mem_anon_bytes = none;
  mem_file_bytes = none;
  oom_kills = none;
  cpu_usage_usec = none;
  cpu_system_usec = none;
  processes = [];
}

-- sample, the part on the cgroup: "" where detect found none.
unfoldable pub sample : Map String → Option (ℤ → ℤ) → List String → String → Counters
unfolding read_int read_processes concat
sample files gpu_mem walked cgroup = if cgroup == "" then no_counters else record {
  mem_bytes = read_int files (concat (cgroup ∷ "/memory.current" ∷ [])) "";
  mem_anon_bytes = read_int files (concat (cgroup ∷ "/memory.stat" ∷ [])) "anon ";
  mem_file_bytes = read_int files (concat (cgroup ∷ "/memory.stat" ∷ [])) "file ";
  oom_kills = read_int files (concat (cgroup ∷ "/memory.events" ∷ [])) "oom_kill ";
  cpu_usage_usec = read_int files (concat (cgroup ∷ "/cpu.stat" ∷ [])) "usage_usec ";
  cpu_system_usec = read_int files (concat (cgroup ∷ "/cpu.stat" ∷ [])) "system_usec ";
  processes = read_processes files gpu_mem walked;
}
