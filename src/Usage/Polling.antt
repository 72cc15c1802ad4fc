-- ===== src/Usage/Polling.antt =====
-- internal/usage/usage.go: detect, sample, Latest and Poll. The libraries and the node answer through arguments.
use linkspan.Base.{
  ℕ, String, Bool, true, false, ◌&&◌, Option, none, some, List, [], ◌∷◌, Map, lookup, concat, ◌==◌,
  string_eq, if◌then◌else◌,
}
use linkspan.Go.Strings.{split, cut_prefix, cut_text, dir_of}
use linkspan.Usage.Defs.{read, Counters, no_counters}
use linkspan.Usage.Defs
use linkspan.Usage.Network.{NodeLink, SysClass, read_network}
use linkspan.Usage.Gpu.{
  Gpu, Item, Engine, Gpus, Answers, Sampled, open_gpus, sample_gpus, mem_by_process,
}

-- The text that the group of ^0::(.*?)/step_ matches in a line.
abbrev pub before_step : Option (String × String) → Option String
before_step none = none
before_step (some (group, rest)) = some group

abbrev pub step_group : Option String → Option String
unfolding cut_text
step_group none = none
step_group (some s) = before_step (cut_text "/step_" s)

-- jobCgroup.FindSubmatch: the first line that matches.
unfoldable pub job_group : List String → Option String
unfolding step_group cut_prefix
job_group [] = none
job_group (line ∷ lines) =
    let rest = job_group lines in
    elim (step_group (cut_prefix "0::" line)) [ none ↦ rest | some g ↦ some g ]

-- What the job is: its cgroup, "" if none was found, and its GPUs with the variables of their reader.
pub record UsedJob : Type 0 where
  pub cgroup : String
  pub whole_node : Bool
  pub gpus : List Gpu
  pub reader : Gpus

-- len(s) > 1
abbrev pub is_longer : String → Bool
is_longer (String.◌∷◌ c (String.◌∷◌ d s)) = true
is_longer _ = false

abbrev pub cpus : Map String → String → String
unfolding concat
cpus files dir = read files (concat (dir ∷ "/cpuset.cpus.effective" ∷ []))

-- The job holds the node: it has every CPU of the parent cgroup.
unfoldable pub holds_node : Map String → String → Bool
unfolding cpus dir_of
holds_node files cgroup =
    is_longer (cpus files cgroup) && cpus files cgroup == cpus files (dir_of cgroup)

abbrev pub group_of : Map String → Option String
unfolding lookup job_group split
group_of files = elim (lookup "/proc/self/cgroup" files) [
  | none ↦ none
  | some s ↦ job_group (split 10 s)
]

-- detect
unfoldable pub detect : Bool → Map String → List Gpu → Engine → UsedJob
unfolding group_of holds_node open_gpus concat
detect loaded files gpus e = elim (group_of files) [
  | none ↦ record { cgroup = ""; whole_node = false; gpus = gpus; reader = open_gpus loaded e gpus }
  | some g ↦ record {
    cgroup = concat ("/sys/fs/cgroup" ∷ g ∷ []);
    whole_node = holds_node files (concat ("/sys/fs/cgroup" ∷ g ∷ []));
    gpus = gpus;
    reader = open_gpus loaded e gpus;
  }
]

-- What the node and the libraries answer at one sample: the time, the readable files, the files
-- cgroup.procs in WalkDir's order, /sys/class, and the GPU libraries.
pub record Moment : Type 0 where
  pub now : ℕ
  pub files : Map String
  pub walked : List String
  pub sys : SysClass
  pub answers : Answers

pub record Sample : Type 0 where
  pub sampled_at : Option ℕ
  pub counters : Counters
  pub gpu_source : Option String
  pub gpus : List (Map Item)
  pub network : Option (Map NodeLink)

-- sample, behind the reading of the GPUs
unfoldable pub sample_rest : UsedJob → Moment → Sampled → Sample × UsedJob
unfolding read_network mem_by_process Defs.sample
sample_rest j m r = (
  record {
    sampled_at = some m.now;
    counters = Defs.sample m.files (mem_by_process m.answers.nvml j.gpus) m.walked j.cgroup;
    gpu_source = r.source;
    gpus = r.gpus;
    network = if j.whole_node then some (read_network m.sys) else none;
  },
  record j { reader = r.state },
)

-- sample: `none` where the reader of the GPUs panics, which ends the program.
unfoldable pub sample_job : Bool → UsedJob → Moment → Option (Sample × UsedJob)
unfolding sample_rest sample_gpus
sample_job loaded j m = elim (sample_gpus loaded j.gpus m.answers j.reader) [
  | none ↦ none
  | some r ↦ some (sample_rest j m r)
]

-- One round of Poll's loop: the GPUs and the host engine that a detect finds, the moment of the sample,
-- whether the context ends while the sample runs, whether the goroutine of such a sample still stores it,
-- behind Poll's return, and whether the context ends in the interval behind the sample.
pub record PollRound : Type 0 where
  pub gpus : List Gpu
  pub engine : Engine
  pub moment : Moment
  pub abandoned : Bool
  pub stored_late : Bool
  pub context_done : Bool

-- j of Poll, and the last sample.
pub record Poller : Type 0 where
  pub job : Option UsedJob
  pub last : Option Sample

-- detect, at the first round only
unfoldable pub job_of : Bool → PollRound → Option UsedJob → UsedJob
unfolding detect
job_of loaded r none = detect loaded r.moment.files r.gpus r.engine
job_of loaded r (some j) = j

abbrev pub kept_sample : Option (Sample × UsedJob) → Option Poller
kept_sample none = none
kept_sample (some (s, j)) = some record { job = some j; last = some s }

-- The goroutine of a round.
unfoldable pub poll_once : Bool → PollRound → Poller → Option Poller
unfolding job_of sample_job
poll_once loaded r p = kept_sample (sample_job loaded (job_of loaded r p.job) r.moment)

abbrev pub ended_with : Option Poller → Option (Poller × Bool)
ended_with none = none
ended_with (some q) = some (q, true)

-- Poll: `none` where a sample panics, else its state and whether it has returned. A round whose context
-- ends while the sample runs returns at once; its goroutine goes on, and panics or stores its sample later
-- unless the program ends first.
unfoldable pub poll_rounds : Bool → List PollRound → Poller → Option (Poller × Bool)
unfolding poll_once
poll_rounds loaded [] p = some (p, false)
poll_rounds loaded (r ∷ rounds) p = elim r.abandoned [
  | true ↦ elim r.stored_late [ true ↦ ended_with (poll_once loaded r p) | false ↦ some (p, true) ]
  | false ↦ elim (poll_once loaded r p) [
    | none ↦ none
    | some q ↦
        let rest = poll_rounds loaded rounds q in if r.context_done then some (q, true) else rest
  ]
]

-- Latest: a sample without values before the first.
abbrev pub latest : Poller → Sample
latest p = elim p.last [
  | none ↦ record {
    sampled_at = none;
    counters = no_counters;
    gpu_source = none;
    gpus = [];
    network = none;
  }
  | some s ↦ s
]
