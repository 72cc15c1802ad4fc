-- ===== src/Usage/Rounds.antt =====
-- internal/usage/usage.go, Poll: what the job is gets read once, and each round stores a sample of it.
use linkspan.Base.{◌≡◌, Bool, false, ◌||◌, none, some, List, [], ◌∷◌, if◌then◌else◌}
use linkspan.Usage.Defs
use linkspan.Usage.Network.{read_network}
use linkspan.Usage.Gpu.{Gpu, mem_by_process}
use linkspan.Usage.Gpu.Sampling.{IsConnected}
use linkspan.Usage.Polling.{UsedJob, Moment, Sample, PollRound, Poller, latest}

-- The round whose sample is the last: the first whose context ends behind it or in the next one's
-- sample, which is the last where its goroutine still stores it, else the last of all.
abbrev pub last_round : PollRound → List PollRound → PollRound
last_round r [] = r
last_round r (next ∷ rounds) =
    let rest = last_round next rounds in
    if r.context_done
    then r
    else if next.abandoned
    then (if next.stored_late then next else r)
    else rest

abbrev pub any_done : List PollRound → Bool
any_done [] = false
any_done (r ∷ rounds) = r.abandoned || (r.context_done || any_done rounds)

-- The job as it was detected, with at most the connection of its reader open.
pub record IsJob (found job : UsedJob) : Type 0 where
  pub cgroup : job.cgroup ≡ found.cgroup
  pub whole_node : job.whole_node ≡ found.whole_node
  pub gpus : job.gpus ≡ found.gpus
  pub connected : IsConnected job.reader

-- A sample of that job at a moment.
pub record IsSample (found : UsedJob) (m : Moment) (s : Sample) : Type 0 where
  pub at : s.sampled_at ≡ some m.now
  pub counters :
      s.counters
      ≡ Defs.sample m.files (mem_by_process m.answers.nvml found.gpus) m.walked found.cgroup
  pub network : s.network ≡ (if found.whole_node then some (read_network m.sys) else none)

pub record IsPolled (found : UsedJob) (m : Moment) (p : Poller) : Type 0 where
  pub job : UsedJob
  pub kept : p.job ≡ some job
  pub is_job : IsJob found job
  pub is_sample : IsSample found m (latest p)
