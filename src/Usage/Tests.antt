-- ===== src/Usage/Tests.antt =====
-- A concrete node.
use linkspan.Base.{
  arith, ℕ, Bool, true, false, lookup, inl, if◌then◌else◌, String, ◌≡◌, refl, none, some, List, [],
  ◌∷◌, Map,
}
use linkspan.Base.Int.{pos}
use linkspan.Usage.{read_processes}
use linkspan.Usage.Gpu.{NvmlSample, Engine}
use linkspan.Usage.Network.{SysClass, port_name, is_infiniband, read_network}
use linkspan.Go.Strings.{contains_char}
use linkspan.Usage.Links.{Port, path_of, port_link, read_network-port}
use linkspan.Usage.Polling.{PollRound, detect}

-- Process 8 has ended behind the listing.
abbrev node : Map String
node =
    ("/sys/fs/cgroup/job/cgroup.procs", "7\n8\n")
    ∷ ("/proc/7/comm", "python\n")
    ∷ ("/proc/7/status", "Name:\tpython\nVmRSS:\t   2048 kB\n")
    ∷ []

abbrev walked : List String
walked = "/sys/fs/cgroup/job/cgroup.procs" ∷ []

-- The resident size of the process, from its status file.
read_processes-node :
    read_processes node none walked
    ≡ record { pid = pos 7; name = "python"; rss_bytes = some (pos 2097152); gpu_mem = none } ∷ []
unfolding read_processes
read_processes-node = refl

-- A node that a job holds alone, with one InfiniBand port and one Ethernet interface.
abbrev job_node : Map String
job_node =
    ("/proc/self/cgroup", "1:cpu:/x\n0::/system.slice/job_7/step_0/user/task_0\n")
    ∷ ("/sys/fs/cgroup/system.slice/job_7/cpuset.cpus.effective", "0-63\n")
    ∷ ("/sys/fs/cgroup/system.slice/cpuset.cpus.effective", "0-63\n")
    ∷ ("/sys/fs/cgroup/system.slice/job_7/memory.current", "4096\n")
    ∷ ("/sys/class/infiniband/mlx5_0/ports/1/link_layer", "InfiniBand\n")
    ∷ ("/sys/class/infiniband/mlx5_0/ports/1/counters/port_xmit_data", "25\n")
    ∷ ("/sys/class/net/eth0/type", "1\n")
    ∷ ("/sys/class/net/eth0/statistics/tx_bytes", "70\n")
    ∷ []

abbrev one_port : Port
one_port = ("mlx5_0", "1")

abbrev sys_class : SysClass
sys_class = record {
  files = job_node;
  ports = path_of one_port ∷ [];
  ifaces = "/sys/class/net/eth0" ∷ [];
  found = λ path. true;
}

read_network-port_example : lookup "mlx5_0/1" (read_network sys_class) ≡ (
    if is_infiniband sys_class (path_of one_port)
    then some (port_link sys_class one_port)
    else none)
unfolding contains_char
read_network-port_example =
    read_network-port sys_class (one_port ∷ []) one_port refl (refl, tt) (tt, tt) (inl refl)

read_network-node :
    read_network sys_class
    ≡ ("mlx5_0/1", record { kind = "infiniband"; xmit_bytes = some (pos 100); rcv_bytes = none })
      ∷ ("eth0", record { kind = "ethernet"; xmit_bytes = some (pos 70); rcv_bytes = none })
      ∷ []
unfolding read_network port_name
read_network-node = refl

abbrev no_answers : NvmlSample
no_answers = record {
  util = λ h. (pos 3, (0, 0));
  memory = λ h. (pos 3, (0, 0));
  fields = λ h id. (pos 3, (pos 0, 0));
  power = λ h. (pos 3, 0);
  temp = λ h sensor. (pos 3, 0);
  clock = λ h kind. (pos 3, 0);
  reasons = λ h. (pos 3, 0);
  ecc = λ h kind counter. (pos 3, 0);
  procs = λ h. (pos 3, []);
}

abbrev no_engine : Engine
no_engine = record {
  connect = (pos 1, 0);
  devices = (pos 1, []);
  counted = omega arith;
  uuids = λ es. (pos 1, []);
  group = pos 1;
  add_entity = λ id. pos 1;
  field_group = pos 1;
  watch = pos 1;
}

abbrev round_at : ℕ → Bool → PollRound
round_at now ended = record {
  gpus = record { index = 0; uuid = "GPU-a"; name = "H100"; handle = 3 } ∷ [];
  engine = no_engine;
  moment = record {
    now = now;
    files = job_node;
    walked = [];
    sys = sys_class;
    answers = record { nvml = no_answers; newest = λ es. (pos 1, []); engine = no_engine };
  };
  abandoned = ended;
  stored_late = ended;
  context_done = false;
}

-- The cgroup is found in the second line, and it has every CPU of its parent.
detect-node :
    ((detect true job_node [] no_engine).cgroup ≡ "/sys/fs/cgroup/system.slice/job_7")
    × ((detect true job_node [] no_engine).whole_node ≡ true)
unfolding detect
detect-node = (refl, refl)
