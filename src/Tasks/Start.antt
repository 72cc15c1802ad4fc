-- ===== src/Tasks/Start.antt =====
-- internal/tasks/tasks.go: Start, up to the goroutine that runs the task, and cancellation.
use linkspan.Base.{
  ℕ, ◌+◌, String, true, false, Option, none, some, [], ◌∷◌, ◌++◌, lookup, insert, delete, update,
  Result, ok, err, concat, or_else, if◌then◌else◌, ◌==◌, string_eq,
}
use linkspan.Go.HostPort.{split_host_port}
use linkspan.Tasks.Types.{
  starting, running, Work, run, server, spawn, child, working, Task, World, or_state,
}
use linkspan.Tasks.Listen.{Net, listen}

-- The switch: a Server and a Spawn default Addr, a Spawn and a Child begin as starting.
unfoldable pub prepare : Work → Task → Task
prepare server t = record t { addr = or_else t.addr "127.0.0.1:0" }
prepare spawn t = record t { addr = or_else t.addr "127.0.0.1:0"; state = starting }
prepare child t = record t { state = starting }
prepare run t = t

-- fmt.Sprintf("%c", kind[0]); no kind of the program is empty.
unfoldable pub initial : String → String
initial String.[] = ""
initial (String.◌∷◌ c s) = String.◌∷◌ c ""

-- The port of an address, "" where it is no host:port.
unfoldable pub port_text : String → String
port_text addr = elim (split_host_port addr) [ none ↦ "" | some (host, port) ↦ port ]

-- The fields that a bound listener gives.
unfoldable pub bound : String → Task → Task
unfolding initial port_text
bound addr t = record t {
  listening = true;
  addr = addr;
  id = or_else t.id (concat (initial t.kind ∷ "-" ∷ or_else (port_text addr) addr ∷ []));
}

-- Closing a listener unlinks its unix socket.
unfoldable pub close_listener : ℕ → World → World
close_listener h w =
    if (w.heap h).listening
    then record w {
      heap = update w.heap h (record (w.heap h) { listening = false });
      files = elim (split_host_port (w.heap h).addr) [
        | some _ ↦ w.files
        | none ↦ delete (w.heap h).addr w.files
      ];
    }
    else w

-- t.cancel(): the context is done, and what AfterFunc registered is called, each in a goroutine of its
-- own: the kill of a group and the closing of the listener come by later steps.
unfoldable pub cancel : ℕ → World → World
cancel h w = if (w.heap h).cancelled then w else record w {
  heap = update w.heap h (record (w.heap h) { cancelled = true; on_cancel = [] });
  firing = (w.heap h).on_cancel ++ w.firing;
}

-- A repeated id cancels the earlier task.
unfoldable pub cancel_old : Option ℕ → World → World
unfolding cancel
cancel_old none w = w
cancel_old (some old) w = cancel old w

-- The task as it enters the registry.
unfoldable pub entering : Task → Task
entering t = record t {
  id = or_else t.id t.kind;
  state = or_state t.state running;
  cancelled = false;
  on_cancel = [];
  process = none;
  guarded = false;
  phase = working;
}

-- registry.m[t.ID] = t
unfoldable pub enlist : Task → World → World
enlist t w = record w {
  heap = update w.heap w.next t;
  registry = insert t.id w.next w.registry;
  next = w.next + 1;
}

unfoldable pub register : Task → World → World
unfolding entering enlist cancel_old
register t w = enlist (entering t) (cancel_old (lookup (entering t).id w.registry) w)

-- Behind the bind: the error, or the registration; `created` is a copy of the task as registered.
unfoldable pub start_bound : Result String → Task → World → Result Task × World
unfolding bound register
start_bound (err e) t w = (err (concat ("tasks: listen: " ∷ e ∷ [])), w)
start_bound (ok addr) t w = (ok (entering (bound addr t)), register (bound addr t) w)

unfoldable pub start_prepared : Net → Task → World → Result Task × World
unfolding start_bound listen
start_prepared net t w =
    if t.addr == ""
    then (ok (entering t), register t w)
    else let (answer, files) = listen net t.addr w.files in
      start_bound answer t (record w { files = files })

unfoldable pub start : Net → Task → World → Result Task × World
unfolding prepare start_prepared
start net t w = start_prepared net (prepare t.work t) w
