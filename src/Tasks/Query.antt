-- ===== src/Tasks/Query.antt =====
-- internal/tasks/tasks.go: what reads the registry and what takes tasks off it.
use linkspan.Base.{
  ℕ, String, Bool, false, ◌&&◌, ◌||◌, Option, none, some, List, [], ◌∷◌, ◌++◌, Map, map, lookup,
  insert, delete, ◌==◌, nat_eq, string_eq, if◌then◌else◌, keep,
}
use linkspan.Base.Int.{ℤ, pos, is_pos, int_eq}
use linkspan.Base.Json.{Json, number, text}
use linkspan.Go.Order.{str_leb}
use linkspan.Go.Strconv.{atoi}
use linkspan.Tasks.Types.{running, Task, World, zero_task, state_text, state_beq}
use linkspan.Tasks.Start.{port_text, cancel}
use linkspan.Tasks.Run.{forget}

-- maps.Values(registry.m)
unfoldable pub handles : Map ℕ → List ℕ
handles [] = []
handles ((k, h) ∷ m) = h ∷ handles m

-- slices.SortedFunc by strings.Compare of the ids
unfoldable pub insert_sorted : Task → List Task → List Task
insert_sorted t [] = t ∷ []
insert_sorted t (u ∷ us) =
    let rest = insert_sorted t us in if str_leb t.id u.id then t ∷ u ∷ us else u ∷ rest

unfoldable pub sorted_by_id : List Task → List Task
unfolding insert_sorted
sorted_by_id [] = []
sorted_by_id (t ∷ ts) = insert_sorted t (sorted_by_id ts)

abbrev pub registered : World → List Task
registered w = map w.heap (handles w.registry)

unfoldable pub select : String → World → List Task
unfolding handles sorted_by_id
select kind w = keep (λ t. t.kind == kind) (sorted_by_id (registered w))

unfoldable pub port : Task → ℤ
unfolding port_text
port t = atoi (port_text t.addr)

unfoldable pub serves : ℤ → Task → Bool
unfolding port
serves p t = state_beq t.state running && (is_pos p && port t == p)

unfoldable pub any_serves : ℤ → List Task → Bool
unfolding serves
any_serves p [] = false
any_serves p (t ∷ ts) = serves p t || any_serves p ts

unfoldable pub is_serving : ℤ → World → Bool
unfolding any_serves handles
is_serving p w = any_serves p (registered w)

-- Wait, first part: the task of the id, nil where the registry does not hold it.
unfoldable pub wait_begin : String → World → Option ℕ
wait_begin id w = lookup id w.registry

-- Behind <-t.done: the id is unlisted unless another task has it.
unfoldable pub unlist_same : Option ℕ → ℕ → String → World → World
unlist_same none h id w = w
unlist_same (some g) h id w = if g == h then record w { registry = delete id w.registry } else w

unfoldable pub wait_end : String → ℕ → World → Task × World
unfolding unlist_same
wait_end id h w = (w.heap h, unlist_same (lookup id w.registry) h id w)

-- Wait of a task that has ended: the whole call.
unfoldable pub wait : String → World → Task × World
unfolding wait_begin wait_end
wait id w = elim (wait_begin id w) [ none ↦ (zero_task, w) | some h ↦ wait_end id h w ]

-- Stop, first part: the id is unlisted, and its task is still to be cancelled.
unfoldable pub stop_begin : String → World → Option ℕ × World
stop_begin id w = (
  lookup id w.registry,
  elim (lookup id w.registry) [
    | none ↦ record w { registry = delete id w.registry }
    | some h ↦ record w { registry = delete id w.registry; stopping = h ∷ w.stopping }
  ],
)

-- t.cancel() of Stop and StopAll
unfoldable pub stop_cancel : ℕ → World → World
unfolding cancel forget
stop_cancel h w = let c = cancel h w in record c { stopping = forget h c.stopping }

-- StopAll, first part: a copy of the registry, which is cleared.
unfoldable pub stop_all_begin : World → World
unfolding handles
stop_all_begin w = record w { registry = []; stopping = handles w.registry ++ w.stopping }

unfoldable pub copy_attrs : Map String → Map Json → Map Json
copy_attrs [] out = out
copy_attrs ((k, v) ∷ attrs) out = copy_attrs attrs (insert k (text v) out)

abbrev plain_fields : Task → Map Json
plain_fields t =
    ("id", text t.id)
    ∷ ("addr", text t.addr)
    ∷ ("state", text (state_text t.state))
    ∷ ("error", text t.error)
    ∷ []

-- The wire object of a task.
unfoldable pub marshal_json : Task → Map Json
unfolding copy_attrs state_text
marshal_json t =
    copy_attrs t.attrs
      (if t.pid == 0 then plain_fields t else insert "pid" (number (pos t.pid)) (plain_fields t))
