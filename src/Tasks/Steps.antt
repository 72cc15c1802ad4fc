-- ===== src/Tasks/Steps.antt =====
-- The interleavings of internal/tasks: what any caller and any task's goroutine may do next. Each
-- step is what one of them does under the lock, or between two synchronisations.
use linkspan.Base.{ℕ, String, ◌<◌, ◌≡◌, true, Option, none, some, In}
use linkspan.Tasks.Types.{Task, World, working, settled, reported, ended, empty_world}
use linkspan.Tasks.Listen.{Net}
use linkspan.Tasks.Start.{start, close_listener}
use linkspan.Tasks.Run.{
  Outcome, outcome_error, settle, report, conclude, forked, guard_process, fire, guard_preset,
  publish, accepts,
}
use linkspan.Tasks.Query.{wait_end, stop_begin, stop_cancel, stop_all_begin}

-- A goroutine acts on its own task `h`, in the order of its phases. Whoever waits holds the task of
-- its id from an earlier moment, so `waited` has any task that has ended.
pub data Step : World → World → Type 0 where
  starts : (net : Net) (t : Task) (w : World) → Step w (start net t w).1
  releases :
      (h : ℕ) (w : World) → h < w.next → (w.heap h).phase ≡ working → Step w (close_listener h w)
  forks :
      (h process : ℕ) (w : World)
      → h < w.next
      → (w.heap h).phase ≡ working
      → (w.heap h).process ≡ none
      → Step w (forked h process w)
  arms :
      (h process : ℕ) (w : World)
      → h < w.next
      → (w.heap h).phase ≡ working
      → (w.heap h).process ≡ some process
      → Step w (guard_process h process w)
  fires : (group : ℕ) (w : World) → In group w.firing → Step w (fire group w)
  closes : (h : ℕ) (w : World) → (w.heap h).cancelled ≡ true → Step w (close_listener h w)
  guards :
      (h : ℕ) (w : World)
      → h < w.next
      → (w.heap h).phase ≡ working
      → Step w (guard_preset h (w.heap h).pid w)
  publishes :
      (h process : ℕ) (w : World)
      → h < w.next
      → (w.heap h).phase ≡ working
      → (w.heap h).process ≡ some process
      → (w.heap h).guarded ≡ true
      → Step w (publish h process w)
  answers : (h : ℕ) (w : World) → h < w.next → (w.heap h).phase ≡ working → Step w (accepts h w)
  settles :
      (h : ℕ) (o : Outcome) (w : World)
      → h < w.next
      → (w.heap h).phase ≡ working
      → Step w (settle h (outcome_error o) w)
  reports :
      (h : ℕ) (e : Option String) (w : World)
      → h < w.next
      → (w.heap h).phase ≡ settled e
      → Step w (report h e w)
  concludes : (h : ℕ) (w : World) → h < w.next → (w.heap h).phase ≡ reported → Step w (conclude h w)
  waited :
      (id : String) (h : ℕ) (w : World)
      → h < w.next
      → (w.heap h).phase ≡ ended
      → Step w (wait_end id h w).1
  stops : (id : String) (w : World) → Step w (stop_begin id w).1
  cancels : (h : ℕ) (w : World) → In h w.stopping → Step w (stop_cancel h w)
  stops_all : (w : World) → Step w (stop_all_begin w)

-- What is reached from the empty registry.
pub data Reached : World → Type 0 where
  at_start : Reached empty_world
  after : {v w : World} → Reached v → Step v w → Reached w
