-- ===== src/Startup/Starting.antt =====
-- What startAll has started.
use linkspan.Base.{◌++◌, if◌then◌else◌, ℕ, suc, String, ◌≡◌, List, [], ◌∷◌, ◌==◌, string_eq}
use linkspan.Tasks.{Task, World, Work, run, server}
use linkspan.Tunnel.{Carrier}
use linkspan.Startup.Defs.{Options}

-- What a task is: its kind, and which of Run, Server, Spawn and Child it has.
abbrev pub what : Task → String × Work
what t = (t.kind, t.work)

-- The cells from `n` on hold the tasks of a list, in its order.
abbrev pub Started : List (String × Work) → ℕ → World → Type 0
Started [] n w = Unit
Started (x ∷ xs) n w = (what (w.heap n) ≡ x) × Started xs (suc n) w

-- The listeners: on the port alone, on the socket alone, or on both where a port is asked for beside it.
abbrev pub listeners : Options → List (String × Work)
listeners o =
    if o.socket == ""
    then ("http", server) ∷ []
    else if o.port_set
    then ("http", server) ∷ ("http", server) ∷ []
    else ("http", server) ∷ []

abbrev pub carried : List Carrier → List (String × Work)
carried [] = []
carried (c ∷ tunnels) = what c.task ∷ carried tunnels

abbrev pub workflow_run : Options → List (String × Work)
workflow_run o = if o.workflow == "" then [] else ("workflow", run) ∷ []

abbrev pub expected : Options → List Carrier → List (String × Work)
expected o tunnels = listeners o ++ (("usage", run) ∷ (carried tunnels ++ workflow_run o))
