-- ===== src/Router/Handler.antt =====
-- internal/router/router.go: Handler.
use linkspan.Base.{ℕ, String, Option, List}
use linkspan.Base.Json.{Json}
use linkspan.Go.Mux.{Routed, routed, not_allowed, not_found, path_of, path_value, find_handler}
use linkspan.Router.Defs.{Action, Router, Decoded, respond, written}

-- What a request comes to: what an action's route writes, with the state; or what ServeMux writes.
pub data Handled (S : Type 0) : Type 0 where
  replied : ℕ × Option Json → S → Handled S
  refused_method : List String → Handled S
  refused_path : Handled S

module _ {S : Type 0} where
  -- A route's handler: respond, which reads the path's id, and write.
  unfoldable pub answered : Action S → Decoded → String → S → Handled S
  unfolding respond written
  answered c body id s = replied (written (respond c body id s).0) (respond c body id s).1

  abbrev pub handle_routed : Decoded → S → Routed (Action S) → Handled S
  unfolding answered path_value
  handle_routed body s (routed p c values) = answered c body (path_value "id" p.segments values) s
  handle_routed body s (not_allowed methods) = refused_method methods
  handle_routed body s not_found = refused_path

  -- Handler, on a method, a path and what the decoder answers on the body, read to 64KB at most.
  unfoldable pub handle : Router S → String → String → Decoded → S → Handled S
  unfolding handle_routed find_handler path_of
  handle r method path body s = handle_routed body s (find_handler r.routes method (path_of path))
