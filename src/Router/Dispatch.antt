-- ===== src/Router/Dispatch.antt =====
-- internal/router/router.go, Handler: which route answers a request, and what a request without one is told.
use linkspan.Base.{String, ◌≡◌, ap, true, some, List, In}
use linkspan.Go.Mux.{pattern_of, path_of, path_value}
use linkspan.Go.Apart.{is_apart_table}
use linkspan.Go.Routing.{
  fits, FitsNone, find_handler-routed, find_handler-not_found, find_handler-not_allowed,
}
use linkspan.Router.Defs.{Action, Router, Decoded}
use linkspan.Router.Handler.{refused_method, refused_path, answered, handle_routed, handle}

module _ {S : Type 0} (r : Router S) where
  -- Where no two patterns of the table can match one path with one method, a request with the method of a
  -- route and a path that its pattern fits is answered by that route and no other: its action is given
  -- the body, with the id that the path has in the place of {id}, and the state.
  pub handle-answered :
      (pattern : String) (c : Action S) (path : String) (values : List String) (body : Decoded)
      (s : S)
      → is_apart_table r.routes ≡ true
      → In (pattern, c) r.routes
      → fits pattern (path_of path) ≡ some values
      → handle r (pattern_of pattern).method path body s
        ≡ answered c body (path_value "id" (pattern_of pattern).segments values) s
  unfolding handle
  handle-answered pattern c path values body s h i f =
      ap (handle_routed body s) (find_handler-routed r.routes pattern c (path_of path) values h i f)

  -- A request whose path no pattern of the table fits runs no action: the answer is ServeMux's 404.
  pub handle-not_found :
      (method path : String) (body : Decoded) (s : S)
      → ((m : String) → FitsNone r.routes m (path_of path))
      → handle r method path body s ≡ refused_path
  unfolding handle
  handle-not_found method path body s h =
      ap (handle_routed body s) (find_handler-not_found r.routes method (path_of path) h)

  -- A request whose path a route's pattern fits, but no pattern of the request's method, none of GET if
  -- that is HEAD, and none without a method, runs no action: the answer is 405, with the methods of the
  -- path, that route's among them.
  pub handle-not_allowed :
      (method pattern : String) (c : Action S) (path : String) (values : List String)
      (body : Decoded) (s : S)
      → is_apart_table r.routes ≡ true
      → In (pattern, c) r.routes
      → fits pattern (path_of path) ≡ some values
      → FitsNone r.routes method (path_of path)
      → FitsNone r.routes "" (path_of path)
      → (method ≡ "HEAD" → FitsNone r.routes "GET" (path_of path))
      → (methods : List String) × (handle r method path body s ≡ refused_method methods)
        × In (pattern_of pattern).method methods
  unfolding handle
  handle-not_allowed method pattern c path values body s h i f g any head =
      let (ms, e, named) =
        find_handler-not_allowed r.routes method pattern c (path_of path) values h i f g any head in
      (ms, ap (handle_routed body s) e, named)
