-- ===== src/Startup/Serving.antt =====
-- main.go, routes and startAll: every route of the program's tree answers its requests.
use linkspan.Base.{
  String, ◌≡◌, refl, sym, ap, ◌∙◌, inl, inr, Bool, true, false, ◌&&◌, none, some, List, [], ◌∷◌, In,
  ◌++◌, subst, In-append_left, In-append_right, Map, insert, string_eq, Option-cases,
}
use linkspan.Base.Json.{Json}
use linkspan.Go.Strings.{cut, split}
use linkspan.Go.Mux.{
  Segment, literal, wildcard, entry_of, pattern_of, segment_of, path_of, path_value,
}
use linkspan.Go.Matching.{matches}
use linkspan.Go.Apart.{
  are_apart, are_apart-matches, apart_from, is_apart_table, and_true, entries_of-whole,
  In-entries_of,
}
use linkspan.Go.Routing.{fits}
use linkspan.Router.{Action, Decoded, Router, answered, handle, behind}
use linkspan.Router as Router
use linkspan.Router.Dispatch.{handle-answered}
use linkspan.Subsystems.Checkpoint.{Site}
use linkspan.Subsystems.Resume as Resume
use linkspan.Subsystems.Filesystem
use linkspan.Subsystems.Jupyter
use linkspan.Subsystems.Terminal
use linkspan.Subsystems.Vscode
use linkspan.Startup.Defs.{Subsystem, routes, mount_each}
use linkspan.Startup.Tree.{
  NodeAnswers, subsystems, workflow_router, tree, forward_pattern, handled, serve_api, health,
  answer_200,
}
use linkspan.Startup.Mounting.{serve_api-handled}

-- No two routes of the tree can match one request.
tree-is_apart : (n : NodeAnswers) (latest : Json) → is_apart_table (tree n latest).routes ≡ true
unfolding tree routes mount_each subsystems workflow_router Vscode.router Jupyter.router
    Terminal.router Filesystem.router Resume.router Router.new Router.mount Router.add
    Router.add_routes behind insert cut split pattern_of segment_of are_apart apart_from
    is_apart_table
tree-is_apart n latest = refl

-- The patterns of a table have a segment at least, and none fits a path of forward/{port}.
unfoldable pub apart_one : List Segment → Bool
unfolding are_apart pattern_of
apart_one [] = false
apart_one (x ∷ more) = are_apart (pattern_of forward_pattern).segments (x ∷ more)

unfoldable pub apart_forward : {A : Type 0} → Map A → Bool
unfolding apart_one pattern_of
apart_forward [] = true
apart_forward ((text, a) ∷ more) = apart_one (pattern_of text).segments && apart_forward more

tree-apart_forward : (n : NodeAnswers) (latest : Json) → apart_forward (tree n latest).routes ≡ true
unfolding tree routes mount_each subsystems workflow_router Vscode.router Jupyter.router
    Terminal.router Filesystem.router Resume.router Router.new Router.mount Router.add
    Router.add_routes behind insert cut split pattern_of segment_of are_apart apart_one
    apart_forward
tree-apart_forward n latest = refl

apart_forward-In :
    {A : Type 0} (table : Map A) (text : String) (a : A)
    → apart_forward table ≡ true
    → In (text, a) table
    → apart_one (pattern_of text).segments ≡ true
unfolding apart_forward
apart_forward-In [] text a h i = elim i [ ]
apart_forward-In {A} ((other, b) ∷ more) text a h (inl e) =
    ap (λ (x : String × A). apart_one (pattern_of x.0).segments) e
    ∙ (and_true (apart_one (pattern_of other).segments) (apart_forward more) h).0
apart_forward-In ((other, b) ∷ more) text a h (inr i) =
    apart_forward-In more text a
      (and_true (apart_one (pattern_of other).segments) (apart_forward more) h).1 i

-- Where a pattern of a whole path fits that is apart from forward/{port}, that one does not.
fits_elsewhere :
    (segments : List Segment) (path values : List String)
    → apart_one segments ≡ true
    → matches segments false path ≡ some values
    → (x : String) × (rest : List String) × (path ≡ x ∷ rest) × (fits forward_pattern path ≡ none)
unfolding apart_one matches pattern_of segment_of cut split
fits_elsewhere [] path values h m = absurd (cc h)
fits_elsewhere (literal l ∷ more) [] values h m = absurd (cc m)
fits_elsewhere (wildcard l ∷ more) [] values h m = absurd (cc m)
fits_elsewhere (y ∷ more) (x ∷ rest) values h m =
    elim (Option-cases (fits forward_pattern (x ∷ rest))) [
      | inl e ↦ (x, rest, refl, e)
      | inr (us, e) ↦ absurd (
          are_apart-matches (pattern_of forward_pattern).segments (y ∷ more) (x ∷ rest) us values h
            e m)
    ]

serve_api-route :
    (n : NodeAnswers) (latest : Json) (pattern : String) (c : Action Site) (path : String)
    (values : List String) (body : Decoded) (s : Site)
    → In (pattern, c) (tree n latest).routes
    → fits pattern (path_of path) ≡ some values
    → serve_api n latest (pattern_of pattern).method path body s
      ≡ handled (answered c body (path_value "id" (pattern_of pattern).segments values) s)
serve_api-route n latest pattern c path values body s i f =
    let table = (tree n latest).routes in
    let whole : (pattern_of pattern).subtree ≡ false =
      entries_of-whole (pattern_of pattern).method table (entry_of (pattern_of pattern) c)
        (tree-is_apart n latest) (In-entries_of pattern c table i) in
    let (x, rest, e, elsewhere) =
      fits_elsewhere (pattern_of pattern).segments (path_of path) values
        (apart_forward-In table pattern c (tree-apart_forward n latest) i)
        (ap (λ t. matches (pattern_of pattern).segments t (path_of path)) (sym whole) ∙ f) in
    serve_api-handled n latest body s (pattern_of pattern).method path x rest e
      (inl (ap (fits forward_pattern) (sym e) ∙ elsewhere))
    ∙ ap handled
        (handle-answered (tree n latest) pattern c path values body s (tree-is_apart n latest) i f)

abbrev pub root_prefix : String
root_prefix = "/api/v1"

-- The routes of a subsystem behind the root's prefix, and those of a list of subsystems.
abbrev placed : Map (Action Site) → Map (Action Site)
placed [] = []
placed ((pattern, c) ∷ more) = (behind root_prefix pattern, c) ∷ placed more

abbrev listed : List (Subsystem Site) → Map (Action Site)
listed [] = []
listed (sub ∷ subs) = placed sub.router.routes ++ listed subs

In-placed :
    (pattern : String) (c : Action Site) (table : Map (Action Site))
    → In (pattern, c) table
    → In (behind root_prefix pattern, c) (placed table)
In-placed pattern c [] i = elim i [ ]
In-placed pattern c ((other, d) ∷ more) (inl e) =
    inl (ap (λ (x : String × Action Site). (behind root_prefix x.0, x.1)) e)
In-placed pattern c ((other, d) ∷ more) (inr i) = inr (In-placed pattern c more i)

In-listed :
    (sub : Subsystem Site) (pattern : String) (c : Action Site) (subs : List (Subsystem Site))
    → In sub subs
    → In (pattern, c) sub.router.routes
    → In (behind root_prefix pattern, c) (listed subs)
In-listed sub pattern c [] i j = elim i [ ]
In-listed sub pattern c (first ∷ subs) (inl e) j =
    In-append_left (behind root_prefix pattern, c) (placed first.router.routes) (listed subs)
      (In-placed pattern c first.router.routes
        (subst (λ (x : Subsystem Site). In (pattern, c) x.router.routes) e j))
In-listed sub pattern c (first ∷ subs) (inr i) j =
    In-append_right (behind root_prefix pattern, c) (placed first.router.routes) (listed subs)
      (In-listed sub pattern c subs i j)

-- The tree has the root's own two routes and those of every subsystem, in their order.
tree-listed :
    (n : NodeAnswers) (latest : Json)
    → (tree n latest).routes
      ≡ (behind root_prefix "GET /health", health n)
        ∷ (behind root_prefix "GET /usage", answer_200 n latest)
        ∷ listed (subsystems n)
unfolding tree routes mount_each subsystems workflow_router Vscode.router Jupyter.router
    Terminal.router Filesystem.router Resume.router Router.new Router.mount Router.add
    Router.add_routes behind insert cut
tree-listed n latest = refl

-- A request to a route of a subsystem, of those that main.go lists, with the route's method and a path
-- that its pattern fits behind /api/v1, comes to the action that the subsystem has there and to nothing
-- else: not to another route, of its own or of another subsystem, and not to forward.Stream. The action
-- is given the body, the id that the path has in the place of {id}, and the state.
pub serve_api-answered :
    (n : NodeAnswers) (latest : Json) (sub : Subsystem Site) (pattern : String) (c : Action Site)
    (path : String) (values : List String) (body : Decoded) (s : Site)
    → In sub (subsystems n)
    → In (pattern, c) sub.router.routes
    → fits (behind root_prefix pattern) (path_of path) ≡ some values
    → serve_api n latest (pattern_of (behind root_prefix pattern)).method path body s
      ≡ handled (
          answered c body
            (path_value "id" (pattern_of (behind root_prefix pattern)).segments values)
            s)
serve_api-answered n latest sub pattern c path values body s i j f =
    serve_api-route n latest (behind root_prefix pattern) c path values body s
      (subst (In (behind root_prefix pattern, c)) (sym (tree-listed n latest))
        (inr (inr (In-listed sub pattern c (subsystems n) i j))))
      f
