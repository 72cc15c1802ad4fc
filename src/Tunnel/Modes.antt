-- ===== src/Tunnel/Modes.antt =====
-- internal/tunnel/tunnel.go: Transports and Parse.
use linkspan.Base.{
  String, Bool, true, false, not, ◌||◌, Option, none, some, List, [], ◌∷◌, ◌++◌, Map, lookup,
  Result, ok, err, ◌>>=◌, concat, ◌==◌, string_eq, if◌then◌else◌,
}
use linkspan.Go.Strings.{split}
use linkspan.Go.Flags.{mentions}
use linkspan.Tasks as Tasks
use linkspan.Tasks.{Task}
use linkspan.Tunnel.Transports.{Url, Link, Tunnel, link_new, devtunnel_new}

-- What a transport's task attempts.
pub data Attempt : Type 0 where
  dials : Link → Attempt
  hosts : Tunnel → Attempt

-- A task of Parse and its Run, redial of the attempt.
pub record Carrier : Type 0 where
  pub task : Task
  pub attempt : Attempt

-- slices.Sorted(maps.Keys(Transports))
abbrev pub transports : List String
transports = "devtunnel" ∷ "link" ∷ []

unfoldable pub env_of : String → String
env_of name = if name == "link" then "LINKSPAN_LINK_TOKEN" else "LINKSPAN_TUNNEL_HOST_TOKEN"

abbrev as_dials : Result Link → Result Attempt
as_dials (ok l) = ok (dials l)
as_dials (err e) = err e

abbrev as_hosts : Result Tunnel → Result Attempt
as_hosts (ok t) = ok (hosts t)
as_hosts (err e) = err e

-- Transports[name].start
unfoldable pub start_of : (String → Option Url) → String → String → String → Result Attempt
unfolding link_new devtunnel_new
start_of parse_url name args token =
    if name == "link"
    then as_dials (link_new parse_url args token)
    else as_hosts (devtunnel_new args token)

abbrev pub boolean_eq : Bool → Bool → Bool
boolean_eq true b = b
boolean_eq false b = not b

-- The loop over the list: what is listed, or the refusal of a name that is unknown or repeated.
unfoldable pub list_modes : List String → List String → Result (List String)
unfolding mentions
list_modes [] listed = ok listed
list_modes (name ∷ names) listed =
    let rest = list_modes names (listed ++ (name ∷ [])) in
    if not (mentions name transports) || mentions name listed
    then err
        (concat ("--tunnel-mode: \"" ∷ name ∷ "\" is not link or devtunnel, or is repeated" ∷ []))
    else rest

-- An empty list names nothing.
unfoldable pub listed_modes : String → Result (List String)
unfolding list_modes split
listed_modes list = if list == "" then ok [] else list_modes (split 44 list) []

-- args[name]
unfoldable pub args_of : Map String → String → String
unfolding lookup
args_of args name = elim (lookup name args) [ none ↦ "" | some a ↦ a ]

module _ (parse_url : String → Option Url) (getenv : String → String) (args : Map String) where
  -- The task of one listed transport.
  unfoldable pub carrier : String → Result Carrier
  unfolding env_of start_of args_of
  carrier name =
      if getenv (env_of name) == ""
      then err (concat (env_of name ∷ " is required with the " ∷ name ∷ " transport" ∷ []))
      else start_of parse_url name (args_of args name) (getenv (env_of name)) >>= λ a.
          ok (record { task = Tasks.new name Tasks.run; attempt = a })

  -- The loop over the transports.
  unfoldable pub carriers : List String → List String → Result (List Carrier)
  unfolding carrier args_of mentions
  carriers listed [] = ok []
  carriers listed (name ∷ names) =
      let rest = carriers listed names in
      if not (boolean_eq (mentions name listed) (not (args_of args name == "")))
      then err (
          concat (
            "--tunnel-" ∷ name ∷ "-args is required with --tunnel-mode=" ∷ name
            ∷ " and refused without it" ∷ []))
      else if not (mentions name listed)
      then rest
      else carrier name >>= λ c. rest >>= λ cs. ok (c ∷ cs)

  -- Parse
  unfoldable pub parse : Bool → String → Result (List Carrier)
  unfolding listed_modes carriers
  parse enable list =
      if not (boolean_eq enable (not (list == "")))
      then err "--tunnel-mode is required with --tunnel-enable and refused without it"
      else listed_modes list >>= λ listed. carriers listed transports
