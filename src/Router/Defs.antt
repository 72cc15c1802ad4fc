-- ===== src/Router/Defs.antt =====
-- internal/router/router.go. An action works on a state `S`, that of all packages.
use Prim.Native.String
use linkspan.Base.{
  ℕ, String, Option, none, some, [], ◌∷◌, Map, lookup, insert, if◌then◌else◌, ◌==◌, string_eq,
}
use linkspan.Base.Json.{Json, text, of_map}
use linkspan.Go.Strings.{cut}

-- What an action answers: the status, the body (nil where there is none), the error message.
pub record Reply : Type 0 where
  pub status : ℕ
  pub body : Option Json
  pub message : String

abbrev pub Params : Type 0
Params = Map Json

abbrev pub Action : Type 0 → Type 0
Action S = Params → S → Reply × S

-- The string in a value, "" in any other.
abbrev pub string_in : Option Json → String
string_in (some (text s)) = s
string_in _ = ""

-- params[key].(string)
unfoldable pub str : Params → String → String
str params key = string_in (lookup key params)

pub record Router (S : Type 0) : Type 0 where
  pub prefix : String
  pub routes : Map (Action S)

abbrev or_whole : String → Option (String × String) → String × String
or_whole pattern none = (pattern, "")
or_whole pattern (some parts) = parts

-- method, path, _ := strings.Cut(pattern, " ")
unfoldable pub method_path : String → String × String
unfolding cut
method_path pattern = or_whole pattern (cut 32 pattern)

-- method + " " + r.Prefix + path
unfoldable pub behind : String → String → String
unfolding method_path
behind prefix pattern =
    let (method, path) = method_path pattern in
    String.◌++◌ method (String.◌++◌ " " (String.◌++◌ prefix path))

module _ {S : Type 0} where
  -- The loop of add.
  unfoldable pub add_routes : String → Map (Action S) → Map (Action S) → Map (Action S)
  unfolding behind
  add_routes prefix [] table = table
  add_routes prefix ((pattern, c) ∷ routes) table =
      add_routes prefix routes (insert (behind prefix pattern) c table)

  unfoldable pub add : Router S → Map (Action S) → Router S
  unfolding add_routes
  add r routes = record r { routes = add_routes r.prefix routes r.routes }

  unfoldable pub new : String → Map (Action S) → Router S
  unfolding add
  new prefix routes = add (record { prefix = prefix; routes = [] }) routes

  unfoldable pub mount : Router S → Router S → Router S
  unfolding add
  mount r child = add r child.routes

-- What json.Decoder answers on the body: params (none for a JSON null), the end of an absent body,
-- the error of a body past 64KB, or any other error.
pub data Decoded : Type 0 where
  parsed : Params → Decoded
  null_body : Decoded
  absent : Decoded
  oversize : String → Decoded
  invalid : String → Decoded

-- params["id"] = id, where the route has one
unfoldable pub with_id : String → Params → Params
with_id id params = if id == "" then params else insert "id" (text id) params

unfoldable pub bad_request : String → Reply
bad_request e = record { status = 400; body = none; message = String.◌++◌ "invalid JSON: " e }

unfoldable pub too_large : String → Reply
too_large e = record { status = 413; body = none; message = e }

module _ {S : Type 0} where
  -- respond, up to write
  unfoldable pub respond : Action S → Decoded → String → S → Reply × S
  unfolding with_id bad_request too_large
  respond c (parsed p) id s = c (with_id id p) s
  respond c null_body id s = c (with_id id []) s
  respond c absent id s = c (with_id id []) s
  respond c (oversize e) id s = (too_large e, s)
  respond c (invalid e) id s = (bad_request e, s)

-- write: a message becomes the error shape.
unfoldable pub written : Reply → ℕ × Option Json
written r =
    if r.message == ""
    then (r.status, r.body)
    else (r.status, some (of_map (("error", text r.message) ∷ [])))

-- Error: the reply that write is given.
abbrev pub error : ℕ → String → Reply
error status message = record { status = status; body = none; message = message }
