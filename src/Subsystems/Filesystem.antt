-- ===== src/Subsystems/Filesystem.antt =====
-- subsystems/filesystem/filesystem.go
use Prim.Native.String
use linkspan.Base.{String, Option, none, some, List, [], ◌∷◌, Map, ◌==◌, string_eq, if◌then◌else◌}
use linkspan.Router.{Action, Params, Reply, Router, str, new}

-- The first param that is missing.
unfoldable pub missing : List String → Params → Option String
missing [] given = none
missing (p ∷ ps) given = let rest = missing ps given in if str given p == "" then some p else rest

abbrev pub placeholder_reply : String → Option String → Reply
placeholder_reply name none = record {
  status = 501;
  body = none;
  message = String.◌++◌ name " is not implemented";
}
placeholder_reply name (some p) = record {
  status = 400;
  body = none;
  message = String.◌++◌ p " is required";
}

module _ {S : Type 0} where
  unfoldable pub not_implemented : String → List String → Action S
  unfolding missing
  not_implemented name params given s = (placeholder_reply name (missing params given), s)

  unfoldable pub actions : Map (Action S)
  unfolding not_implemented
  actions =
      ("mount", not_implemented "mount" ("source" ∷ "target" ∷ []))
      ∷ ("unmount", not_implemented "unmount" ("target" ∷ []))
      ∷ ("copy", not_implemented "copy" ("source" ∷ "target" ∷ []))
      ∷ ("sync", not_implemented "sync" ("source" ∷ "target" ∷ []))
      ∷ []

  unfoldable pub router : Router S
  unfolding not_implemented
  router = new "/filesystem" (
      ("POST /mount", not_implemented "mount" ("source" ∷ "target" ∷ []))
      ∷ ("POST /unmount", not_implemented "unmount" ("target" ∷ []))
      ∷ ("POST /copy", not_implemented "copy" ("source" ∷ "target" ∷ []))
      ∷ ("POST /sync", not_implemented "sync" ("source" ∷ "target" ∷ []))
      ∷ [])
