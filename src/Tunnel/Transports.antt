-- ===== src/Tunnel/Transports.antt =====
-- internal/tunnel/link and internal/tunnel/devtunnel: New, carry's header, and the captured output.
use linkspan.Base.{
  ℕ, ◌+◌, ◌*◌, ◌-◌, String, Bool, false, ◌||◌, ◌&&◌, not, Option, none, some, List, [], ◌∷◌, ◌++◌,
  Map, lookup, Result, ok, err, concat, length, drop, ◌==◌, string_eq, if◌then◌else◌,
}
use linkspan.Go.Strings.{fields}
use linkspan.Go.Flags.{parse_flags, Parsed}

-- What url.Parse answers of a URL: its scheme and its host.
pub record Url : Type 0 where
  pub scheme : String
  pub host : String

pub record Link : Type 0 where
  pub url : String
  pub subprotocols : List String

pub record Tunnel : Type 0 where
  pub id : String
  pub cluster : String
  pub token : String

-- *fs.String(name, "", "")
abbrev pub held : String → Map String → String
held name values = elim (lookup name values) [ none ↦ "" | some v ↦ v ]

abbrev pub link_error : String
link_error = "--tunnel-link-args needs only --url, a ws or wss URL"

unfoldable pub is_link_url : Option Url → Bool
is_link_url none = false
is_link_url (some u) = not (u.host == "") && (u.scheme == "ws" || u.scheme == "wss")

unfoldable pub link_of : (String → Option Url) → String → Parsed → Result Link
unfolding lookup is_link_url
link_of parse_url token none = err link_error
link_of parse_url token (some (values, a ∷ rest)) = err link_error
link_of parse_url token (some (values, [])) =
    if is_link_url (parse_url (held "url" values))
    then ok (record {
      url = held "url" values;
      subprotocols = "cybershuttle.v1" ∷ concat ("link." ∷ token ∷ []) ∷ [];
    })
    else err link_error

-- link.New
unfoldable pub link_new : (String → Option Url) → String → String → Result Link
unfolding link_of parse_flags fields
link_new parse_url args token = link_of parse_url token (parse_flags ("url" ∷ []) (fields args) [])

abbrev pub devtunnel_error : String
devtunnel_error = "--tunnel-devtunnel-args needs only --id and --cluster"

unfoldable pub devtunnel_of : String → Parsed → Result Tunnel
unfolding lookup
devtunnel_of token none = err devtunnel_error
devtunnel_of token (some (values, a ∷ rest)) = err devtunnel_error
devtunnel_of token (some (values, [])) =
    if held "id" values == "" || held "cluster" values == ""
    then err devtunnel_error
    else ok (record { id = held "id" values; cluster = held "cluster" values; token = token })

-- devtunnel.New
unfoldable pub devtunnel_new : String → String → Result Tunnel
unfolding devtunnel_of parse_flags fields
devtunnel_new args token = devtunnel_of token (parse_flags ("id" ∷ "cluster" ∷ []) (fields args) [])

-- 64<<10
abbrev pub output_limit : ℕ
output_limit = 65536

-- output.Write: the buffer, as bytes, behind a write.
unfoldable pub write_output : List ℕ → List ℕ → List ℕ
write_output bytes buffer = drop (length (buffer ++ bytes) - output_limit) (buffer ++ bytes)

unfoldable pub write_all : List (List ℕ) → List ℕ → List ℕ
unfolding write_output
write_all [] buffer = buffer
write_all (bytes ∷ rest) buffer = write_all rest (write_output bytes buffer)

-- carry: the port of the two bytes that open a stream, big-endian.
unfoldable pub stream_port : ℕ → ℕ → ℕ
stream_port high low = high * 256 + low
