-- ===== src/Forward/Defs.antt =====
-- internal/forward/forward.go, and carry of internal/tunnel/link/link.go.
use linkspan.Base.{ℕ, Bool, String, Option, none, some, List, [], ◌∷◌, ◌&&◌, if◌then◌else◌}
use linkspan.Base.Int.{ℤ, pos}
use linkspan.Go.Strconv.{atoi}
use linkspan.Router.{Reply}
use linkspan.Router as Router
use linkspan.Tasks.{World, is_serving}
use linkspan.Tunnel.{stream_port}

-- Dial: whether it gives a connection; `connects` says whether net.Dial does.
unfoldable pub dial : ℤ → Bool → World → Bool
unfolding is_serving
dial port connects w = is_serving port w && connects

-- How Stream ends: the error reply, a failed upgrade, or bytes carried to and from a port.
pub data Streamed : Type 0 where
  unreachable : Reply → Streamed
  not_upgraded : Streamed
  piped : ℤ → Streamed

abbrev pub no_server : Reply
no_server = Router.error 404 "no running server on that port"

unfoldable pub stream : String → Bool → Bool → World → Streamed
unfolding dial
stream path_port connects upgrades w =
    if dial (atoi path_port) connects w
    then (if upgrades then piped (atoi path_port) else not_upgraded)
    else unreachable no_server

-- How carry ends: a stream that closes before its two bytes, the byte 0, or the byte 1 and the copying.
pub data Carried : Type 0 where
  unread : Carried
  refused : Carried
  joined : ℕ → Carried

unfoldable pub carry : Option (ℕ × ℕ) → Bool → World → Carried
unfolding dial stream_port
carry none connects w = unread
carry (some (high, low)) connects w =
    if dial (pos (stream_port high low)) connects w then joined (stream_port high low) else refused

-- A stream that the session of the link accepts: its first two bytes, whether the port answers, and the
-- tasks at that time.
pub record Accepted : Type 0 where
  pub port : Option (ℕ × ℕ)
  pub connects : Bool
  pub world : World

unfoldable pub carry_each : List Accepted → List Carried
unfolding carry
carry_each [] = []
carry_each (a ∷ streams) = carry a.port a.connects a.world ∷ carry_each streams

-- Run of link.go: the error of the dial, or that of the accept that ends the session, and the streams
-- that are carried until then, each in its own goroutine.
unfoldable pub run_link : Option String → List Accepted → String → List Carried × String
unfolding carry_each
run_link (some dial_error) streams accept_error = ([], dial_error)
run_link none streams accept_error = (carry_each streams, accept_error)
