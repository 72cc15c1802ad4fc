-- ===== src/Forward/Pipe.antt =====
-- internal/forward/forward.go, Pipe: two loops carry bytes between a WebSocket and a connection.
use Prim.Native.String
use linkspan.Base.{ℕ, suc, String, Bool, true, false, List, [], ◌∷◌, ◌++◌, ◌≡◌}

-- A loop: at its read, at its write of what it read, and behind its return, which closes its end.
pub data CopyLoop : Type 0 where
  reading : CopyLoop
  holding : String → CopyLoop
  stopped : CopyLoop

-- What each end has still to send and has received, and the two loops. The main loop, upward, closes the
-- server behind its return, and the goroutine, downward, the client.
pub record Piping : Type 0 where
  pub client_sends : List String
  pub server_sends : List String
  pub client_got : List String
  pub server_got : List String
  pub upward : CopyLoop
  pub downward : CopyLoop

-- An end is open until the loop that closes it has returned.
abbrev pub is_running : CopyLoop → Bool
is_running stopped = false
is_running _ = true

-- The steps of the two loops. The client's messages may still be read once it is closed here, from
-- the buffer of its connection; the server is read while it is open here. Any read or write may fail. A write to the server that fails may have written
-- a part; the last read of the server may give bytes with its error, so that a write to the client too
-- may be a loop's last.
pub data Step : Piping → Piping → Type 0 where
  reads_client :
      (p : Piping) (m : String) (ms : List String)
      → p.upward ≡ reading
      → p.client_sends ≡ m ∷ ms
      → Step p (record p { client_sends = ms; upward = holding m })
  writes_server :
      (p : Piping) (m : String)
      → p.upward ≡ holding m
      → Step p (record p { server_got = p.server_got ++ (m ∷ []); upward = reading })
  writes_part :
      (p : Piping) (m written lost : String)
      → p.upward ≡ holding m
      → m ≡ String.◌++◌ written lost
      → Step p (record p { server_got = p.server_got ++ (written ∷ []); upward = stopped })
  stops_upward : (p : Piping) → is_running p.upward ≡ true → Step p (record p { upward = stopped })
  reads_server :
      (p : Piping) (m : String) (ms : List String)
      → p.downward ≡ reading
      → is_running p.upward ≡ true
      → p.server_sends ≡ m ∷ ms
      → Step p (record p { server_sends = ms; downward = holding m })
  writes_client :
      (p : Piping) (m : String)
      → p.downward ≡ holding m
      → Step p (record p { client_got = p.client_got ++ (m ∷ []); downward = reading })
  writes_last :
      (p : Piping) (m : String)
      → p.downward ≡ holding m
      → Step p (record p { client_got = p.client_got ++ (m ∷ []); downward = stopped })
  stops_downward :
      (p : Piping) → is_running p.downward ≡ true → Step p (record p { downward = stopped })

-- Pipe at its start, on what the two ends send.
abbrev pub piping : List String → List String → Piping
piping up down = record {
  client_sends = up;
  server_sends = down;
  client_got = [];
  server_got = [];
  upward = reading;
  downward = reading;
}

pub data Steps (from : Piping) : ℕ → Piping → Type 0 where
  still : Steps from 0 from
  stepped : (n : ℕ) (p q : Piping) → Steps from n p → Step p q → Steps from (suc n) q
