-- ===== src/Sshd/Defs.antt =====
-- internal/sshd/sshd.go: guard, runCommand and New. A function that may panic answers the lines it logged and
-- how it ended; sessions, channel requests and keys are those of the package ssh, of any type.
use linkspan.Base.{
  String, Bool, true, false, Option, none, some, List, [], ◌∷◌, ◌++◌, Map, concat, if◌then◌else◌,
}
use linkspan.Base.Int.{ℤ, pos, negsuc}

-- How a Go function ends: it returns, or it panics with a value of the given text.
pub data Ending (A : Type 0) : Type 0 where
  returned : A → Ending A
  panicked : String → Ending A

-- The lines logged, and the ending.
abbrev pub Ran : Type 0 → Type 0
Ran A = List String × Ending A

module _ {A : Type 0} where
  -- The deferred recovery; `unset` is what the caller's variable holds where the function sets none.
  unfoldable pub recovered : String → A → List String → Ending A → Ran A
  unfolding concat
  recovered name unset logs (returned a) = (logs, returned a)
  recovered name unset logs (panicked r) =
      (logs ++ (concat ("sshd: recovered panic in " ∷ name ∷ ": " ∷ r ∷ []) ∷ []), returned unset)

  -- guard
  unfoldable pub guard : String → A → Ran A → Ran A
  unfolding recovered
  guard name unset (logs, ending) = recovered name unset logs ending

-- What tasks.Exec leaves of a command: the error of one that has no ProcessState, or ExitCode, which is
-- -1 for a process that a signal ended.
pub data Child : Type 0 where
  unstarted : String → Child
  exited : ℤ → Child

-- What a session sends last: the lines on stderr and the exit status.
pub record Served : Type 0 where
  pub argv : List String
  pub stderr : List String
  pub status : ℤ

-- runCommand
unfoldable pub run_command : List String → Child → Served
unfolding concat
run_command argv (unstarted e) = record {
  argv = argv;
  stderr = concat ("command error: " ∷ e ∷ "\n" ∷ []) ∷ [];
  status = pos 127;
}
run_command argv (exited (pos code)) = record { argv = argv; stderr = []; status = pos code }
run_command argv (exited (negsuc code)) = record { argv = argv; stderr = []; status = pos 255 }

-- The arguments of sh.
abbrev pub sh_args : List String → String → List String
sh_args [] raw = "-s" ∷ []
sh_args (word ∷ words) raw = "-c" ∷ raw ∷ []

-- What the package ssh says of a session, its command also as %q prints it, and what running sh with arguments leaves, which may panic.
pub record Session : Type 0 where
  pub user : String
  pub remote : String
  pub command : List String
  pub raw_command : String
  pub quoted_command : String
  pub run : List String → Ending Child

abbrev pub said : String → Session → String
unfolding concat
said what s = concat ("sshd: " ∷ what ∷ " user=" ∷ s.user ∷ " remote=" ∷ s.remote ∷ [])

abbrev pub exec_lines : Session → List String → List String
unfolding concat
exec_lines s [] = []
exec_lines s (word ∷ words) = concat (said "exec" s ∷ " cmd=" ∷ s.quoted_command ∷ []) ∷ []

unfoldable pub served_by : List String → Ending Child → Ending (Option Served)
unfolding run_command
served_by argv (returned c) = returned (some (run_command argv c))
served_by argv (panicked r) = panicked r

-- The handler of a session; the last line is deferred, so a panic does not skip it.
unfoldable pub serve_session : Session → Ran (Option Served)
unfolding said exec_lines served_by
serve_session s = (
  (said "connected" s ∷ exec_lines s s.command) ++ (said "disconnected" s ∷ []),
  served_by ("sh" ∷ sh_args s.command s.raw_command) (s.run (sh_args s.command s.raw_command)),
)

-- The sftp subsystem: the error of NewServer or Serve, and whether it is io.EOF.
abbrev pub sftp_lines : Option (String × Bool) → List String
unfolding concat
sftp_lines none = []
sftp_lines (some (e, eof)) = if eof then [] else concat ("sshd: sftp: " ∷ e ∷ []) ∷ []

-- The packages ssh and sftp: keys, channel requests and their two handlers, and sftp on a session.
pub record Package : Type 1 where
  pub Key : Type 0
  pub keys_equal : Key → Key → Ending Bool
  pub Channel : Type 0
  pub session_channel : Channel → Ran Unit
  pub direct_tcpip : Channel → Ran Unit
  pub sftp : Session → Ending (Option (String × Bool))

abbrev pub sftp_ending : Ending (Option (String × Bool)) → Ran Unit
unfolding sftp_lines
sftp_ending (returned e) = (sftp_lines e, returned tt)
sftp_ending (panicked r) = ([], panicked r)

-- What New sets of an ssh.Server.
pub record Server (P : Package) : Type 0 where
  pub handler : Session → Ran (Option Served)
  pub public_key : P.Key → Ran Bool
  pub pty : Bool
  pub local_forward : String → String → Ran Bool
  pub channels : Map (P.Channel → Ran Unit)
  pub subsystems : Map (Session → Ran Unit)

module _ (P : Package) (stream_local : P.Channel → Ran Unit) (key : P.Key) where
  -- The literal.
  unfoldable pub bare_server : Server P
  unfolding serve_session sftp_ending concat
  bare_server = record {
    handler = serve_session;
    public_key = λ offered. ([], P.keys_equal offered key);
    pty = false;
    local_forward = λ host port.
        (concat ("sshd: port forward to " ∷ host ∷ ":" ∷ port ∷ []) ∷ [], returned true);
    channels =
        ("session", P.session_channel)
        ∷ ("direct-tcpip", P.direct_tcpip)
        ∷ ("direct-streamlocal@openssh.com", stream_local)
        ∷ [];
    subsystems = ("sftp", λ s. sftp_ending (P.sftp s)) ∷ [];
  }

-- The loop over a table of handlers.
unfoldable pub guard_each : {A : Type 0} → String → Map (A → Ran Unit) → Map (A → Ran Unit)
unfolding guard concat
guard_each what [] = []
guard_each what ((name, h) ∷ handlers) =
    (name, λ a. guard (concat (what ∷ name ∷ [])) tt (h a)) ∷ guard_each what handlers

unfoldable pub guard_server : {P : Package} → Server P → Server P
unfolding guard guard_each
guard_server srv = record srv {
  handler = λ s. guard "handler session" none (srv.handler s);
  public_key = λ k. guard "public key" false (srv.public_key k);
  channels = guard_each "channel " srv.channels;
  subsystems = guard_each "handler " srv.subsystems;
}

-- New
unfoldable pub new_server : (P : Package) → (P.Channel → Ran Unit) → P.Key → Server P
unfolding bare_server guard_server
new_server P stream_local key = guard_server (bare_server P stream_local key)
