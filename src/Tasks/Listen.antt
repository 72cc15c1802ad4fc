-- ===== src/Tasks/Listen.antt =====
-- internal/tasks/tasks.go: listen. The network and the kernel answer through `Net`.
use linkspan.Base.{ℕ, String, Option, none, some, Map, lookup, insert, delete, Result, ok, err}
use linkspan.Go.HostPort.{split_host_port}
use linkspan.Tasks.Types.{Node, socket, other}

-- What the kernel answers: the address that a TCP listener is bound to; an error of a unix listener
-- at a free path; the errors of os.Remove on a stale socket and of chmod.
pub record Net : Type 0 where
  pub tcp : String → Result String
  pub unix : String → Option String
  pub remove : String → Option String
  pub chmod : String → Option String

-- The permission bits of a new socket, under the usual umask.
abbrev pub default_mode : ℕ
default_mode = 0o755

abbrev pub owner_only : ℕ
owner_only = 0o600

-- os.Lstat and os.Remove, whose error is ignored: a socket that cannot be removed stays.
unfoldable pub unlink_stale : Option String → String → Option Node → Map Node → Map Node
unlink_stale none path (some (socket m)) files = delete path files
unlink_stale (some e) path (some (socket m)) files = files
unlink_stale removed path (some other) files = files
unlink_stale removed path none files = files

-- os.Chmod; closing the listener unlinks the socket.
unfoldable pub restrict : Option String → String → Map Node → Result String × Map Node
restrict (some e) path files = (err e, delete path files)
restrict none path files = (ok path, insert path (socket owner_only) files)

-- At a free path: the kernel's answer to the bind, and to chmod.
unfoldable pub bind_free :
    Option String → Option String → String → Map Node → Result String × Map Node
unfolding restrict
bind_free (some e) chmod path files = (err e, files)
bind_free none chmod path files = restrict chmod path (insert path (socket default_mode) files)

-- A file at the path fails the bind.
unfoldable pub bind_at : Net → Option Node → String → Map Node → Result String × Map Node
unfolding bind_free
bind_at net (some node) path files = (err "bind: address already in use", files)
bind_at net none path files = bind_free (net.unix path) (net.chmod path) path files

-- net.Listen("unix", path)
unfoldable pub bind_unix : Net → String → Map Node → Result String × Map Node
unfolding bind_at
bind_unix net path files = bind_at net (lookup path files) path files

unfoldable pub listen : Net → String → Map Node → Result String × Map Node
unfolding bind_unix unlink_stale
listen net addr files = elim (split_host_port addr) [
  | some _ ↦ (net.tcp addr, files)
  | none ↦ bind_unix net addr (unlink_stale (net.remove addr) addr (lookup addr files) files)
]
