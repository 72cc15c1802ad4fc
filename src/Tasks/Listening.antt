-- ===== src/Tasks/Listening.antt =====
-- What listen of internal/tasks/tasks.go leaves at the path of a unix socket.
use linkspan.Base.{
  String, ◌≡◌, ◌≢◌, refl, ◌∙◌, Option, none, some, Map, lookup, insert, lookup-insert_self,
  lookup-insert_ne, lookup-delete_ne, ok,
}
use linkspan.Go.HostPort.{split_host_port}
use linkspan.Tasks.{
  Net, Node, socket, other, listen, restrict, bind_unix, bind_at, bind_free, default_mode,
  unlink_stale, owner_only,
}

-- What a listener at a path has: its own address, a socket of the owner alone, and nothing else changed.
pub record IsOwners (path addr : String) (before after : Map Node) : Type 0 where
  pub same_addr : addr ≡ path
  pub mode : lookup path after ≡ some (socket owner_only)
  pub others : (j : String) → path ≢ j → lookup j after ≡ lookup j before

unlink_stale-ne :
    (removed : Option String) (path j : String) (n : Option Node) (files : Map Node)
    → path ≢ j
    → lookup j (unlink_stale removed path n files) ≡ lookup j files
unfolding unlink_stale
unlink_stale-ne removed path j none files d = refl
unlink_stale-ne none path j (some (socket m)) files d = lookup-delete_ne path j files d
unlink_stale-ne (some e) path j (some (socket m)) files d = refl
unlink_stale-ne removed path j (some other) files d = refl

restrict-IsOwners :
    (changed : Option String) (path addr : String) (files : Map Node)
    → (restrict changed path (insert path (socket default_mode) files)).0 ≡ ok addr
    → IsOwners path addr files (restrict changed path (insert path (socket default_mode) files)).1
unfolding restrict
restrict-IsOwners (some e) path addr files q = cc
restrict-IsOwners none path addr files q = record {
  same_addr = cc;
  mode = lookup-insert_self path (socket owner_only) _;
  others = λ j d.
      lookup-insert_ne path j (socket owner_only) _ d
      ∙ lookup-insert_ne path j (socket default_mode) files d;
}

bind_at-IsOwners :
    (net : Net) (n : Option Node) (path addr : String) (files : Map Node)
    → (bind_at net n path files).0 ≡ ok addr
    → IsOwners path addr files (bind_at net n path files).1
unfolding bind_at bind_free
bind_at-IsOwners net (some node) path addr files q = cc
bind_at-IsOwners net none path addr files q = bind_free-IsOwners (net.unix path) q
  where
    bind_free-IsOwners :
        (granted : Option String)
        → (bind_free granted (net.chmod path) path files).0 ≡ ok addr
        → IsOwners path addr files (bind_free granted (net.chmod path) path files).1
    bind_free-IsOwners none e = restrict-IsOwners (net.chmod path) path addr files e
    bind_free-IsOwners (some x) e = cc

-- Where listen gives a listener for an address that is a path, whatever the kernel answers to Remove,
-- Listen and Chmod and whatever stood at the path: its address is the path, a socket of mode 0600
-- stands there, so that no listener serves a socket that others may open, and nothing else of the file
-- system has changed.
pub listen-owner_only :
    (net : Net) (path addr : String) (files : Map Node)
    → split_host_port path ≡ none
    → (listen net path files).0 ≡ ok addr
    → IsOwners path addr files (listen net path files).1
unfolding listen bind_unix
listen-owner_only net path addr files is_path q =
    let cleaned = unlink_stale (net.remove path) path (lookup path files) files in
    let bound =
      bind_at-IsOwners net (lookup path cleaned) path addr cleaned (rw (listen, is_path) at q) in
    rw (listen, is_path)
      (record {
        same_addr = bound.same_addr;
        mode = bound.mode;
        others = λ j d.
            bound.others j d ∙ unlink_stale-ne (net.remove path) path j (lookup path files) files d;
      })
