-- ===== src/Usage/Network.antt =====
-- internal/usage/net.go: the counters of the node's links.
use linkspan.Base.{
  ℕ, String, Bool, false, Option, none, some, List, [], ◌∷◌, Map, insert, concat, ◌==◌, string_eq,
  if◌then◌else◌,
}
use linkspan.Base.Int.{ℤ, pos, int_eq}
use linkspan.Go.Strings.{trim_space, trim_prefix, replace_once, base_of}
use linkspan.Usage.Defs.{read, read_int, scale}

pub record NodeLink : Type 0 where
  pub kind : String
  pub xmit_bytes : Option ℤ
  pub rcv_bytes : Option ℤ

-- The node's /sys/class: the files that can be read, what Glob answers for infiniband/*/ports/* and
-- for net/*, and the paths that Stat finds.
pub record SysClass : Type 0 where
  pub files : Map String
  pub ports : List String
  pub ifaces : List String
  pub found : String → Bool

abbrev pub below : String → String → String
below p name = concat (p ∷ name ∷ [])

-- add
unfoldable pub add_link :
    SysClass → String → String → String → String → ℕ → Map NodeLink → Map NodeLink
unfolding insert scale read_int
add_link sys name kind xmit rcv by links =
    insert name
      (record {
        kind = kind;
        xmit_bytes = scale (read_int sys.files xmit "") by;
        rcv_bytes = scale (read_int sys.files rcv "") by;
      })
      links

unfoldable pub port_name : String → String
unfolding replace_once trim_prefix
port_name p = replace_once "/ports/" "/" (trim_prefix "/sys/class/infiniband/" p)

unfoldable pub is_infiniband : SysClass → String → Bool
unfolding trim_space concat
is_infiniband sys p = trim_space (read sys.files (below p "/link_layer")) == "InfiniBand"

-- The body of the loop over the ports.
unfoldable pub add_port : SysClass → String → Map NodeLink → Map NodeLink
unfolding add_link is_infiniband port_name concat
add_port sys p links =
    if is_infiniband sys p
    then add_link sys (port_name p) "infiniband" (below p "/counters/port_xmit_data")
        (below p "/counters/port_rcv_data") 4 links
    else links

unfoldable pub add_ports : SysClass → List String → Map NodeLink → Map NodeLink
unfolding add_port
add_ports sys [] links = links
add_ports sys (p ∷ ps) links = add_ports sys ps (add_port sys p links)

-- t != nil && *t == 1
abbrev pub is_one : Option ℤ → Bool
is_one none = false
is_one (some t) = t == pos 1

-- The body of the loop over the interfaces.
unfoldable pub add_iface : SysClass → String → Map NodeLink → Map NodeLink
unfolding add_link base_of concat read_int
add_iface sys n links =
    if sys.found (below n "/device")
    then (if is_one (read_int sys.files (below n "/type") "")
        then add_link sys (base_of n) "ethernet" (below n "/statistics/tx_bytes")
            (below n "/statistics/rx_bytes") 1 links
        else links)
    else links

unfoldable pub add_ifaces : SysClass → List String → Map NodeLink → Map NodeLink
unfolding add_iface
add_ifaces sys [] links = links
add_ifaces sys (n ∷ ns) links = add_ifaces sys ns (add_iface sys n links)

-- readNetwork
unfoldable pub read_network : SysClass → Map NodeLink
unfolding add_ports add_ifaces
read_network sys = add_ifaces sys sys.ifaces (add_ports sys sys.ports [])
