-- ===== src/Usage/Links.antt =====
-- internal/usage/net.go: an InfiniBand port is listed under its own name, which no interface takes.
use Prim.Native.String
use linkspan.Base.{
  String, ◌≡◌, ◌≢◌, refl, sym, ap, ◌∙◌, subst, inl, inr, true, false, none, some, List, [], ◌∷◌,
  Map, map, lookup, lookup-insert_ne, lookup-insert_self, arith, In, All, All-In, if◌then◌else◌,
  Bool-cases,
}
use linkspan.Go.Strings.{contains_char, replace_once, base_of}
use linkspan.Go.Cutting.{trim_prefix-append, contains_char-append, base_of-clean, cut_text-append}
use linkspan.Usage.Defs.{read_int, scale}
use linkspan.Usage.Network.{
  NodeLink, SysClass, below, add_link, port_name, is_infiniband, add_port, add_ports, is_one,
  add_iface, add_ifaces, read_network,
}

-- A port: the device and the number.
abbrev pub Port : Type 0
Port = String × String

abbrev pub path_of : Port → String
path_of (device, number) =
    String.◌++◌ "/sys/class/infiniband/" (String.◌++◌ device (String.◌++◌ "/ports/" number))

abbrev pub short_name : Port → String
short_name (device, number) = String.◌++◌ device (String.◌++◌ "/" number)

abbrev pub HasPlainDevice : Port → Type 0
HasPlainDevice p = contains_char 47 p.0 ≡ false

port_name-path_of : (p : Port) → HasPlainDevice p → port_name (path_of p) ≡ short_name p
unfolding port_name replace_once
port_name-path_of (device, number) h =
    rw
      (
        port_name,
        trim_prefix-append "/sys/class/infiniband/"
            (String.◌++◌ device (String.◌++◌ "/ports/" number)),
        replace_once,
        cut_text-append "/" "ports/" device number h,
      )
      refl

short_name-slash : (p : Port) → contains_char 47 (short_name p) ≡ true
unfolding contains_char
short_name-slash (device, number) =
    contains_char-append 47 device (String.◌++◌ "/" number)
    ∙ ground (arith, contains_char-append 47 "/" number)

-- No interface has the name of a port.
base_of-ne : (path : String) (p : Port) → base_of path ≢ short_name p
base_of-ne path p e = cc (sym (base_of-clean path) ∙ ap (contains_char 47) e ∙ short_name-slash p)

-- No two ports have the same name.
abbrev pub Distinct : List Port → Type 0
Distinct [] = Unit
Distinct (p ∷ ps) = All (λ (q : Port). short_name p ≢ short_name q) ps × Distinct ps

module _ (sys : SysClass) where
  abbrev pub port_link : Port → NodeLink
  port_link p = record {
    kind = "infiniband";
    xmit_bytes = scale (read_int sys.files (below (path_of p) "/counters/port_xmit_data") "") 4;
    rcv_bytes = scale (read_int sys.files (below (path_of p) "/counters/port_rcv_data") "") 4;
  }

  lookup-add_iface :
      (p : Port) (path : String) (links : Map NodeLink)
      → lookup (short_name p) (add_iface sys path links) ≡ lookup (short_name p) links
  unfolding add_iface add_link
  lookup-add_iface p path links = elim (Bool-cases (sys.found (below path "/device"))) [
    | inl a ↦ elim (Bool-cases (is_one (read_int sys.files (below path "/type") ""))) [
      | inl b ↦
          rw (add_iface, a, b)
            (lookup-insert_ne (base_of path) (short_name p) _ links (base_of-ne path p))
      | inr b ↦ rw (add_iface, a, b) refl
    ]
    | inr a ↦ rw (add_iface, a) refl
  ]

  lookup-add_ifaces :
      (p : Port) (paths : List String) (links : Map NodeLink)
      → lookup (short_name p) (add_ifaces sys paths links) ≡ lookup (short_name p) links
  unfolding add_ifaces
  lookup-add_ifaces p [] links = refl
  lookup-add_ifaces p (path ∷ paths) links =
      lookup-add_ifaces p paths (add_iface sys path links) ∙ lookup-add_iface p path links

  lookup-add_port_self :
      (p : Port) (links : Map NodeLink)
      → HasPlainDevice p
      → lookup (short_name p) (add_port sys (path_of p) links) ≡ (
          if is_infiniband sys (path_of p) then some (port_link p) else lookup (short_name p) links)
  unfolding add_port add_link
  lookup-add_port_self p links h = elim (Bool-cases (is_infiniband sys (path_of p))) [
    | inl a ↦
        rw (add_port, a, port_name-path_of p h)
          (lookup-insert_self (short_name p) (port_link p) links)
    | inr a ↦ rw (add_port, a) refl
  ]

  lookup-add_port_ne :
      (p q : Port) (links : Map NodeLink)
      → HasPlainDevice q
      → short_name q ≢ short_name p
      → lookup (short_name p) (add_port sys (path_of q) links) ≡ lookup (short_name p) links
  unfolding add_port add_link
  lookup-add_port_ne p q links h n = elim (Bool-cases (is_infiniband sys (path_of q))) [
    | inl a ↦
        rw (add_port, a, port_name-path_of q h)
          (lookup-insert_ne (short_name q) (short_name p) (port_link q) links n)
    | inr a ↦ rw (add_port, a) refl
  ]

  lookup-add_ports_ne :
      (p : Port) (ps : List Port) (links : Map NodeLink)
      → All HasPlainDevice ps
      → All (λ (q : Port). short_name p ≢ short_name q) ps
      → lookup (short_name p) (add_ports sys (map path_of ps) links) ≡ lookup (short_name p) links
  unfolding add_ports
  lookup-add_ports_ne p [] links h n = refl
  lookup-add_ports_ne p (q ∷ ps) links h n =
      lookup-add_ports_ne p ps (add_port sys (path_of q) links) h.1 n.1
      ∙ lookup-add_port_ne p q links h.0 (λ e. n.0 (sym e))

  lookup-add_ports :
      (p : Port) (ps : List Port) (links : Map NodeLink)
      → All HasPlainDevice ps
      → Distinct ps
      → In p ps
      → lookup (short_name p) links ≡ none
      → lookup (short_name p) (add_ports sys (map path_of ps) links)
        ≡ (if is_infiniband sys (path_of p) then some (port_link p) else none)
  unfolding add_ports
  lookup-add_ports p [] links h d i n = elim i [ ]
  lookup-add_ports p (q ∷ ps) links h d (inl e) n =
      lookup-add_ports_ne p ps (add_port sys (path_of q) links) h.1
        (subst (λ x. All (λ (r : Port). short_name x ≢ short_name r) ps) (sym e) d.0)
      ∙ ap (λ x. lookup (short_name p) (add_port sys (path_of x) links)) (sym e)
      ∙ lookup-add_port_self p links (subst HasPlainDevice (sym e) h.0)
      ∙ ap (λ o. if is_infiniband sys (path_of p) then some (port_link p) else o) n
  lookup-add_ports p (q ∷ ps) links h d (inr i) n =
      lookup-add_ports p ps (add_port sys (path_of q) links) h.1 d.1 i (
        lookup-add_port_ne p q links h.0
          (All-In (λ (r : Port). short_name q ≢ short_name r) p ps d.0 i)
        ∙ n)

-- Where the ports that Glob finds have device names without a slash, as path elements do, and no two
-- ports the same name, each port is listed under `device/number` exactly if its link layer is
-- InfiniBand, as such and with four times its own two counters: no other port and no interface,
-- whatever its name, takes or adds that entry.
pub read_network-port :
    (sys : SysClass) (ports : List Port) (p : Port)
    → sys.ports ≡ map path_of ports
    → All HasPlainDevice ports
    → Distinct ports
    → In p ports
    → lookup (short_name p) (read_network sys)
      ≡ (if is_infiniband sys (path_of p) then some (port_link sys p) else none)
unfolding read_network lookup
read_network-port sys ports p e h d i =
    lookup-add_ifaces sys p sys.ifaces (add_ports sys sys.ports [])
    ∙ ap (λ paths. lookup (short_name p) (add_ports sys paths [])) e
    ∙ lookup-add_ports sys p ports [] h d i refl
