-- ===== src/Go/HostPort.antt =====
-- net.SplitHostPort
use Prim.Native.Char.{code}
use Prim.Native.String
use Prim.Native.String.append
use text.Mathlib.TextLemmas.{append_assoc}
use linkspan.Base.{
  String, ◌≡◌, refl, sym, ap, ◌∙◌, false, ◌||◌, Option, none, some, ◌==◌, nat_eq, if◌then◌else◌,
}
use linkspan.Go.Strings.{contains_char, cut, cut_last}
use linkspan.Go.Cutting.{contains_char-append, cut_last-append}

-- host:port, neither holding a colon or a bracket; ':' is 58, '[' 91, ']' 93.
unfoldable pub split_plain : String → Option (String × String)
unfolding contains_char cut_last
split_plain s = elim (cut_last 58 s) [
  | none ↦ none
  | some (host, port) ↦
      if contains_char 58 host || contains_char 91 s || contains_char 93 s
      then none
      else some (host, port)
]

-- What stands behind "[host]": a colon and the port.
unfoldable pub split_port : String → String → Option (String × String)
unfolding contains_char
split_port host String.[] = none
split_port host (String.◌∷◌ c port) =
    if code c == 58
    then (if contains_char 58 port
          || contains_char 91 host
          || contains_char 91 port
          || contains_char 93 port
        then none
        else some (host, port))
    else none

-- [host]:port, behind its first bracket
unfoldable pub split_bracketed : String → Option (String × String)
unfolding cut split_port
split_bracketed s = elim (cut 93 s) [ none ↦ none | some (host, rest) ↦ split_port host rest ]

-- `none` is an error.
unfoldable pub split_host_port : String → Option (String × String)
unfolding split_plain split_bracketed
split_host_port String.[] = none
split_host_port (String.◌∷◌ c s) =
    if code c == 91 then split_bracketed s else split_plain (String.◌∷◌ c s)

tcp_address : split_host_port "127.0.0.1:8080" ≡ some ("127.0.0.1", "8080")
unfolding split_host_port
tcp_address = refl

ip6_address : split_host_port "[::1]:80" ≡ some ("::1", "80")
unfolding split_host_port
ip6_address = refl

socket_path : split_host_port "/run/linkspan.sock" ≡ none
unfolding split_host_port
socket_path = refl

-- A port of digits behind the loopback address.
pub loopback_address :
    (port : String)
    → contains_char 58 port ≡ false
    → contains_char 91 port ≡ false
    → contains_char 93 port ≡ false
    → split_host_port (String.◌++◌ "127.0.0.1:" port) ≡ some ("127.0.0.1", port)
unfolding split_host_port split_plain contains_char
loopback_address port colon left right =
    let tail : String.◌++◌ "127.0.0.1:" port ≡ String.◌++◌ "127.0.0.1" (String.◌∷◌ ":" port) =
      append_assoc "127.0.0.1" ":" port
      ∙ ap (String.◌++◌ "127.0.0.1")
          (append.cons ":" "" port ∙ ap (String.◌∷◌ ":") (append.nil port)) in
    let parts : cut_last 58 (String.◌++◌ "127.0.0.1:" port) ≡ some ("127.0.0.1", port) =
      ap (cut_last 58) tail ∙ cut_last-append ":" "127.0.0.1" port colon in
    let no_left : contains_char 91 (String.◌++◌ "127.0.0.1:" port) ≡ false =
      contains_char-append 91 "127.0.0.1:" port ∙ left in
    let no_right : contains_char 93 (String.◌++◌ "127.0.0.1:" port) ≡ false =
      contains_char-append 93 "127.0.0.1:" port ∙ right in
    let plain : split_plain (String.◌++◌ "127.0.0.1:" port) ≡ some ("127.0.0.1", port) =
      rw (split_plain, parts, no_left, no_right) refl in
    ap split_host_port (append.cons "1" "27.0.0.1:" port)
    ∙ ap split_plain (sym (append.cons "1" "27.0.0.1:" port))
    ∙ plain
