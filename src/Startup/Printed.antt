-- ===== src/Startup/Printed.antt =====
-- main.go, registerFlags and main: a command line that gives options is read back as those options.
use linkspan.Base.{
  String, Bool, true, false, ◌≡◌, refl, ap, ◌∙◌, sym, Option, some, none, List, [], ◌∷◌, ◌++◌, ◌≢◌,
  lookup, insert, if◌then◌else◌, Bool-cases, inl, inr, string_eq,
}
use mathlib.Core.List
use linkspan.Base.Int.{pos}
use linkspan.Go.Strings.{contains_char}
use linkspan.Go.Strconv.{format_int}
use linkspan.Go.Flags.{mentions}
use linkspan.Go.Integers.{parse_bool}
use linkspan.Go.Trips.{IsInt, parse_any-format_int}
use linkspan.Go.Commands.{parsed, parse_args}
use linkspan.Go.Setting.{
  Settings, AreNames, IsName, option_of, set_one, parse_args-refused, names, options_of, set_each,
  parse_args-set_each,
}
use linkspan.Tasks.{Net, World}
use linkspan.Tunnel.{Url}
use linkspan.Startup.Defs.{Options}
use linkspan.Startup.Main.{Life}
use linkspan.Startup.CommandLine.{
  default_options, bool_flag, int_flag, text_flag, args_flag, args_flags, register_flags,
  transport_names, visited, command_line, main_with, exits, parsed_exit, main_of,
}

abbrev pub format_bool : Bool → String
format_bool true = "true"
format_bool false = "false"

-- The settings that give every option and the arguments of the two transports, the port if it is set.
abbrev pub port_setting : Options → Settings
unfolding format_int
port_setting o = if o.port_set then ("port", format_int o.port) ∷ [] else []

abbrev pub settings_of : String → String → Options → Settings
unfolding port_setting
settings_of link_args devtunnel_args o =
    ("version", format_bool o.print_version)
    ∷ ("tunnel-enable", format_bool o.tunnel_enable)
    ∷ ("tunnel-mode", o.tunnel_mode)
    ∷ ("tunnel-link-args", link_args)
    ∷ ("tunnel-devtunnel-args", devtunnel_args)
    ∷ ("socket", o.socket)
    ∷ ("workflow", o.workflow)
    ∷ port_setting o

-- The options that they come to.
abbrev pub given_options : String → String → Options → Options
given_options link_args devtunnel_args o = record o {
  tunnel_args = ("link", link_args) ∷ ("devtunnel", devtunnel_args) ∷ [];
  port = if o.port_set then o.port else pos 8080;
}

parse_bool-format_bool : (b : Bool) → parse_bool (format_bool b) ≡ some b
unfolding parse_bool
parse_bool-format_bool true = refl
parse_bool-format_bool false = refl

module _ (link_args devtunnel_args : String) (o : Options) where
  settings_of-AreNames : AreNames (settings_of link_args devtunnel_args o)
  unfolding contains_char settings_of port_setting
  settings_of-AreNames = elim (Bool-cases o.port_set) [
    | inl b ↦ rw b (
      (refl, refl),
      (
        (refl, refl),
        (
          (refl, refl),
          ((refl, refl), ((refl, refl), ((refl, refl), ((refl, refl), ((refl, refl), tt))))),
        ),
      ),
    )
    | inr b ↦ rw b (
      (refl, refl),
      (
        (refl, refl),
        ((refl, refl), ((refl, refl), ((refl, refl), ((refl, refl), ((refl, refl), tt))))),
      ),
    )
  ]

  set_each-settings_of :
      IsInt o.port
      → set_each
          (register_flags transport_names)
          (settings_of link_args devtunnel_args o)
          default_options
        ≡ some (record (given_options link_args devtunnel_args o) { port_set = false })
  unfolding set_each register_flags args_flags args_flag bool_flag int_flag text_flag lookup insert
      settings_of port_setting
  set_each-settings_of h = elim (Bool-cases o.port_set) [
    | inl b ↦
        rw (b, parse_bool-format_bool o.print_version, parse_bool-format_bool o.tunnel_enable)
          (rw (parse_any-format_int o.port h) refl)
    | inr b ↦
        rw (b, parse_bool-format_bool o.print_version, parse_bool-format_bool o.tunnel_enable) refl
  ]

  visited-settings_of :
      visited (
        parsed
          (record (given_options link_args devtunnel_args o) { port_set = false })
          (names (settings_of link_args devtunnel_args o))
          [])
      ≡ parsed
          (given_options link_args devtunnel_args o)
          (names (settings_of link_args devtunnel_args o))
          []
  unfolding visited mentions settings_of port_setting
  visited-settings_of = elim (Bool-cases o.port_set) [ inl b ↦ rw b refl | inr b ↦ rw b refl ]

  command_line-settings_of :
      IsInt o.port
      → command_line (options_of (settings_of link_args devtunnel_args o))
        ≡ parsed
            (given_options link_args devtunnel_args o)
            (names (settings_of link_args devtunnel_args o))
            []
  unfolding command_line parse_args
  command_line-settings_of h =
      ap visited (
        ap (λ args. parse_args (register_flags transport_names) args [] default_options)
          (sym (List.append-nil (options_of (settings_of link_args devtunnel_args o))))
        ∙ parse_args-set_each (register_flags transport_names)
            (settings_of link_args devtunnel_args o) [] [] default_options _ settings_of-AreNames
            (set_each-settings_of h))
      ∙ visited-settings_of

-- The round trip of the command line: main on arguments `--name=value` that give every option, whatever
-- texts they hold and with the port where it is set, does what it does with those options: each text is
-- read as it was given, an int and a Bool as they print, each transport has its own arguments, and
-- portSet tells whether the port was among them; a port that was not is 8080.
pub main_of-settings_of :
    (version : String) (net : Net) (parse_url : String → Option Url) (getenv : String → String)
    (load : String → Option String) (l : Life) (w : World) (link_args devtunnel_args : String)
    (o : Options)
    → IsInt o.port
    → main_of version net parse_url getenv load l w
        (options_of (settings_of link_args devtunnel_args o))
      ≡ main_with version net parse_url getenv load l w (given_options link_args devtunnel_args o)
unfolding main_of parsed_exit
main_of-settings_of version net parse_url getenv load l w link_args devtunnel_args o h =
    ap (parsed_exit version net parse_url getenv load l w)
      (command_line-settings_of link_args devtunnel_args o h)

-- A command line that goes wrong: behind options `--name=value` that the flags take, one whose name is
-- no flag, or whose value its flag refuses, ends Linkspan with 2, whatever stands behind it, and the
-- state is left as it was: nothing has been validated, bound or started.
pub main_of-refused :
    (version : String) (net : Net) (parse_url : String → Option Url) (getenv : String → String)
    (load : String → Option String) (l : Life) (w : World) (settings : Settings) (o : Options)
    (name value : String) (rest : List String)
    → AreNames settings
    → set_each (register_flags transport_names) settings default_options ≡ some o
    → IsName name
    → name ≢ "help"
    → name ≢ "h"
    → set_one
        (register_flags transport_names)
        (lookup name (register_flags transport_names))
        value
        o
      ≡ none
    → main_of version net parse_url getenv load l w
        (options_of settings ++ (option_of name value ∷ rest))
      ≡ exits version net parse_url getenv load l w 2
unfolding main_of parsed_exit command_line visited
main_of-refused version net parse_url getenv load l w settings o name value rest a e i n m r =
    ap (λ p. parsed_exit version net parse_url getenv load l w (visited p))
      (parse_args-set_each (register_flags transport_names) settings (option_of name value ∷ rest)
          [] default_options o a e
        ∙ parse_args-refused (register_flags transport_names) name value rest (names settings) o i n
            m r)
