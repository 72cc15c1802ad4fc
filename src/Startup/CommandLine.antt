-- ===== src/Startup/CommandLine.antt =====
-- main.go: registerFlags, and main from the command line on.
use linkspan.Base.{
  ℕ, String, Bool, true, false, Option, none, some, List, [], ◌∷◌, Map, insert, concat,
}
use linkspan.Base.Int.{ℤ, pos}
use linkspan.Go.Flags.{mentions}
use linkspan.Go.Integers.{parse_any, parse_bool}
use linkspan.Go.Commands.{Flag, Parsing, parsed, helped, refused, parse_args}
use linkspan.Tasks.{Net, World}
use linkspan.Tunnel.{Url, parse}
use linkspan.Startup.Defs.{Options}
use linkspan.Startup.Main.{Life, Exit, main}

-- options{tunnelArgs: map[string]string{}} with the defaults of the flags
abbrev pub default_options : Options
default_options = record {
  print_version = false;
  tunnel_enable = false;
  tunnel_mode = "";
  tunnel_args = [];
  port = pos 8080;
  port_set = false;
  socket = "";
  workflow = "";
}

abbrev pub put_read : {A : Type 0} → (A → Options → Options) → Options → Option A → Option Options
put_read put o none = none
put_read put o (some a) = some (put a o)

unfoldable pub bool_flag : (Bool → Options → Options) → Flag Options
unfolding parse_bool
bool_flag put = record { is_bool = true; set = λ v o. put_read put o (parse_bool v) }

unfoldable pub int_flag : (ℤ → Options → Options) → Flag Options
unfolding parse_any
int_flag put = record { is_bool = false; set = λ v o. put_read put o (parse_any v) }

unfoldable pub text_flag : (String → Options → Options) → Flag Options
text_flag put = record { is_bool = false; set = λ v o. some (put v o) }

-- o.tunnelArgs[name] = v
unfoldable pub args_flag : String → Flag Options
unfolding insert text_flag
args_flag name = text_flag (λ v o. record o { tunnel_args = insert name v o.tunnel_args })

unfoldable pub args_flags : List String → Map (Flag Options) → Map (Flag Options)
unfolding concat args_flag
args_flags [] more = more
args_flags (name ∷ names) more =
    (concat ("tunnel-" ∷ name ∷ "-args" ∷ []), args_flag name) ∷ args_flags names more

-- registerFlags, for the names of the transports
unfoldable pub register_flags : List String → Map (Flag Options)
unfolding args_flags bool_flag int_flag text_flag
register_flags transports =
    ("version", bool_flag (λ b o. record o { print_version = b }))
    ∷ ("tunnel-enable", bool_flag (λ b o. record o { tunnel_enable = b }))
    ∷ ("tunnel-mode", text_flag (λ v o. record o { tunnel_mode = v }))
    ∷ args_flags transports (
        ("port", int_flag (λ n o. record o { port = n }))
        ∷ ("socket", text_flag (λ v o. record o { socket = v }))
        ∷ ("workflow", text_flag (λ v o. record o { workflow = v }))
        ∷ [])

abbrev pub transport_names : List String
transport_names = "link" ∷ "devtunnel" ∷ []

-- flag.Visit: whether the flags that were set have the port.
unfoldable pub visited : Parsing Options → Parsing Options
unfolding mentions
visited (parsed o actual rest) = parsed (record o { port_set = mentions "port" actual }) actual rest
visited helped = helped
visited refused = refused

-- The command line, as main takes it; what stands behind the flags is not read.
unfoldable pub command_line : List String → Parsing Options
unfolding visited register_flags parse_args
command_line args = visited (parse_args (register_flags transport_names) args [] default_options)

-- main behind flag.Parse, which exits by itself on the help and on an error. `load` is the error that
-- workflow.Load gives of a file.
module _ (version : String) (net : Net) (parse_url : String → Option Url) (getenv : String → String)
    (load : String → Option String) (l : Life) (w : World) where
  abbrev pub exits : ℕ → Exit
  exits code = record { code = code; lines = []; world = w }

  abbrev pub main_with : Options → Exit
  unfolding main parse
  main_with o =
      main version net o (parse parse_url getenv o.tunnel_args o.tunnel_enable o.tunnel_mode)
        (load o.workflow) l w

  unfoldable pub parsed_exit : Parsing Options → Exit
  unfolding main_with
  parsed_exit (parsed o actual rest) = main_with o
  parsed_exit helped = exits 0
  parsed_exit refused = exits 2

  -- main, of os.Args[1:]
  unfoldable pub main_of : List String → Exit
  unfolding parsed_exit command_line
  main_of args = parsed_exit (command_line args)
