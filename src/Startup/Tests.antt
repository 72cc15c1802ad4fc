-- ===== src/Startup/Tests.antt =====
-- A concrete startup.
use linkspan.Base.{
  eq_iff, Option, true, ◌++◌, insert, some, ◌∷◌, String, map, lookup, arith, ◌≡◌, refl, false, none,
  [], ok,
}
use linkspan.Base.Int.{ℤ, pos, negsuc}
use linkspan.Tasks.{Net, empty_world}
use linkspan.Startup.{
  Options, start_all, port_addrs, http_task, signalled, Life, main, main_of, main_with, exits,
  command_line, register_flags, args_flags, int_flag, text_flag, default_options,
}
use linkspan.Go.Commands.{Parsing, parsed, helped, refused}
use linkspan.Go.Setting.{option_of, options_of, set_each}
use linkspan.Startup.Printed.{settings_of, given_options, main_of-settings_of, main_of-refused}
use linkspan.Go.Strings.{contains_char}
use linkspan.Tasks as Tasks
use linkspan.Startup.Ending.{EndsAs, main-EndsAs}
use linkspan.Startup.Addresses.{port_addrs-port}

abbrev net_up : Net
net_up = record {
  tcp = λ a. ok "127.0.0.1:8080";
  unix = λ p. none;
  remove = λ p. none;
  chmod = λ p. none;
}

abbrev options : Options
options = record {
  print_version = false;
  tunnel_enable = false;
  tunnel_mode = "";
  tunnel_args = [];
  port = pos 8080;
  port_set = false;
  socket = "";
  workflow = "job.yaml";
}

abbrev socket_options : Options
socket_options = record options {
  tunnel_enable = true;
  tunnel_mode = "devtunnel";
  port = negsuc 0;
  port_set = true;
  socket = "/run/user/1000/link=span";
}

-- A signal wakes main, and the stop steps fail.
abbrev life : Life
life = record {
  meanwhile = λ w. w;
  woken = signalled;
  stop_steps = λ w. (some "stop: exit status 1", w);
  while_stopping = λ w. record w { registry = [] };
  outcome = λ h. Tasks.returned none;
}

main-EndsAs_example :
    EndsAs life
      (start_all net_up options (ok []) none empty_world)
      (main "dev" net_up options (ok []) none life empty_world)
main-EndsAs_example =
    main-EndsAs "dev" net_up options (ok []) none life empty_world refl (λ w h e. e)

-- The errors of the stop steps are the exit code.
main-stop_fails : (main "dev" net_up options (ok []) none life empty_world).code ≡ 1
unfolding main start_all linkspan.Go.Strconv.format_int linkspan.Go.HostPort.split_host_port
main-stop_fails = refl

port_addrs-port_example :
    map (λ (addr : String). Tasks.port (http_task addr)) (port_addrs options) ≡ pos 8080 ∷ []
port_addrs-port_example = port_addrs-port options (omega arith)

main_of-settings_of_example :
    main_of "dev" net_up
      (λ s. none)
      (λ name. "secret")
      (λ path. none)
      life
      empty_world
      (options_of (settings_of "" "--id quick-fox --cluster usw2" socket_options))
    ≡ main_with "dev" net_up
        (λ s. none)
        (λ name. "secret")
        (λ path. none)
        life
        empty_world
        (given_options "" "--id quick-fox --cluster usw2" socket_options)
main_of-settings_of_example =
    main_of-settings_of "dev" net_up (λ s. none) (λ name. "secret") (λ path. none) life empty_world
      "" "--id quick-fox --cluster usw2" socket_options (omega arith)

-- A port that is no number.
main_of-refused_example :
    main_of "dev" net_up
      (λ s. none)
      (λ name. "secret")
      (λ path. none)
      life
      empty_world
      (options_of (("socket", "/run/linkspan") ∷ []) ++ (option_of "port" "80a" ∷ "--version" ∷ []))
    ≡ exits "dev" net_up (λ s. none) (λ name. "secret") (λ path. none) life empty_world 2
unfolding set_each register_flags args_flags int_flag text_flag lookup insert contains_char
main_of-refused_example =
    main_of-refused "dev" net_up (λ s. none) (λ name. "secret") (λ path. none) life empty_world
      (("socket", "/run/linkspan") ∷ []) (record default_options { socket = "/run/linkspan" })
      "port" "80a" ("--version" ∷ []) ((refl, refl), tt) refl (refl, refl)
      (λ e. cc ((eq_iff "port" "help").1 e)) (λ e. cc ((eq_iff "port" "h").1 e)) refl

-- The help, a flag that takes the next argument, and ports in other bases.
parsed_port : Parsing Options → Option ℤ
parsed_port (parsed o actual rest) = some o.port
parsed_port helped = none
parsed_port refused = none

command_line-tests :
    (command_line ("-tunnel-enable" ∷ "-h" ∷ []) ≡ helped)
    × (parsed_port (command_line ("--port" ∷ "0x1_F90" ∷ "more" ∷ [])) ≡ some (pos 8080))
    × (parsed_port (command_line ("--port=-0b11" ∷ [])) ≡ some (negsuc 2))
    × (command_line ("--port=1__0" ∷ []) ≡ refused)
    × (command_line ("--port=9223372036854775808" ∷ []) ≡ refused)
    × (command_line ("--port" ∷ []) ≡ refused)
unfolding command_line parsed_port
command_line-tests = (refl, refl, refl, refl, refl, refl)
