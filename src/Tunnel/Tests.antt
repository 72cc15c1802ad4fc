-- ===== src/Tunnel/Tests.antt =====
-- Concrete arguments and attempts of internal/tunnel.
use linkspan.Base.{
  ℕ, ◌*◌, String, ◌≡◌, refl, ◌≢◌, Bool, true, false, not, Option, none, some, List, [], ◌∷◌, Map,
  ◌⊎◌, ok, arith, All, length, ◌≤◌, ◌==◌, string_eq,
}
use linkspan.Go.Strings.{split}
use linkspan.Tunnel.{
  HostProcess, host, write_output, Url, Tunnel, transports, Carrier, parse, hosts,
}
use linkspan.Tasks as Tasks
use linkspan.Install.{Platform, Answers, fetch}
use linkspan.Tunnel.Running.{IsRun, IsRefused, host-cases}
use linkspan.Tunnel.Listing.{Carried, parse-Carried}

abbrev host_args : String
host_args = "--id quick-fox --cluster usw2"

abbrev fox : Tunnel
fox = record { id = "quick-fox"; cluster = "usw2"; token = "secret" }

abbrev no_url : String → Option Url
no_url s = none

abbrev fox_args : Map String
fox_args = ("devtunnel", host_args) ∷ []

abbrev environment : String → String
environment name = "secret"

abbrev fox_carrier : Carrier
fox_carrier = record { task = Tasks.new "devtunnel" Tasks.run; attempt = hosts fox }

parse-Carried_example :
    (true ≡ true)
    × Carried no_url environment fox_args (split 44 "devtunnel") transports (fox_carrier ∷ [])
unfolding parse linkspan.Base.insert
parse-Carried_example =
    parse-Carried no_url environment fox_args true "devtunnel" (fox_carrier ∷ []) refl

-- A CLI that is downloaded and ends at once.
abbrev downloads : Answers
downloads = record {
  mkdir = none;
  response = ok (record { status = 200; line = "200 OK"; body = ok "ELF" });
  write = none;
  rename = none;
}

abbrev linux : Platform
linux = record { os = "linux"; arch = "amd64"; home = "/home/ada" }

abbrev ends_at_once : List String → HostProcess
ends_at_once argv = record { writes = (104 ∷ 105 ∷ []) ∷ []; result = some "exit status 2" }

abbrev quoted_output : List ℕ → String
quoted_output bytes = "\"hi\""

host-cases_example :
    IsRun linux downloads ends_at_once quoted_output fox []
      (host linux downloads ends_at_once quoted_output fox [])
    ⊎ IsRefused linux downloads ends_at_once quoted_output fox []
        (host linux downloads ends_at_once quoted_output fox [])
host-cases_example = host-cases linux downloads ends_at_once quoted_output fox []

host-runs :
    ((host linux downloads ends_at_once quoted_output fox []).error
      ≡ "host process exited (output=\"hi\"): exit status 2")
    × ((host linux downloads ends_at_once quoted_output fox []).files
        ≡ ("/home/ada/.cybershuttle/bin/devtunnel", "ELF") ∷ [])
unfolding host fetch write_output linkspan.Base.insert linkspan.Base.lookup linkspan.Base.delete
host-runs = (refl, refl)
