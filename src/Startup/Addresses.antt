-- ===== src/Startup/Addresses.antt =====
-- main.go, startAll, and Task.Port of internal/tasks: a task's port is that of the flag.
use text.Mathlib.TextLemmas.{append-nil}
use linkspan.Base.{
  String, ◌≡◌, refl, ap, ◌∙◌, inl, inr, ◌||◌, [], ◌∷◌, concat, arith, ◌==◌, string_eq, map,
  if◌then◌else◌, Bool-cases,
}
use linkspan.Base.Int.{ℤ}
use linkspan.Go.Strconv.{format_int, atoi}
use linkspan.Go.Trips.{IsInt, atoi-format_int, format_int-clean}
use linkspan.Go.HostPort.{loopback_address}
use linkspan.Tasks as Tasks
use linkspan.Tasks.{port_text}
use linkspan.Startup.Defs.{Options, port_addrs, http_task}

port_text-format_int :
    (z : ℤ) → port_text (concat ("127.0.0.1:" ∷ format_int z ∷ [])) ≡ format_int z
unfolding port_text concat
port_text-format_int z =
    rw
      (
        port_text,
        append-nil (format_int z),
        loopback_address (format_int z) (format_int-clean 58 z (inr (omega arith)))
            (format_int-clean 91 z (inr (omega arith))) (format_int-clean 93 z (inr (omega arith))),
      )
      refl

port-http_task :
    (z : ℤ) → IsInt z → Tasks.port (http_task (concat ("127.0.0.1:" ∷ format_int z ∷ []))) ≡ z
unfolding Tasks.port
port-http_task z b = ap atoi (port_text-format_int z) ∙ atoi-format_int z b

-- The round trip of a port, a negative one too: the task of the API at the address that startAll prints
-- of the flag has that port again, as Task.Port reads it; and there is such a task exactly if the flag
-- was given or no socket is.
pub port_addrs-port :
    (o : Options)
    → IsInt o.port
    → map (λ (addr : String). Tasks.port (http_task addr)) (port_addrs o)
      ≡ (if o.port_set || o.socket == "" then o.port ∷ [] else [])
unfolding port_addrs
port_addrs-port o b = elim (Bool-cases (o.port_set || o.socket == "")) [
  | inl q ↦ rw (port_addrs, q) (ap (λ p. p ∷ []) (port-http_task o.port b))
  | inr q ↦ rw (port_addrs, q) refl
]
