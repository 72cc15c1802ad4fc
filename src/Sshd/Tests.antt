-- ===== src/Sshd/Tests.antt =====
-- A package with texts as keys, one session, and one stream.
use linkspan.Base.{
  ◌≤◌, String, ◌≡◌, refl, ◌⊎◌, false, none, some, [], ◌∷◌, ◌==◌, string_eq, if◌then◌else◌,
}
use linkspan.Base.Int.{pos, negsuc}
use linkspan.Sshd.{
  returned, panicked, Ran, unstarted, exited, Package, run_command, new_server, Side, inward,
  Stream, deferred, closing, half, call_once, advance_from, advance, joined_stream, Steps, begun,
  stepped,
}
use linkspan.Sshd.Guarding.{IsSafe, new_server-IsSafe}
use linkspan.Sshd.Closing.{AreClosed, IsOver, Steps-AreClosed, Steps-IsOver}

-- A comparison of the empty key panics.
abbrev texts : Package
texts = record {
  Key = String;
  keys_equal = λ a b. if a == "" then panicked "nil key" else returned (a == b);
  Channel = String;
  session_channel = λ c. ([], returned tt);
  direct_tcpip = λ c. ([], panicked "index out of range");
  sftp = λ s. returned none;
}

abbrev stream_local : String → Ran Unit
stream_local c = ([], returned tt)

new_server-IsSafe_example :
    IsSafe texts "ssh-ed25519 A" (new_server texts stream_local "ssh-ed25519 A")
new_server-IsSafe_example = new_server-IsSafe texts stream_local "ssh-ed25519 A"

-- A key on which the comparison panics is refused, and the panic logged.
public_key-panic :
    (new_server texts stream_local "ssh-ed25519 A").public_key ""
    ≡ ("sshd: recovered panic in public key: nil key" ∷ [], returned false)
unfolding new_server
public_key-panic = refl

run_command-statuses :
    ((run_command ("sh" ∷ []) (unstarted "no sh")).status ≡ pos 127)
    × ((run_command ("sh" ∷ []) (exited (negsuc 0))).status ≡ pos 255)
    × ((run_command ("sh" ∷ []) (exited (pos 3))).status ≡ pos 3)
unfolding run_command
run_command-statuses = (refl, refl, refl)

-- The inward copy ends, and closes the channel.
abbrev one_deferred : Stream
one_deferred = record joined_stream { inbound = deferred }

abbrev half_closed : Stream
half_closed = record joined_stream { inbound = closing; once = half; channel_closes = 1 }

two_steps : Steps 2 half_closed
unfolding advance_from call_once
two_steps =
    stepped 1 one_deferred half_closed inward
      (stepped 0 joined_stream one_deferred inward begun refl) refl

Steps-AreClosed_example : AreClosed half_closed
Steps-AreClosed_example = Steps-AreClosed 2 half_closed two_steps

Steps-IsOver_example :
    (2 ≤ 6)
    × (IsOver half_closed ⊎ ((side : Side) × (t : Stream) × (advance side half_closed ≡ some t)))
Steps-IsOver_example = Steps-IsOver 2 half_closed two_steps
