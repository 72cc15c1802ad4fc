-- ===== src/Sshd/Guarding.antt =====
-- internal/sshd/sshd.go, New: no handler of the server panics, and only the key is let in.
use linkspan.Base.Int.{pos, negsuc}
use linkspan.Base.{
  String, List, Option, some, sym, subst, concat, ◌≡◌, refl, ap, false, none, [], ◌∷◌, Map, All,
  map,
}
use linkspan.Sshd.{
  Ending, returned, panicked, Ran, Child, unstarted, exited, Served, run_command, guard, recovered,
  sh_args, Session, Package, Server, served_by, serve_session, guard_each, guard_server,
  bare_server, new_server,
}

-- What a guard leaves of an ending.
abbrev pub value_of : {A : Type 0} → A → Ending A → A
value_of unset (returned a) = a
value_of unset (panicked r) = unset

guard-returned :
    {A : Type 0} (name : String) (unset : A) (r : Ran A)
    → (guard name unset r).1 ≡ returned (value_of unset r.1)
unfolding guard recovered
guard-returned name unset (logs, returned a) = refl
guard-returned name unset (logs, panicked e) = refl

-- Every handler of a table returns, whatever it is given.
abbrev pub AreCalm : {A : Type 0} → Map (A → Ran Unit) → Type 0
AreCalm {A} handlers =
    All (λ (h : String × (A → Ran Unit)). (a : A) → (h.1 a).1 ≡ returned tt) handlers

guard_each-AreCalm :
    {A : Type 0} (what : String) (handlers : Map (A → Ran Unit))
    → AreCalm (guard_each what handlers)
unfolding guard_each
guard_each-AreCalm what [] = tt
guard_each-AreCalm what ((name, h) ∷ handlers) =
    ((λ a. guard-returned _ tt (h a)), guard_each-AreCalm what handlers)

names-guard_each :
    {A : Type 0} (what : String) (handlers : Map (A → Ran Unit))
    → map (λ (h : String × (A → Ran Unit)). h.0) (guard_each what handlers)
      ≡ map (λ (h : String × (A → Ran Unit)). h.0) handlers
unfolding guard_each
names-guard_each what [] = refl
names-guard_each what ((name, h) ∷ handlers) = ap (λ ns. name ∷ ns) (names-guard_each what handlers)

-- What a session sends of the command `argv`, by how it ended: the exit status, 255 for a signal, 127 and
-- a line on stderr for a command that did not run, and nothing behind a panic.
abbrev pub Sends : List String → Ending Child → Ending (Option Served) → Type 0
Sends argv (panicked p) e = e ≡ returned none
Sends argv (returned (exited (pos code))) e =
    e ≡ returned (some (record { argv = argv; stderr = []; status = pos code }))
Sends argv (returned (exited (negsuc code))) e =
    e ≡ returned (some (record { argv = argv; stderr = []; status = pos 255 }))
Sends argv (returned (unstarted x)) e =
    e
    ≡ returned (
        some (record {
          argv = argv;
          stderr = concat ("command error: " ∷ x ∷ "\n" ∷ []) ∷ [];
          status = pos 127;
        }))

served_by-Sends :
    (argv : List String) (x : Ending Child)
    → Sends argv x (returned (value_of none (served_by argv x)))
unfolding served_by run_command
served_by-Sends argv (panicked p) = refl
served_by-Sends argv (returned (exited (pos code))) = refl
served_by-Sends argv (returned (exited (negsuc code))) = refl
served_by-Sends argv (returned (unstarted x)) = refl

session-Sends :
    (s : Session)
    → Sends
        ("sh" ∷ sh_args s.command s.raw_command)
        (s.run (sh_args s.command s.raw_command))
        (guard "handler session" none (serve_session s)).1
unfolding serve_session
session-Sends s =
    subst (Sends ("sh" ∷ sh_args s.command s.raw_command) (s.run (sh_args s.command s.raw_command)))
      (sym (guard-returned "handler session" none (serve_session s)))
      (served_by-Sends ("sh" ∷ sh_args s.command s.raw_command)
        (s.run (sh_args s.command s.raw_command)))

session-Sends_as :
    (s : Session) (command : List String)
    → s.command ≡ command
    → Sends
        ("sh" ∷ sh_args command s.raw_command)
        (s.run (sh_args command s.raw_command))
        (guard "handler session" none (serve_session s)).1
session-Sends_as s command e =
    subst
      (λ c.
        Sends ("sh" ∷ sh_args c s.raw_command) (s.run (sh_args c s.raw_command))
          (guard "handler session" none (serve_session s)).1)
      e (session-Sends s)

-- A server that holds the key alone, and that no client's request takes down.
pub record IsSafe (P : Package) (key : P.Key) (srv : Server P) : Type 0 where
  pub lets_in :
      (offered : P.Key)
      → (srv.public_key offered).1 ≡ returned (value_of false (P.keys_equal offered key))
  pub runs_command :
      (s : Session) (word : String) (words : List String)
      → s.command ≡ word ∷ words
      → Sends
          ("sh" ∷ "-c" ∷ s.raw_command ∷ [])
          (s.run ("-c" ∷ s.raw_command ∷ []))
          (srv.handler s).1
  pub runs_stdin :
      (s : Session)
      → s.command ≡ []
      → Sends ("sh" ∷ "-s" ∷ []) (s.run ("-s" ∷ [])) (srv.handler s).1
  pub calm_channels : AreCalm srv.channels
  pub calm_subsystems : AreCalm srv.subsystems
  pub named :
      map (λ (h : String × (P.Channel → Ran Unit)). h.0) srv.channels
      ≡ "session" ∷ "direct-tcpip" ∷ "direct-streamlocal@openssh.com" ∷ []
  pub no_pty : srv.pty ≡ false

-- For every key, and whatever the packages ssh and sftp, the forwarding of a socket and the commands do,
-- panics included: the server of New lets in exactly the keys that KeysEqual finds equal, and none on
-- which it panics; a session with a command runs sh -c with that command as it was sent, and one without
-- runs sh -s, and sends its exit status, 255 where a signal ended it, 127 and a line on stderr where it
-- did not run, and nothing after a panic; and the handlers of the session, of all three
-- channel types and of sftp always return. It gives no PTY.
pub new_server-IsSafe :
    (P : Package) (stream_local : P.Channel → Ran Unit) (key : P.Key)
    → IsSafe P key (new_server P stream_local key)
unfolding new_server bare_server guard_server serve_session guard_each
new_server-IsSafe P stream_local key = record {
  lets_in = λ offered. guard-returned _ false ([], P.keys_equal offered key);
  runs_command = λ s word words e. session-Sends_as s (word ∷ words) e;
  runs_stdin = λ s e. session-Sends_as s [] e;
  calm_channels = guard_each-AreCalm "channel " (bare_server P stream_local key).channels;
  calm_subsystems = guard_each-AreCalm "handler " (bare_server P stream_local key).subsystems;
  named = refl;
  no_pty = refl;
}
