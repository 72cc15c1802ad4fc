-- ===== src/Forward/Delivering.antt =====
-- internal/forward/forward.go, Pipe: bytes arrive in order, none lost before the end.
use Prim.Native.String
use Prim.Native.String.append
use text.Mathlib.TextLemmas.{append-nil, append_assoc}
use linkspan.Base.{ℕ, String, ◌≡◌, sym, subst, ap, ◌∙◌, List, [], ◌∷◌, ◌++◌, concat}
use linkspan.Forward.{
  CopyLoop, reading, holding, stopped, Piping, Step, reads_client, writes_server, writes_part,
  stops_upward, reads_server, writes_client, writes_last, stops_downward, piping, Steps, still,
  stepped,
}

concat-append : (xs ys : List String) → concat (xs ++ ys) ≡ String.◌++◌ (concat xs) (concat ys)
unfolding concat
concat-append [] ys = sym (append.nil (concat ys))
concat-append (x ∷ xs) ys =
    ap (String.◌++◌ x) (concat-append xs ys) ∙ sym (append_assoc x (concat xs) (concat ys))

concat-last : (xs : List String) (m : String) → concat (xs ++ (m ∷ [])) ≡ String.◌++◌ (concat xs) m
unfolding concat
concat-last xs m = concat-append xs (m ∷ []) ∙ ap (String.◌++◌ (concat xs)) (append-nil m)

-- What a loop has taken and not yet given on.
abbrev pub held : CopyLoop → String
held (holding m) = m
held _ = ""

-- One way: what arrived, what the loop holds and what is still to come is what was sent, and once the
-- loop has stopped, what arrived is its beginning.
abbrev pub IsCarried : String → CopyLoop → List String → List String → Type 0
IsCarried sent stopped got left = (rest : String) × (String.◌++◌ (concat got) rest ≡ sent)
IsCarried sent loop got left =
    String.◌++◌ (concat got) (String.◌++◌ (held loop) (concat left)) ≡ sent

module _ (sent : String) where
  read-IsCarried :
      (m : String) (got ms : List String)
      → IsCarried sent reading got (m ∷ ms)
      → IsCarried sent (holding m) got ms
  unfolding concat
  read-IsCarried m got ms h =
      ap (String.◌++◌ (concat got)) (sym (append.nil (String.◌++◌ m (concat ms)))) ∙ h

  write-IsCarried :
      (m : String) (got left : List String)
      → IsCarried sent (holding m) got left
      → IsCarried sent reading (got ++ (m ∷ [])) left
  write-IsCarried m got left h =
      ap (String.◌++◌ (concat (got ++ (m ∷ [])))) (append.nil (concat left))
      ∙ ap (λ s. String.◌++◌ s (concat left)) (concat-last got m)
      ∙ append_assoc (concat got) m (concat left)
      ∙ h

  stop-IsCarried :
      (loop : CopyLoop) (got left : List String)
      → IsCarried sent loop got left
      → IsCarried sent stopped got left
  stop-IsCarried reading got left h = (String.◌++◌ "" (concat left), h)
  stop-IsCarried (holding m) got left h = (String.◌++◌ m (concat left), h)
  stop-IsCarried stopped got left h = h

  part-IsCarried :
      (written lost : String) (got left : List String)
      → IsCarried sent (holding (String.◌++◌ written lost)) got left
      → IsCarried sent stopped (got ++ (written ∷ [])) left
  part-IsCarried written lost got left h = (
    String.◌++◌ lost (concat left),
    ap (λ s. String.◌++◌ s (String.◌++◌ lost (concat left))) (concat-last got written)
        ∙ append_assoc (concat got) written (String.◌++◌ lost (concat left))
        ∙ ap (String.◌++◌ (concat got)) (sym (append_assoc written lost (concat left)))
        ∙ h,
  )

  taken :
      (got : List String) {loop : CopyLoop} {left : List String} {m : String} {ms : List String}
      → loop ≡ reading
      → left ≡ m ∷ ms
      → IsCarried sent loop got left
      → IsCarried sent reading got (m ∷ ms)
  taken got {left = left} e f h =
      subst (IsCarried sent reading got) f (subst (λ l. IsCarried sent l got left) e h)

pub record IsDelivered (up down : String) (p : Piping) : Type 0 where
  pub to_server : IsCarried up p.upward p.server_got p.client_sends
  pub to_client : IsCarried down p.downward p.client_got p.server_sends

Step-IsDelivered :
    {p q : Piping} (up down : String) → Step p q → IsDelivered up down p → IsDelivered up down q
Step-IsDelivered up down (reads_client p m ms e f) h = record {
  to_server = read-IsCarried up m p.server_got ms (taken up p.server_got e f h.to_server);
  to_client = h.to_client;
}
Step-IsDelivered up down (writes_server p m e) h = record {
  to_server =
      write-IsCarried up m p.server_got p.client_sends
        (subst (λ l. IsCarried up l p.server_got p.client_sends) e h.to_server);
  to_client = h.to_client;
}
Step-IsDelivered up down (writes_part p m written lost e f) h = record {
  to_server =
      part-IsCarried up written lost p.server_got p.client_sends
        (subst (λ l. IsCarried up l p.server_got p.client_sends) (e ∙ ap holding f) h.to_server);
  to_client = h.to_client;
}
Step-IsDelivered up down (stops_upward p r) h = record {
  to_server = stop-IsCarried up p.upward p.server_got p.client_sends h.to_server;
  to_client = h.to_client;
}
Step-IsDelivered up down (reads_server p m ms e r f) h = record {
  to_server = h.to_server;
  to_client = read-IsCarried down m p.client_got ms (taken down p.client_got e f h.to_client);
}
Step-IsDelivered up down (writes_client p m e) h = record {
  to_server = h.to_server;
  to_client =
      write-IsCarried down m p.client_got p.server_sends
        (subst (λ l. IsCarried down l p.client_got p.server_sends) e h.to_client);
}
Step-IsDelivered up down (writes_last p m e) h = record {
  to_server = h.to_server;
  to_client = stop-IsCarried down reading (p.client_got ++ (m ∷ [])) p.server_sends (
      write-IsCarried down m p.client_got p.server_sends
        (subst (λ l. IsCarried down l p.client_got p.server_sends) e h.to_client));
}
Step-IsDelivered up down (stops_downward p r) h = record {
  to_server = h.to_server;
  to_client = stop-IsCarried down p.downward p.client_got p.server_sends h.to_client;
}

steps-IsDelivered :
    {up down : List String} {n : ℕ} {p : Piping}
    → Steps (piping up down) n p
    → IsDelivered (concat up) (concat down) p
unfolding concat
steps-IsDelivered {up} {down} still = record {
  to_server = append.nil (String.◌++◌ "" (concat up)) ∙ append.nil (concat up);
  to_client = append.nil (String.◌++◌ "" (concat down)) ∙ append.nil (concat down);
}
steps-IsDelivered {up} {down} (stepped n p q steps s) =
    Step-IsDelivered (concat up) (concat down) s (steps-IsDelivered steps)

-- However the steps of the two loops of Pipe interleave, and wherever reads and writes fail: what the
-- server has received is a beginning of the bytes that the client sends, and what the client has
-- received is a beginning of those that the server sends; while a loop runs, only the message it
-- holds and what it has not read are missing.
pub Steps-IsDelivered :
    (up down : List String) (n : ℕ) (p : Piping)
    → Steps (piping up down) n p
    → IsDelivered (concat up) (concat down) p
Steps-IsDelivered up down n p steps = steps-IsDelivered steps
