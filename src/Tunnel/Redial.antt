-- ===== src/Tunnel/Redial.antt =====
-- internal/tunnel/tunnel.go: redial, with time in nanoseconds.
use linkspan.Base.{ℕ, ◌*◌, min, Bool, List, [], ◌∷◌, ltb, if◌then◌else◌}

abbrev pub second : ℕ
second = 1000000000

abbrev pub minute : ℕ
minute = 60 * second

-- One round: how long the attempt lasted, and whether the context is done by the end of the wait.
pub record Round : Type 0 where
  pub lasted : ℕ
  pub over : Bool

-- The backoff of a round: reset where the attempt lasted more than a minute.
unfoldable pub reset : ℕ → ℕ → ℕ
reset lasted backoff = if ltb minute lasted then second else backoff

-- The waits that redial begins, from a backoff; it ends once the context is done.
unfoldable pub redial_from : ℕ → List Round → List ℕ
unfolding reset
redial_from backoff [] = []
redial_from backoff (r ∷ rs) =
    let wait = reset r.lasted backoff in
    let rest = redial_from (min (2 * wait) minute) rs in if r.over then wait ∷ [] else wait ∷ rest

unfoldable pub redial : List Round → List ℕ
unfolding redial_from
redial rounds = redial_from second rounds
