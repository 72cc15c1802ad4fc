-- ===== src/Tunnel/Backoff.antt =====
-- How long redial waits.
use linkspan.Base.{
  ℕ, suc, ◌*◌, ◌≤◌, min, inl, inr, zero, ◌≡◌, refl, false, List, [], ◌∷◌, All, arith, ltb, length,
  Bool-cases,
}
use linkspan.Tunnel.Redial.{second, minute, Round, reset, redial_from, redial}

abbrev Bounded : ℕ → Type 0
Bounded w = (second ≤ w) × (w ≤ minute)

reset-Bounded : (lasted backoff : ℕ) → Bounded backoff → Bounded (reset lasted backoff)
unfolding reset
reset-Bounded lasted backoff b = ground arith

doubled-Bounded : (w : ℕ) → Bounded w → Bounded (min (2 * w) minute)
doubled-Bounded w b = (grind arith, grind arith)

redial_from-Bounded :
    (rounds : List Round) (backoff : ℕ) → Bounded backoff → All Bounded (redial_from backoff rounds)
unfolding redial_from
redial_from-Bounded [] backoff b = tt
redial_from-Bounded (r ∷ rs) backoff b =
    let w = reset-Bounded r.lasted backoff b in
    let rest =
      redial_from-Bounded rs (min (2 * reset r.lasted backoff) minute) (doubled-Bounded _ w) in
    elim (Bool-cases r.over) [ inl e ↦ rw e (w, tt) | inr e ↦ rw e (w, rest) ]

-- Whatever the attempts do, each wait between two of them lasts from one second to one minute.
pub redial-bounds : (rounds : List Round) → All (λ w. (second ≤ w) × (w ≤ minute)) (redial rounds)
unfolding redial
redial-bounds rounds = redial_from-Bounded rounds second (omega arith, omega arith)

abbrev pub power_of_two : ℕ → ℕ
power_of_two zero = 1
power_of_two (suc k) = 2 * power_of_two k

-- The waits of `n` rounds from the k-th on: each is twice the one before, up to a minute.
abbrev pub doubling : ℕ → ℕ → List ℕ
doubling k zero = []
doubling k (suc n) = min (power_of_two k * second) minute ∷ doubling (suc k) n

-- A round that lasts no longer than a minute, in a context that is not done.
pub record IsShort (r : Round) : Type 0 where
  pub brief : r.lasted ≤ minute
  pub goes_on : r.over ≡ false

redial_from-doubling :
    (rounds : List Round) (k : ℕ)
    → All IsShort rounds
    → redial_from (min (power_of_two k * second) minute) rounds ≡ doubling k (length rounds)
unfolding redial_from reset
redial_from-doubling [] k a = refl
redial_from-doubling (r ∷ rs) k a =
    let rest = redial_from-doubling rs (suc k) a.1 in
    let kept : ltb minute r.lasted ≡ false = ground (arith, a.0.brief) in
    let next : min (2 * min (power_of_two k * second) minute) minute
        ≡ min (power_of_two (suc k) * second) minute =
      omega arith in
    rw (a.0.goes_on, kept, next, rest)

-- While no attempt lasts more than a minute, the waits double from one second up to one minute.
pub redial-doubling :
    (rounds : List Round) → All IsShort rounds → redial rounds ≡ doubling 0 (length rounds)
unfolding redial
redial-doubling rounds a = redial_from-doubling rounds 0 a
