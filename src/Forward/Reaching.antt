-- ===== src/Forward/Reaching.antt =====
-- A stream reaches running tasks of Linkspan, and nothing else on the node.
use linkspan.Base.{
  false, refl, ◌∙◌, ◌⊎◌, ℕ, String, ◌≡◌, sym, subst, inl, inr, Bool, true, some, arith, Bool-cases,
}
use linkspan.Base.Int.{ℤ, pos}
use linkspan.Go.Strconv.{atoi}
use linkspan.Tasks.{World, registered, is_serving}
use linkspan.Tasks.Selecting.{Serves, is_serving_iff}
use linkspan.Tunnel.{stream_port}
use linkspan.Forward.Defs.{Streamed, unreachable, not_upgraded, dial, piped, stream, joined, carry}

dial-Serves :
    (p : ℤ) (connects : Bool) (w : World) → dial p connects w ≡ true → Serves p (registered w)
unfolding dial
dial-Serves p connects w e = (is_serving_iff p w).0 (ground (arith, e))

-- What Stream does at its Dial, by the tasks of that moment.
abbrev pub StreamsAs : ℤ → Bool → Bool → World → Streamed → Type 0
StreamsAs p connects upgrades w (piped q) =
    (q ≡ p) × Serves p (registered w) × (connects ≡ true) × (upgrades ≡ true)
StreamsAs p connects upgrades w not_upgraded =
    Serves p (registered w) × (connects ≡ true) × (upgrades ≡ false)
StreamsAs p connects upgrades w (unreachable r) =
    (r.status ≡ 404)
    × (r.message ≡ "no running server on that port")
    × ((¬ Serves p (registered w)) ⊎ (connects ≡ false))

-- Stream on each branch. At its Dial it carries bytes to the port of the path, or its upgrade fails, only
-- where some task of the registry is running and bound to that port and the connection is made; it
-- answers 404 only where no such task is there or the connection is refused.
pub stream-Serves :
    (path_port : String) (connects upgrades : Bool) (w : World)
    → StreamsAs (atoi path_port) connects upgrades w (stream path_port connects upgrades w)
unfolding stream dial
stream-Serves path_port connects upgrades w =
    let served = is_serving_iff (atoi path_port) w in
    elim (Bool-cases (is_serving (atoi path_port) w)) [
      | inr absent ↦ rw absent (refl, refl, inl (λ s. absurd (cc (sym absent ∙ served.1 s))))
      | inl there ↦ elim (Bool-cases connects) [
        | inr down ↦ rw (there, down) (refl, refl, inr refl)
        | inl up ↦ elim (Bool-cases upgrades) [
          | inl u ↦ rw (there, up, u) (refl, served.0 there, refl, refl)
          | inr u ↦ rw (there, up, u) (served.0 there, refl, refl)
        ]
      ]
    ]

-- A link stream is joined only to the port of its two bytes, high byte first, and only while some task of
-- the registry is running and bound to that port.
pub carry-Serves :
    (high low : ℕ) (connects : Bool) (w : World) (p : ℕ)
    → carry (some (high, low)) connects w ≡ joined p
    → (p ≡ stream_port high low) × Serves (pos p) (registered w)
unfolding carry
carry-Serves high low connects w p e =
    elim (Bool-cases (dial (pos (stream_port high low)) connects w)) [
      | inl there ↦
          let same : p ≡ stream_port high low = ground (arith, rw there at e) in
          (
            same,
            subst (λ q. Serves (pos q) (registered w)) (sym same)
                (dial-Serves (pos (stream_port high low)) connects w there),
          )
      | inr absent ↦ cc (rw absent at e)
    ]
