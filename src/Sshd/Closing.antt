-- ===== src/Sshd/Closing.antt =====
-- internal/sshd/sshd.go, handleDirectStreamLocal: the channel and the socket are closed once each.
use linkspan.Base.{
  ℕ, suc, String, ◌+◌, ◌≤◌, ◌≡◌, refl, subst, inl, inr, ◌⊎◌, Bool, true, false, not, ◌&&◌, ◌||◌,
  Option, none, some, arith, Option-cases, if◌then◌else◌, Result, ok, err,
}
use linkspan.Sshd.{
  Copying, copying, deferred, closing, over, Once, fresh, half, fired, Side, inward, outward,
  Stream, at, call_once, advance_from, advance, joined_stream, Steps, begun, stepped, Answered,
  Handled, handle_stream,
}

-- How far a goroutine is from its end.
abbrev pub left_of : Copying → ℕ
left_of copying = 3
left_of deferred = 2
left_of closing = 1
left_of over = 0

abbrev pub is_early : Copying → Bool
is_early copying = true
is_early deferred = true
is_early _ = false

abbrev pub is_closing : Copying → Bool
is_closing closing = true
is_closing _ = false

abbrev pub is_over : Copying → Bool
is_over over = true
is_over _ = false

-- Where the goroutines are, by the state of the once function.
abbrev pub fits : Once → Copying → Copying → Bool
fits fresh a b = is_early a && is_early b
fits half a b = is_closing a && is_early b || is_early a && is_closing b
fits fired a b = not (is_closing a) && not (is_closing b) && (is_over a || is_over b)

abbrev pub channel_count : Once → ℕ
channel_count fresh = 0
channel_count _ = 1

abbrev pub socket_count : Once → ℕ
socket_count fired = 1
socket_count _ = 0

pub record IsSound (s : Stream) : Type 0 where
  pub placed : fits s.once s.inbound s.outbound ≡ true
  pub channel : s.channel_closes ≡ channel_count s.once
  pub socket : s.socket_closes ≡ socket_count s.once

abbrev left : Stream → ℕ
left s = left_of s.inbound + left_of s.outbound

-- A step keeps that, and comes nearer to the end.
abbrev IsKept : Stream → Option Stream → Type 0
IsKept s none = Unit
IsKept s (some t) = IsSound t × (suc (left t) ≤ left s)

module _ (c d : ℕ) where
  abbrev stream_at : Copying → Copying → Once → Stream
  stream_at a b k = record {
    inbound = a;
    outbound = b;
    once = k;
    channel_closes = c;
    socket_closes = d;
  }

  IsKept-at :
      (side : Side) (a b : Copying) (k : Once)
      → IsSound (stream_at a b k)
      → IsKept (stream_at a b k) (advance side (stream_at a b k))
  unfolding advance_from call_once
  IsKept-at inward a b k h = ground (arith, h.placed, h.channel, h.socket)
  IsKept-at outward a b k h = ground (arith, h.placed, h.channel, h.socket)

advance-IsKept : (side : Side) (s : Stream) → IsSound s → IsKept s (advance side s)
advance-IsKept side s h =
    IsKept-at s.channel_closes s.socket_closes side s.inbound s.outbound s.once h

Steps-IsSound : {n : ℕ} {s : Stream} → Steps n s → IsSound s × (n + left s ≤ 6)
Steps-IsSound begun = (record { placed = refl; channel = refl; socket = refl }, omega arith)
Steps-IsSound (stepped n s t side steps e) =
    let (h, b) = Steps-IsSound steps in
    let (k, c) = subst (IsKept s) e (advance-IsKept side s h) in (k, omega (arith, b, c))

-- The closes of a stream: each at most once, the socket behind the channel, none while both sides copy,
-- and both as soon as one goroutine has ended.
pub record AreClosed (s : Stream) : Type 0 where
  pub channel : s.channel_closes ≤ 1
  pub socket : s.socket_closes ≤ s.channel_closes
  pub copying : s.inbound ≡ copying → s.outbound ≡ copying → s.channel_closes ≡ 0
  pub ended : (side : Side) → at side s ≡ over → (s.channel_closes ≡ 1) × (s.socket_closes ≡ 1)

over-closed :
    (side : Side) (s : Stream)
    → IsSound s
    → at side s ≡ over
    → (s.channel_closes ≡ 1) × (s.socket_closes ≡ 1)
over-closed inward s h x = ground (arith, h.placed, h.channel, h.socket, x)
over-closed outward s h x = ground (arith, h.placed, h.channel, h.socket, x)

-- After any steps of the two goroutines, whichever way the copies end: the channel and the socket are
-- each closed at most once, the channel first; neither while both copy; and both are closed once
-- as soon as one goroutine has ended.
pub Steps-AreClosed : (n : ℕ) (s : Stream) → Steps n s → AreClosed s
Steps-AreClosed n s steps =
    let (h, b) = Steps-IsSound steps in
    record {
      channel = ground (arith, h.channel);
      socket = ground (arith, h.channel, h.socket);
      copying = λ x y. ground (arith, h.placed, h.channel, x, y);
      ended = λ side x. over-closed side s h x;
    }

-- Both goroutines have ended, and both ends are closed once.
pub record IsOver (s : Stream) : Type 0 where
  pub inbound : s.inbound ≡ over
  pub outbound : s.outbound ≡ over
  pub channel : s.channel_closes ≡ 1
  pub socket : s.socket_closes ≡ 1

blocked-IsOver :
    (s : Stream) → IsSound s → advance inward s ≡ none → advance outward s ≡ none → IsOver s
unfolding advance_from call_once
blocked-IsOver s h i o = record {
  inbound = ground (arith, h.placed, i, o);
  outbound = ground (arith, h.placed, i, o);
  channel = ground (arith, h.placed, h.channel, i, o);
  socket = ground (arith, h.placed, h.socket, i, o);
}

-- The two goroutines take six steps at most, and until both have ended, with the channel and the
-- socket closed, one of them can take a step: closeBoth never leaves them waiting for each other.
pub Steps-IsOver :
    (n : ℕ) (s : Stream)
    → Steps n s
    → (n ≤ 6) × (IsOver s ⊎ ((side : Side) × (t : Stream) × (advance side s ≡ some t)))
Steps-IsOver n s steps =
    let (h, b) = Steps-IsSound steps in
    (
      omega (arith, b),
      elim (Option-cases (advance inward s)) [
        | inr (t, e) ↦ inr (inward, t, e)
        | inl i ↦ elim (Option-cases (advance outward s)) [
          | inr (t, e) ↦ inr (outward, t, e)
          | inl o ↦ inl (blocked-IsOver s h i o)
        ]
      ],
    )

-- The two copies with the socket open, or no copy and as many sockets closed as opened.
abbrev pub LeavesNone : Handled → Type 0
LeavesNone h =
    ((h.copies ≡ some joined_stream) × (h.socket_closes ≡ 0))
    ⊎ ((h.copies ≡ none) × (h.socket_closes ≡ (if h.dialled then 1 else 0)))

answer-LeavesNone :
    (payload : Result String) (dial_error : Option String) (is_accepted : Bool)
    → LeavesNone
        (handle_stream
          (record { payload = payload; dial_error = dial_error; is_accepted = is_accepted })).1
unfolding handle_stream
answer-LeavesNone (err e) dial_error is_accepted = inr (refl, refl)
answer-LeavesNone (ok path) (some e) is_accepted = inr (refl, refl)
answer-LeavesNone (ok path) none true = inl (refl, refl)
answer-LeavesNone (ok path) none false = inr (refl, refl)

-- The handler of a stream leaves the two copies with the socket open, or it leaves no copy and the
-- socket closed if it opened one: behind an invalid payload, a socket that refuses, and a channel
-- that is not accepted.
pub handle_stream-LeavesNone : (a : Answered) → LeavesNone (handle_stream a).1
handle_stream-LeavesNone a = answer-LeavesNone a.payload a.dial_error a.is_accepted
