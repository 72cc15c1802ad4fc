-- ===== src/Sshd/Streams.antt =====
-- internal/sshd/sshd.go, handleDirectStreamLocal: a channel that is joined to a unix socket by two copies.
use linkspan.Base.{
  ℕ, suc, ◌+◌, String, Bool, true, false, Option, none, some, List, [], ◌∷◌, concat, ◌≡◌, Result,
  ok, err,
}

-- The goroutine of one copy: before io.Copy ends, by an end of the input, an error or a panic; with its
-- deferred call of closeBoth ahead; inside closeBoth; and over.
pub data Copying : Type 0 where
  copying : Copying
  deferred : Copying
  closing : Copying
  over : Copying

-- sync.OnceFunc: not called, inside its first call behind the close of the channel, and done.
pub data Once : Type 0 where
  fresh : Once
  half : Once
  fired : Once

pub data Side : Type 0 where
  inward : Side
  outward : Side

pub record Stream : Type 0 where
  pub inbound : Copying
  pub outbound : Copying
  pub once : Once
  pub channel_closes : ℕ
  pub socket_closes : ℕ

abbrev pub at : Side → Stream → Copying
at inward s = s.inbound
at outward s = s.outbound

abbrev pub move : Side → Copying → Stream → Stream
move inward c s = record s { inbound = c }
move outward c s = record s { outbound = c }

-- A call of closeBoth: the first closes the channel; any other waits until the first is done.
unfoldable pub call_once : Side → Once → Stream → Option Stream
call_once side fresh s =
    some (move side closing (record s { once = half; channel_closes = s.channel_closes + 1 }))
call_once side half s = none
call_once side fired s = some (move side over s)

-- The next step of a goroutine: `none` where it waits, or has ended.
unfoldable pub advance_from : Copying → Side → Stream → Option Stream
unfolding call_once
advance_from copying side s = some (move side deferred s)
advance_from deferred side s = call_once side s.once s
advance_from closing side s =
    some (move side over (record s { once = fired; socket_closes = s.socket_closes + 1 }))
advance_from over side s = none

abbrev pub advance : Side → Stream → Option Stream
unfolding advance_from
advance side s = advance_from (at side s) side s

abbrev pub joined_stream : Stream
joined_stream = record {
  inbound = copying;
  outbound = copying;
  once = fresh;
  channel_closes = 0;
  socket_closes = 0;
}

-- The states after some steps of the two goroutines, in any order.
pub data Steps : ℕ → Stream → Type 0 where
  begun : Steps 0 joined_stream
  stepped :
      (n : ℕ) (s t : Stream) (side : Side) → Steps n s → advance side s ≡ some t → Steps (suc n) t

-- What the packages answer: the path of the socket or the error of Unmarshal, the error of Dial, and
-- whether Accept succeeds.
pub record Answered : Type 0 where
  pub payload : Result String
  pub dial_error : Option String
  pub is_accepted : Bool

-- What is left behind the handler: whether the socket was opened and how often it was closed, the text of
-- a rejection, and the two copies.
pub record Handled : Type 0 where
  pub dialled : Bool
  pub socket_closes : ℕ
  pub rejected : Option String
  pub copies : Option Stream

abbrev pub refusal : String → Handled
refusal e = record { dialled = false; socket_closes = 0; rejected = some e; copies = none }

abbrev pub accepted : Bool → Handled
accepted true = record {
  dialled = true;
  socket_closes = 0;
  rejected = none;
  copies = some joined_stream;
}
accepted false = record { dialled = true; socket_closes = 1; rejected = none; copies = none }

abbrev pub dialled_to : Option String → Bool → Handled
dialled_to (some e) is_accepted = refusal e
dialled_to none is_accepted = accepted is_accepted

abbrev pub line_of : String → String
unfolding concat
line_of path = concat ("sshd: streamlocal forward to " ∷ path ∷ [])

-- handleDirectStreamLocal: the lines logged, and what is left.
unfoldable pub handle_stream : Answered → List String × Handled
unfolding line_of
handle_stream a = elim a.payload [
  | err e ↦ ([], refusal e)
  | ok path ↦ (line_of path ∷ [], dialled_to a.dial_error a.is_accepted)
]
