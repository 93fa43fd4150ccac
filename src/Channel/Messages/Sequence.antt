-- ===== src/Channel/Messages/Sequence.antt =====
-- Sequences of messages and of acknowledgements, for `spice_channel_recv_msg` of src/spice-channel.c.
use native.Mathlib.Nat.{suc-mul, zero-mul}
use spice_gtk.Base.{
  ℕ, zero, suc, ◌+◌, ◌*◌, ◌%◌, ◌^◌, ◌≤◌, ◌<◌, ◌≡◌, ◌≢◌, ◌⊎◌, refl, Bool, false, List, [], ◌∷◌, ◌++◌,
  arith, length, inl, inr, if◌then◌else◌,
}
use spice_gtk.Channel.{Bytes, limit, get_header_size}
use spice_gtk.Channel.Wire.{Arrival, Room}
use spice_gtk.Channel.Wire.Reads.{Brings}
use spice_gtk.Channel.Wire.Filling.{bytes_of}
use spice_gtk.Channel.Wire.Writes.{Open}
use spice_gtk.Channel.Messages.{Protocol, Channel}
use spice_gtk.Channel.Messages.Acks.{encoded}

-- A message as its sender has it.
pub record Message : Type 0 where
  pub type : ℕ
  pub serial : ℕ
  pub body : Bytes

-- One that has a header, and is not a list.
pub record Fits (pr : Protocol) (m : Message) : Type 0 where
  pub type_fits : m.type < limit 2
  pub serial_fits : m.serial < limit 8
  pub body_fits : length m.body < 2 ^ 31
  pub plain : m.type ≢ pr.msg_list

abbrev pub AllFit : Protocol → List Message → Type 0
AllFit pr [] = Unit {0}
AllFit pr (m ∷ ms) = Fits pr m × AllFit pr ms

-- The bytes of messages one after the other, and how many they are.
abbrev pub stream_of : Protocol → (mini : Bool) → List Message → Bytes
stream_of pr mini [] = []
stream_of pr mini (m ∷ ms) = encoded pr mini m.type m.serial m.body ++ stream_of pr mini ms

abbrev pub stream_size : Protocol → (mini : Bool) → List Message → ℕ
stream_size pr mini [] = 0
stream_size pr mini (m ∷ ms) =
    get_header_size pr.layout mini + length m.body + stream_size pr mini ms

abbrev pub next_serial : ℕ → ℕ
next_serial n = (n + 1) % 2 ^ 64

-- Serials after `n` more messages.
abbrev pub serial_after : (n start : ℕ) → ℕ
serial_after zero start = start
serial_after (suc n) start = serial_after n (next_serial start)

-- `n` acknowledgements, from a serial on.
abbrev pub acks_from : Protocol → (mini : Bool) → (n start : ℕ) → Bytes
acks_from pr mini zero start = []
acks_from pr mini (suc n) start =
    encoded pr mini pr.msgc_ack start [] ++ acks_from pr mini n (next_serial start)

-- The last message's serial: its own, or with mini headers the number of it.
abbrev pub last_serial : (mini : Bool) → List Message → (in_serial last : ℕ) → ℕ
last_serial mini [] in_serial last = last
last_serial mini (m ∷ ms) in_serial last =
    last_serial mini ms (next_serial in_serial) (if mini then in_serial else m.serial)

-- From a count of `count` down, `k` messages give `n` acknowledgements and leave the count at
-- `count'`, one for each `window` messages; where the count is 0 there are none.
abbrev pub Acknowledged : (window count k n count' : ℕ) → Type 0
Acknowledged window count k n count' =
    ((count ≡ 0) × (n ≡ 0) × (count' ≡ 0))
    ⊎ ((0 < count) × (0 < count') × (count' ≤ window) × (count' + k ≡ count + n * window))

-- The channel when messages have come and acknowledgements have gone.
abbrev pub received :
    (k : ℕ) (last count serial : ℕ) (wire : Bytes) → List Arrival → List Room → Channel → Channel
received k last count serial wire rest rooms c = record c {
  in_serial = serial_after k c.in_serial;
  last_message_serial = last;
  message_ack_count = count;
  out_serial = serial;
  wire = wire;
  arrivals = rest;
  rooms = rooms;
}

-- A channel without an error, whose socket brings these messages, then `more`, with `n` bytes of it
-- without a failure, and takes an acknowledgement for each message.
pub record Ready (pr : Protocol) (c : Channel) (ms : List Message) (n : ℕ) (more : Bytes)
    : Type 0 where
  pub no_error : c.error ≡ false
  pub within_window : c.message_ack_count ≤ c.message_ack_window
  pub arriving : bytes_of c.arrivals ≡ stream_of pr c.use_mini_header ms ++ more
  pub brings : Brings c.tls (stream_size pr c.use_mini_header ms + n) c.arrivals
  pub takes_acks : Open c.tls (length ms * get_header_size pr.layout c.use_mini_header) c.rooms

pub Acknowledged-later :
    (window count k n count' : ℕ)
    → Acknowledged window (suc count) k n count'
    → Acknowledged window (suc (suc count)) (suc k) n count'
Acknowledged-later window count k n count' (inl (z, q, r)) = absurd (omega arith)
Acknowledged-later window count k n count' (inr (p, q, r, e)) =
    let x = n * window in inr (omega arith, q, r, omega arith)

pub Acknowledged-now :
    (window k n count' : ℕ)
    → 0 < window
    → Acknowledged window window k n count'
    → Acknowledged window 1 (suc k) (suc n) count'
Acknowledged-now window k n count' pos (inl (z, q, r)) = absurd (omega arith)
Acknowledged-now window k n count' pos (inr (p, q, r, e)) =
    let d = suc-mul n window in inr (omega arith, q, r, omega (arith, d, e))

pub Acknowledged-none :
    (window count k n count' : ℕ)
    → count ≡ 0
    → Acknowledged window count k n count'
    → Acknowledged window count (suc k) n count'
Acknowledged-none window count k n count' z (inl h) = inl h
Acknowledged-none window count k n count' z (inr (p, q, r, e)) = absurd (omega arith)

pub Acknowledged-nil : (window count : ℕ) → count ≤ window → Acknowledged window count 0 0 count
Acknowledged-nil window zero h = inl (refl, refl, refl)
Acknowledged-nil window (suc count) h =
    let z = zero-mul window in inr (omega arith, omega arith, h, omega (arith, z))

-- How `ack_message` decides.
pub count-cases : (n : ℕ) → (n ≡ 0) ⊎ ((n ≡ 1) ⊎ ((k : ℕ) × (n ≡ suc (suc k))))
count-cases zero = inl refl
count-cases (suc zero) = inr (inl refl)
count-cases (suc (suc k)) = inr (inr (k, refl))
