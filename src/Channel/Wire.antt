-- ===== src/Channel/Wire.antt =====
-- src/spice-channel.c: the loops over the socket, without SASL. What a call on the stream gives is
-- the environment's: a list of outcomes, one for each call; where the list ends, the coroutine
-- waits.
pub mod Filling
pub mod Reads
pub mod Writes
use spice_gtk.Base.{
  ℕ, zero, suc, ◌+◌, ◌-◌, ◌<◌, min, Bool, true, false, not, ◌||◌, List, [], ◌∷◌, ◌++◌, length, take,
  drop, ◌==◌, leb, if◌then◌else◌,
}
use spice_gtk.Channel.{Bytes}

-- Why a nonblocking call of SSL or of GIO gives -1.
pub data Trouble : Type 0 where
  want_read want_write would_block not_connected other : Trouble

-- `GIOCondition`
pub record Condition : Type 0 where
  pub in_ready : Bool
  pub out_ready : Bool

abbrev pub no_condition : Condition
no_condition = record { in_ready = false; out_ready = false }

abbrev pub ssl_condition : Trouble → Condition
ssl_condition want_read = record no_condition { in_ready = true }
ssl_condition want_write = record no_condition { out_ready = true }
ssl_condition t = no_condition

abbrev pub blocks : Trouble → Bool
blocks would_block = true
blocks not_connected = true
blocks t = false

-- The condition that `spice_channel_read_wire_nonblocking` sets.
abbrev pub read_condition : (tls : Bool) → Trouble → Condition
read_condition true t = ssl_condition t
read_condition false t = if blocks t then record no_condition { in_ready = true } else no_condition

-- The condition that `spice_channel_flush_wire_nonblocking` sets.
abbrev pub flush_condition : (tls : Bool) → Trouble → Condition
flush_condition true t = ssl_condition t
flush_condition false t =
    if blocks t then record no_condition { out_ready = true } else no_condition

-- `cond != 0`
abbrev pub is_set : Condition → Bool
is_set c = c.in_ready || c.out_ready

-- What arrives for a read; `got []` is the end of the stream. With `trouble` comes whether the
-- channel has been disconnected when a wait for it is over.
pub data Arrival : Type 0 where
  got : Bytes → Arrival
  trouble : Trouble → (disconnected : Bool) → Arrival

-- What a read gives: bytes and what is still to arrive; or `has_error` is set, after a failure
-- (`failed`, a negative result) or not (0), with a part of the buffer filled; or it still waits.
pub data Read : Type 0 where
  filled : Bytes → List Arrival → Read
  stopped : (part : Bytes) → (failed : Bool) → Read
  waiting : Read

-- Bytes that did not fit into the buffer are there for the next read.
abbrev pub put_back : Bytes → List Arrival → List Arrival
put_back [] arrivals = arrivals
put_back (b ∷ bytes) arrivals = got (b ∷ bytes) ∷ arrivals

unfoldable pub read_wire : (tls has_error : Bool) → (len : ℕ) → List Arrival → Read
read_wire tls true len arrivals = stopped [] false
read_wire tls false len [] = waiting
read_wire tls false len (got [] ∷ arrivals) = stopped [] false
read_wire tls false len (got (b ∷ bytes) ∷ arrivals) =
    filled (take len (b ∷ bytes)) (put_back (drop len (b ∷ bytes)) arrivals)
read_wire tls false len (trouble t disconnected ∷ arrivals) =
    let waited = read_wire tls disconnected len arrivals in
    if is_set (read_condition tls t) then waited else stopped [] true

-- What `spice_channel_read` has in its buffer goes before what the next round brings.
abbrev pub join : Bytes → Read → Read
join front (filled bytes arrivals) = filled (front ++ bytes) arrivals
join front (stopped part failed) = stopped (front ++ part) failed
join front waiting = waiting

abbrev pub and_then : Read → (Bytes → List Arrival → Read) → Read
and_then (filled bytes rest) k = join bytes (k bytes rest)
and_then (stopped part failed) k = stopped part failed
and_then waiting k = waiting

-- `has_error` is false here: the rounds that set it do not go on. `fuel` bounds the rounds.
unfoldable pub read_rounds : (fuel : ℕ) (tls : Bool) (len : ℕ) → List Arrival → Read
unfolding read_wire
read_rounds fuel tls zero arrivals = filled [] arrivals
read_rounds zero tls (suc len) arrivals = waiting
read_rounds (suc fuel) tls (suc len) arrivals =
    and_then (read_wire tls false (suc len) arrivals)
      λ bytes rest. read_rounds fuel tls (suc len - length bytes) rest

-- Each round brings a byte, so `len` rounds are enough.
unfoldable pub read : (tls has_error : Bool) → (len : ℕ) → List Arrival → Read
unfolding read_rounds
read tls true zero arrivals = filled [] arrivals
read tls true (suc len) arrivals = stopped [] false
read tls false len arrivals = read_rounds len tls len arrivals

-- What a write meets: the stream takes at most `room` bytes (0 closes it), or not.
pub data Room : Type 0 where
  takes : (room : ℕ) → Room
  trouble : Trouble → (disconnected : Bool) → Room

-- How a flush ends: all is out, or `has_error` is set, or it still waits.
pub data Flush : Type 0 where
  flushed has_error suspended : Flush

-- What went out on the wire, how it ended, and the rooms that are left.
abbrev pub Flushed : Type 0
Flushed = Bytes × Flush × List Room

abbrev pub after : Bytes → Flushed → Flushed
after front (bytes, end, rooms) = (front ++ bytes, end, rooms)

-- `data'` is what is left behind the offset.
unfoldable pub flush_wire : (tls error : Bool) → (data' : Bytes) → List Room → Flushed
flush_wire tls error [] rooms = ([], flushed, rooms)
flush_wire tls true (b ∷ data') rooms = ([], has_error, rooms)
flush_wire tls false (b ∷ data') [] = ([], suspended, [])
flush_wire tls false (b ∷ data') (takes zero ∷ rooms) = ([], has_error, rooms)
flush_wire tls false (b ∷ data') (takes (suc room) ∷ rooms) =
    after (b ∷ take room data') (flush_wire tls false (drop room data') rooms)
flush_wire tls false (b ∷ data') (trouble t disconnected ∷ rooms) =
    let waited = flush_wire tls disconnected (b ∷ data') rooms in
    if is_set (flush_condition tls t) then waited else ([], has_error, rooms)
