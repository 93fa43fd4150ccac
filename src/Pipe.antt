-- ===== src/Pipe.antt =====
-- src/giopipe.c: a pipe of an input and an output stream without a buffer of its own. A write lends
-- its buffer until a read has taken from it, and is then made again to be told how much. The pipe
-- is modelled between its creation and the disposal of either stream; the calls of GIO that close
-- the peer are parameters.
pub mod Delivery
pub mod Progress
pub mod Session
pub mod Wakeups
use spice_gtk.Base.{
  ℕ, zero, suc, ◌<◌, ◌≡◌, min, Bool, true, false, not, ◌&&◌, ◌||◌, Option, none, some, List, [],
  ◌∷◌, leb, ◌==◌, if◌then◌else◌, length, take,
}

abbrev pub Bytes : Type 0
Bytes = List ℕ

-- A buffer of the caller: where it is and what is in it.
pub record Buffer : Type 0 where
  pub address : ℕ
  pub bytes : Bytes

-- A source that waits for a stream.
pub record Source : Type 0 where
  pub destroyed : Bool
  pub ready : Bool

-- Both streams; `read` is `none` for the -1 of the source. `in_closed` and `out_closed` are GIO's
-- flags of the streams.
pub record Pipe : Type 0 where
  pub read : Option ℕ
  pub in_peer_closed : Bool
  pub in_closed : Bool
  pub in_sources : List Source
  pub buffer : Option Buffer
  pub count : ℕ
  pub out_peer_closed : Bool
  pub out_closed : Bool
  pub out_sources : List Source

abbrev pub make_gio_pipe : Pipe
make_gio_pipe = record {
  read = none;
  in_peer_closed = false;
  in_closed = false;
  in_sources = [];
  buffer = none;
  count = 0;
  out_peer_closed = false;
  out_closed = false;
  out_sources = [];
}

abbrev pub is_some {ℓ} : {A : Type ℓ} → Option A → Bool
is_some none = false
is_some (some a) = true

unfoldable pub is_readable : Pipe → Bool
is_readable p = (is_some p.buffer && not (is_some p.read)) || p.in_peer_closed

unfoldable pub is_writable : Pipe → Bool
is_writable p = not (is_some p.buffer) || is_some p.read || p.out_peer_closed

-- Destroyed sources leave the list, the others are dispatched at once.
unfoldable pub set_all_sources_ready : List Source → List Source
set_all_sources_ready [] = []
set_all_sources_ready (s ∷ sources) =
    let rest = set_all_sources_ready sources in
    if s.destroyed then rest else record s { ready = true } ∷ rest

unfoldable pub input_check_source : Pipe → Pipe
unfolding is_readable set_all_sources_ready
input_check_source p = record p {
  in_sources = if is_readable p then set_all_sources_ready p.in_sources else p.in_sources;
}

unfoldable pub output_check_source : Pipe → Pipe
unfolding is_writable set_all_sources_ready
output_check_source p = record p {
  out_sources = if is_writable p then set_all_sources_ready p.out_sources else p.out_sources;
}

unfoldable pub input_create_source : Source → Pipe → Pipe
input_create_source s p = record p { in_sources = s ∷ p.in_sources }

unfoldable pub output_create_source : Source → Pipe → Pipe
output_create_source s p = record p { out_sources = s ∷ p.out_sources }

-- What a call returns: a number of bytes, one of the two errors, or a violated precondition
-- (`critical`) or assertion (`aborted`).
pub data Result : Type 0 where
  transferred : (n : ℕ) → Result
  would_block : Result
  is_closed : Result
  critical : Result
  aborted : Result

-- A read takes from the buffer of the peer, if there is one, and wakes its writers. The third part
-- is what the caller's buffer gets.
unfoldable pub take_from : Option Buffer → ℕ → Pipe → Pipe × Result × Bytes
unfolding output_check_source
take_from none count p = (p, would_block, [])
take_from (some b) count p =
    let n = min p.count count in
    (output_check_source (record p { read = some n; buffer = none }), transferred n, take n b.bytes)

unfoldable pub input_read : ℕ → Pipe → Pipe × Result × Bytes
unfolding take_from
input_read count p =
    if count == 0
    then (p, critical, [])
    else (if p.in_peer_closed
        then (p, transferred 0, [])
        else (if p.in_closed then (p, is_closed, []) else take_from p.buffer count p))

-- `self->buffer == buffer || self->buffer == NULL`
abbrev pub may_offer : Buffer → Option Buffer → Bool
may_offer b none = true
may_offer b (some c) = c.address == b.address

-- What the writer is told, by the `read` of the peer.
abbrev pub answer : Option ℕ → Buffer → Pipe → Pipe × Result
answer none b q = (q, would_block)
answer (some n) b q =
    if leb n (length b.bytes)
    then (record q { buffer = none; count = 0; read = none }, transferred n)
    else (q, aborted)

unfoldable pub output_write : Buffer → Pipe → Pipe × Result
unfolding input_check_source
output_write b p =
    if p.out_closed || p.out_peer_closed
    then (p, is_closed)
    else (if may_offer b p.buffer
        then answer p.read b
            (input_check_source (record p { buffer = some b; count = length b.bytes }))
        else (p, critical))

-- `close_peer` is GIO's close of the other stream.
unfoldable pub input_close : (Pipe → Pipe) → Pipe → Pipe
unfolding output_check_source
input_close close_peer p = output_check_source (close_peer (record p { out_peer_closed = true }))

unfoldable pub output_close : (Pipe → Pipe) → Pipe → Pipe
unfolding input_check_source
output_close close_peer p = input_check_source (close_peer (record p { in_peer_closed = true }))
