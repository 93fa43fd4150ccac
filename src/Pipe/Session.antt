-- ===== src/Pipe/Session.antt =====
-- A pipe of src/giopipe.c and its callers.
use spice_gtk.Base.{
  ℕ, ◌≤◌, ◌<◌, ◌≡◌, ◌⊎◌, Bool, true, false, ◌||◌, Option, none, some, List, [], ◌∷◌, ◌++◌, length,
  take,
}
use spice_gtk.Pipe.{
  Bytes, Buffer, Pipe, make_gio_pipe, Result, transferred, would_block, critical, aborted,
  input_read, output_write,
}

-- A pipe and its callers: the buffer that the writer was told to offer again, what the reader got,
-- what the writer was told is written, and whether a precondition or an assertion failed.
pub record Session : Type 0 where
  pub pipe : Pipe
  pub offer : Option Buffer
  pub received : Bytes
  pub written : Bytes
  pub faulted : Bool

-- Closing, by whatever path, sets any of the four flags at any time.
pub data Op : Type 0 where
  write : (b : Buffer) → Op
  read : (count : ℕ) → Op
  close : (in_peer in_own out_peer out_own : Bool) → Op

abbrev pub is_fault : Result → Bool
is_fault critical = true
is_fault aborted = true
is_fault _ = false

abbrev pub offer_after : Result → Buffer → Option Buffer → Option Buffer
offer_after (transferred n) b o = none
offer_after would_block b o = some b
offer_after _ b o = o

abbrev pub acknowledged : Result → Buffer → Bytes
acknowledged (transferred n) b = take n b.bytes
acknowledged _ b = []

-- What a write returned, for its writer.
abbrev pub after_write : Buffer → Session → Pipe × Result → Session
after_write b s (p, r) = record s {
  pipe = p;
  offer = offer_after r b s.offer;
  written = s.written ++ acknowledged r b;
  faulted = s.faulted || is_fault r;
}

unfoldable pub step : Op → Session → Session
step (write b) s = after_write b s (output_write b s.pipe)
step (read count) s =
    let (p, r, got) = input_read count s.pipe in
    record s { pipe = p; received = s.received ++ got; faulted = s.faulted || is_fault r }
step (close in_peer in_own out_peer out_own) s = record s {
  pipe = record s.pipe {
    in_peer_closed = in_peer;
    in_closed = in_own;
    out_peer_closed = out_peer;
    out_closed = out_own;
  };
}

unfoldable pub run : List Op → Session → Session
unfolding step
run [] s = s
run (op ∷ ops) s = run ops (step op s)

-- GIO passes on no call for zero bytes, and a writer that was told to wait offers the same buffer again.
abbrev pub MayDo : Op → Session → Type 0
MayDo (write b) s = (0 < length b.bytes) × ((s.offer ≡ none) ⊎ (s.offer ≡ some b))
MayDo (read count) s = 0 < count
MayDo (close _ _ _ _) s = Unit {0}

abbrev pub Conforms : List Op → Session → Type 0
Conforms [] s = Unit {0}
Conforms (op ∷ ops) s = MayDo op s × Conforms ops (step op s)

-- What was read of the offer, and the writer does not know yet.
abbrev pub in_flight : Option Buffer → Option ℕ → Bytes
in_flight (some b) (some n) = take n b.bytes
in_flight _ _ = []

-- The pipe holds the buffer that is on offer, or the number of bytes that were read from it.
abbrev pub Holds : Option Buffer → Option ℕ → Option Buffer → ℕ → Type 0
Holds none none none count = Unit {0}
Holds (some b) none (some c) count = (c ≡ b) × (count ≡ length b.bytes) × (0 < length b.bytes)
Holds (some b) (some n) none count = (0 < n) × (n ≤ length b.bytes)
Holds _ _ _ count = ◌≡◌ {A = ℕ} 0 1

abbrev pub Flows : Session → Type 0
Flows s =
    Holds s.offer s.pipe.read s.pipe.buffer s.pipe.count
    × (s.received ≡ s.written ++ in_flight s.offer s.pipe.read)
    × (s.faulted ≡ false)

abbrev pub fresh : Session
fresh = record { pipe = make_gio_pipe; offer = none; received = []; written = []; faulted = false }
