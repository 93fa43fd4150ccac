-- ===== src/Channel/Wire/Writes.antt =====
-- What `spice_channel_flush_wire` of src/spice-channel.c puts on the wire.
use spice_gtk.Base.{
  ℕ, zero, suc, ◌+◌, ◌-◌, ◌≤◌, ◌≡◌, ◌≢◌, refl, ap, sym, ◌∙◌, subst, Bool, true, false, List, [],
  ◌∷◌, ◌++◌, append_assoc, arith, length, take, drop, take-append-drop, length-drop, if◌then◌else◌,
}
use spice_gtk.Channel.{Bytes}
use spice_gtk.Channel.Wire.{
  Room, takes, trouble, Flush, flushed, has_error, suspended, flush_wire, after, flush_condition,
  is_set, Flushed,
}

-- Whether all the data went out, for a flush that ended so.
abbrev pub Whole : Flush → Bytes → Type 0
Whole flushed left = left ≡ []
Whole has_error left = left ≢ []
Whole suspended left = left ≢ []

-- What went out, and what did not, make up the data.
abbrev pub Splits : Bytes → Flushed → Type 0
Splits data' (bytes, end, rooms) = (left : Bytes) × (bytes ++ left ≡ data') × Whole end left

Splits-after :
    (front data' : Bytes) (f : Flushed) → Splits data' f → Splits (front ++ data') (after front f)
Splits-after front data' (bytes, end, rooms) (left, same, whole) =
    (left, append_assoc front bytes left ∙ ap (λ t. front ++ t) same, whole)

Splits-if :
    (data' : Bytes) (c : Bool) (x y : Flushed)
    → Splits data' x
    → Splits data' y
    → Splits data' (if c then x else y)
Splits-if data' true x y p q = p
Splits-if data' false x y p q = q

-- Whatever the stream does, and whether or not the channel is disconnected while it waits, what went
-- out is the front of the data, in order and without a gap; it is all of it exactly where
-- the flush ended without an error and is not suspended.
pub flush_wire-Splits :
    (tls error : Bool) (data' : Bytes) (rooms : List Room)
    → Splits data' (flush_wire tls error data' rooms)
unfolding flush_wire
flush_wire-Splits tls error [] rooms = ([], refl, refl)
flush_wire-Splits tls true (b ∷ data') rooms = (b ∷ data', refl, cc)
flush_wire-Splits tls false (b ∷ data') [] = (b ∷ data', refl, cc)
flush_wire-Splits tls false (b ∷ data') (takes zero ∷ rooms) = (b ∷ data', refl, cc)
flush_wire-Splits tls false (b ∷ data') (takes (suc room) ∷ rooms) =
    let rest =
      Splits-after (b ∷ take room data') (drop room data')
        (flush_wire tls false (drop room data') rooms)
        (flush_wire-Splits tls false (drop room data') rooms) in
    subst (λ d. Splits d (flush_wire tls false (b ∷ data') (takes (suc room) ∷ rooms)))
      (ap (λ d. b ∷ d) (take-append-drop room data')) rest
flush_wire-Splits tls false (b ∷ data') (trouble t disconnected ∷ rooms) =
    Splits-if (b ∷ data') (is_set (flush_condition tls t)) _ ([], has_error, rooms)
      (flush_wire-Splits tls disconnected (b ∷ data') rooms) (b ∷ data', refl, cc)

-- A stream that takes something whenever it is asked, or makes the flush wait and is not then
-- disconnected, for `n` bytes at least.
abbrev pub Takes : Bool → ℕ → List Room → Type 0
Takes tls zero rooms = Unit {0}
Takes tls (suc n) [] = ⊥
Takes tls (suc n) (takes zero ∷ rooms) = ⊥
Takes tls (suc n) (takes (suc room) ∷ rooms) = Takes tls (n - room) rooms
Takes tls (suc n) (trouble t disconnected ∷ rooms) =
    (is_set (flush_condition tls t) ≡ true) × (disconnected ≡ false) × Takes tls (suc n) rooms

-- A stream that goes on taking bytes, in portions of any size and with any waits between them, gets
-- all the data, and the flush ends without an error.
pub flush_wire-Takes :
    (tls : Bool) (data' : Bytes) (rooms : List Room)
    → Takes tls (length data') rooms
    → let f = flush_wire tls false data' rooms in (f.0 ≡ data') × (f.1 ≡ flushed)
unfolding flush_wire
flush_wire-Takes tls [] rooms h = (refl, refl)
flush_wire-Takes tls (b ∷ data') [] h = absurd h
flush_wire-Takes tls (b ∷ data') (takes zero ∷ rooms) h = absurd h
flush_wire-Takes tls (b ∷ data') (takes (suc room) ∷ rooms) h =
    let (same, end) =
      flush_wire-Takes tls (drop room data') rooms
        (subst (λ n. Takes tls n rooms) (sym (length-drop room data')) h) in
    (ap (λ d. b ∷ (take room data' ++ d)) same ∙ ap (λ d. b ∷ d) (take-append-drop room data'), end)
flush_wire-Takes tls (b ∷ data') (trouble t disconnected ∷ rooms) (set, connected, h) =
    let go = flush_wire-Takes tls (b ∷ data') rooms h in rw set (rw connected go)

-- A stream that takes something `n` times, however little.
abbrev pub Open : Bool → ℕ → List Room → Type 0
Open tls zero rooms = Unit {0}
Open tls (suc n) [] = ⊥
Open tls (suc n) (takes zero ∷ rooms) = ⊥
Open tls (suc n) (takes (suc room) ∷ rooms) = Open tls n rooms
Open tls (suc n) (trouble t disconnected ∷ rooms) =
    (is_set (flush_condition tls t) ≡ true) × (disconnected ≡ false) × Open tls (suc n) rooms

pub Open-le :
    (tls : Bool) (m n : ℕ) (rooms : List Room) → m ≤ n → Open tls n rooms → Open tls m rooms
Open-le tls zero n rooms h o = tt
Open-le tls (suc m) zero rooms h o = absurd (omega arith)
Open-le tls (suc m) (suc n) [] h o = absurd o
Open-le tls (suc m) (suc n) (takes zero ∷ rooms) h o = absurd o
Open-le tls (suc m) (suc n) (takes (suc room) ∷ rooms) h o = Open-le tls m n rooms (omega arith) o
Open-le tls (suc m) (suc n) (trouble t disconnected ∷ rooms) h (set, connected, o) =
    (set, connected, Open-le tls (suc m) (suc n) rooms h o)

-- A flush needs no more of such a stream than a time for each byte.
pub flush_wire-Open :
    (tls : Bool) (data' : Bytes) (n m : ℕ) (rooms : List Room)
    → length data' + n ≤ m
    → Open tls m rooms
    → let f = flush_wire tls false data' rooms in (f.0 ≡ data') × (f.1 ≡ flushed) × Open tls n f.2
unfolding flush_wire
flush_wire-Open tls [] n m rooms h o = (refl, refl, Open-le tls n m rooms (omega arith) o)
flush_wire-Open tls (b ∷ data') n zero rooms h o = absurd (omega arith)
flush_wire-Open tls (b ∷ data') n (suc m) [] h o = absurd o
flush_wire-Open tls (b ∷ data') n (suc m) (takes zero ∷ rooms) h o = absurd o
flush_wire-Open tls (b ∷ data') n (suc m) (takes (suc room) ∷ rooms) h o =
    let (same, end, left) =
      flush_wire-Open tls (drop room data') n m rooms (omega (arith, length-drop room data')) o in
    (
      ap (λ d. b ∷ (take room data' ++ d)) same ∙ ap (λ d. b ∷ d) (take-append-drop room data'),
      end,
      left,
    )
flush_wire-Open tls (b ∷ data') n (suc m) (trouble t disconnected ∷ rooms) h (set, connected, o) =
    let go = flush_wire-Open tls (b ∷ data') n (suc m) rooms h o in rw set (rw connected go)
