-- ===== src/Channel/Wire/Filling.antt =====
-- What `spice_channel_read` of src/spice-channel.c has in its buffer.
use spice_gtk.Base.{
  ℕ, zero, suc, ◌+◌, ◌-◌, ◌≤◌, ◌<◌, ◌≡◌, refl, ap, sym, ◌∙◌, subst, Bool, true, false, List, [],
  ◌∷◌, ◌++◌, append_assoc, arith, length, take, drop, take-append-drop, length-take, length-append,
  if◌then◌else◌,
}
use spice_gtk.Channel.{Bytes}
use spice_gtk.Channel.Wire.{
  Arrival, got, trouble, Read, filled, stopped, waiting, put_back, join, and_then, read_wire,
  read_rounds, read, read_condition, is_set,
}

-- All the bytes that arrive.
abbrev pub bytes_of : List Arrival → Bytes
bytes_of [] = []
bytes_of (got bytes ∷ arrivals) = bytes ++ bytes_of arrivals
bytes_of (trouble t disconnected ∷ arrivals) = bytes_of arrivals

-- A read that has been filled has taken the front of `all`.
abbrev pub Fills : Bytes → Read → Type 0
Fills all (filled bytes rest) = bytes ++ bytes_of rest ≡ all
Fills all (stopped part failed) = Unit {0}
Fills all waiting = Unit {0}

-- A read that goes into `len` bytes of a buffer brings one at least.
abbrev pub Within : ℕ → Read → Type 0
Within len (filled bytes rest) = (0 < length bytes) × (length bytes ≤ len)
Within len (stopped part failed) = Unit {0}
Within len waiting = Unit {0}

-- A read that has been filled has exactly `len` bytes.
abbrev pub Exact : ℕ → Read → Type 0
Exact len (filled bytes rest) = length bytes ≡ len
Exact len (stopped part failed) = Unit {0}
Exact len waiting = Unit {0}

pub bytes_of-put_back :
    (bytes : Bytes) (arrivals : List Arrival)
    → bytes_of (put_back bytes arrivals) ≡ bytes ++ bytes_of arrivals
bytes_of-put_back [] arrivals = refl
bytes_of-put_back (b ∷ bytes) arrivals = refl

Fills-if :
    (all : Bytes) (c : Bool) (x : Read) → Fills all x → Fills all (if c then x else stopped [] true)
Fills-if all true x h = h
Fills-if all false x h = tt

Within-if :
    (len : ℕ) (c : Bool) (x : Read) → Within len x → Within len (if c then x else stopped [] true)
Within-if len true x h = h
Within-if len false x h = tt

pub read_wire-Fills :
    (tls error : Bool) (len : ℕ) (arrivals : List Arrival)
    → Fills (bytes_of arrivals) (read_wire tls error (suc len) arrivals)
      × Within (suc len) (read_wire tls error (suc len) arrivals)
unfolding read_wire
read_wire-Fills tls true len arrivals = (tt, tt)
read_wire-Fills tls false len [] = (tt, tt)
read_wire-Fills tls false len (got [] ∷ arrivals) = (tt, tt)
read_wire-Fills tls false len (got (b ∷ bytes) ∷ arrivals) = (
  ap (λ t. b ∷ (take len bytes ++ t)) (bytes_of-put_back (drop len bytes) arrivals)
      ∙ ap (λ t. b ∷ t)
          (sym (append_assoc (take len bytes) (drop len bytes) (bytes_of arrivals))
            ∙ ap (λ t. t ++ bytes_of arrivals) (take-append-drop len bytes)),
  (omega arith, omega (arith, length-take len bytes)),
)
read_wire-Fills tls false len (trouble t disconnected ∷ arrivals) =
    let (f, w) = read_wire-Fills tls disconnected len arrivals in
    let c = is_set (read_condition tls t) in
    (Fills-if (bytes_of arrivals) c _ f, Within-if (suc len) c _ w)

join-Fills :
    (front all : Bytes) (n len : ℕ) (r : Read)
    → Fills all r
    → Exact n r
    → length front + n ≡ len
    → Fills (front ++ all) (join front r) × Exact len (join front r)
join-Fills front all n len (filled bytes rest) same exact e = (
  append_assoc front bytes (bytes_of rest) ∙ ap (λ t. front ++ t) same,
  omega (arith, length-append front bytes),
)
join-Fills front all n len (stopped part failed) same exact e = (tt, tt)
join-Fills front all n len waiting same exact e = (tt, tt)

and_then-Fills :
    (all : Bytes) (len : ℕ) (r : Read) (k : Bytes → List Arrival → Read)
    → Fills all r
    → Within len r
    → ((bytes : Bytes) (rest : List Arrival)
        → 0 < length bytes
        → Fills (bytes_of rest) (k bytes rest) × Exact (len - length bytes) (k bytes rest))
    → Fills all (and_then r k) × Exact len (and_then r k)
and_then-Fills all len (filled bytes rest) k same (some_read, fits) h =
    let (f, e) = h bytes rest some_read in
    let (g, exact) =
      join-Fills bytes (bytes_of rest) (len - length bytes) len (k bytes rest) f e (omega arith) in
    (subst (λ t. Fills t (join bytes (k bytes rest))) same g, exact)
and_then-Fills all len (stopped part failed) k same w h = (tt, tt)
and_then-Fills all len waiting k same w h = (tt, tt)

pub read_rounds-Fills :
    (fuel : ℕ) (tls : Bool) (len : ℕ) (arrivals : List Arrival)
    → Fills (bytes_of arrivals) (read_rounds fuel tls len arrivals)
      × Exact len (read_rounds fuel tls len arrivals)
unfolding read_rounds
read_rounds-Fills zero tls zero arrivals = (refl, refl)
read_rounds-Fills zero tls (suc len) arrivals = (tt, tt)
read_rounds-Fills (suc fuel) tls zero arrivals = (refl, refl)
read_rounds-Fills (suc fuel) tls (suc len) arrivals =
    let (f, w) = read_wire-Fills tls false len arrivals in
    and_then-Fills (bytes_of arrivals) (suc len) (read_wire tls false (suc len) arrivals) _ f w
      λ bytes rest pos. read_rounds-Fills fuel tls (suc len - length bytes) rest

-- Whatever the stream does, a read that succeeds has exactly the bytes it was asked for: the first
-- of those that arrive, and the others are still to be read.
pub read-Fills :
    (tls error : Bool) (len : ℕ) (arrivals : List Arrival)
    → Fills (bytes_of arrivals) (read tls error len arrivals)
      × Exact len (read tls error len arrivals)
unfolding read
read-Fills tls true zero arrivals = (refl, refl)
read-Fills tls true (suc len) arrivals = (tt, tt)
read-Fills tls false len arrivals = read_rounds-Fills len tls len arrivals
