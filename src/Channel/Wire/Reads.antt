-- ===== src/Channel/Wire/Reads.antt =====
-- What `spice_channel_read` of src/spice-channel.c brings where the stream goes on.
use spice_gtk.Base.{
  ℕ, zero, suc, ◌-◌, ◌≤◌, ◌<◌, ◌≡◌, ap, sym, ◌∙◌, subst, Bool, true, false, List, [], ◌∷◌, ◌++◌,
  arith, length, take, drop, length-drop, length-take, length-append,
}
use spice_gtk.Channel.{Bytes}
use spice_gtk.Channel.Header.{take-prefix, drop_front}
use spice_gtk.Channel.Wire.{
  Arrival, got, trouble, Read, filled, stopped, waiting, put_back, join, and_then, read_wire,
  read_rounds, read, read_condition, is_set,
}
use spice_gtk.Channel.Wire.Filling.{
  bytes_of, Fills, Within, Exact, read_wire-Fills, read_rounds-Fills,
}

-- A stream that brings `n` bytes, in portions of any size and with any waits between them, after
-- which the channel is not disconnected.
abbrev pub Brings : Bool → ℕ → List Arrival → Type 0
Brings tls zero arrivals = Unit {0}
Brings tls (suc n) [] = ⊥
Brings tls (suc n) (got [] ∷ arrivals) = ⊥
Brings tls (suc n) (got (b ∷ bytes) ∷ arrivals) = Brings tls (n - length bytes) arrivals
Brings tls (suc n) (trouble t disconnected ∷ arrivals) =
    (is_set (read_condition tls t) ≡ true) × (disconnected ≡ false) × Brings tls (suc n) arrivals

Brings-put_back :
    (tls : Bool) (n : ℕ) (bytes : Bytes) (arrivals : List Arrival)
    → Brings tls (n - length bytes) arrivals
    → Brings tls n (put_back bytes arrivals)
Brings-put_back tls n [] arrivals h =
    let e : n - 0 ≡ n = omega arith in subst (λ k. Brings tls k arrivals) e h
Brings-put_back tls zero (b ∷ bytes) arrivals h = tt
Brings-put_back tls (suc n) (b ∷ bytes) arrivals h =
    let e : suc n - suc (length bytes) ≡ n - length bytes = omega arith in
    subst (λ k. Brings tls k arrivals) e h

-- A read that has been filled and leaves a stream that brings what is missing of `n` bytes.
abbrev pub Feeds : Bool → ℕ → Read → Type 0
Feeds tls n (filled bytes rest) = Brings tls (n - length bytes) rest
Feeds tls n (stopped part failed) = ⊥
Feeds tls n waiting = ⊥

read_wire-Feeds :
    (tls : Bool) (len n : ℕ) (arrivals : List Arrival)
    → Brings tls (suc n) arrivals
    → Feeds tls (suc n) (read_wire tls false (suc len) arrivals)
unfolding read_wire
read_wire-Feeds tls len n [] h = absurd h
read_wire-Feeds tls len n (got [] ∷ arrivals) h = absurd h
read_wire-Feeds tls len n (got (b ∷ bytes) ∷ arrivals) h =
    let e : n - length bytes ≡ suc n - suc (length (take len bytes)) - length (drop len bytes) =
      omega (arith, length-take len bytes, length-drop len bytes) in
    Brings-put_back tls (suc n - suc (length (take len bytes))) (drop len bytes) arrivals
      (subst (λ k. Brings tls k arrivals) e h)
read_wire-Feeds tls len n (trouble t disconnected ∷ arrivals) (set, connected, h) =
    let go = read_wire-Feeds tls len n arrivals h in rw set (rw connected go)

join-Feeds :
    (tls : Bool) (n : ℕ) (front : Bytes) (r : Read)
    → Feeds tls (n - length front) r
    → Feeds tls n (join front r)
join-Feeds tls n front (filled bytes rest) h =
    let e : n - length front - length bytes ≡ n - length (front ++ bytes) =
      omega (arith, length-append front bytes) in
    subst (λ k. Brings tls k rest) e h
join-Feeds tls n front (stopped part failed) h = h
join-Feeds tls n front waiting h = h

and_then-Feeds :
    (tls : Bool) (n len : ℕ) (r : Read) (k : Bytes → List Arrival → Read)
    → Feeds tls n r
    → Within len r
    → ((bytes : Bytes) (rest : List Arrival)
        → 0 < length bytes
        → length bytes ≤ len
        → Brings tls (n - length bytes) rest
        → Feeds tls (n - length bytes) (k bytes rest))
    → Feeds tls n (and_then r k)
and_then-Feeds tls n len (filled bytes rest) k f (pos, fits) h =
    join-Feeds tls n bytes (k bytes rest) (h bytes rest pos fits f)
and_then-Feeds tls n len (stopped part failed) k f w h = f
and_then-Feeds tls n len waiting k f w h = f

read_rounds-Feeds :
    (fuel : ℕ) (tls : Bool) (len n : ℕ) (arrivals : List Arrival)
    → len ≤ fuel
    → len ≤ n
    → Brings tls n arrivals
    → Feeds tls n (read_rounds fuel tls len arrivals)
unfolding read_rounds
read_rounds-Feeds zero tls zero n arrivals h l b =
    let e : n ≡ n - 0 = omega arith in subst (λ k. Brings tls k arrivals) e b
read_rounds-Feeds zero tls (suc len) n arrivals h l b = absurd (omega arith)
read_rounds-Feeds (suc fuel) tls zero n arrivals h l b =
    let e : n ≡ n - 0 = omega arith in subst (λ k. Brings tls k arrivals) e b
read_rounds-Feeds (suc fuel) tls (suc len) zero arrivals h l b = absurd (omega arith)
read_rounds-Feeds (suc fuel) tls (suc len) (suc n) arrivals h l b =
    let (f, w) = read_wire-Fills tls false len arrivals in
    and_then-Feeds tls (suc n) (suc len) (read_wire tls false (suc len) arrivals) _
      (read_wire-Feeds tls len n arrivals b) w
      λ bytes rest pos fits brings.
        read_rounds-Feeds fuel tls (suc len - length bytes) (suc n - length bytes) rest
          (omega arith) (omega arith) brings

exactly :
    (tls : Bool) (len n : ℕ) (all : Bytes) (r : Read)
    → Fills all r
    → Exact len r
    → Feeds tls n r
    → (rest : List Arrival) × (r ≡ filled (take len all) rest)
      × (bytes_of rest ≡ drop len all)
      × Brings tls (n - len) rest
exactly tls len n all (filled bytes rest) same exact brings = (
  rest,
  ap (λ b. filled b rest) (sym (take-prefix bytes (bytes_of rest) len exact) ∙ ap (take len) same),
  sym (drop_front bytes (bytes_of rest) len exact) ∙ ap (drop len) same,
  subst (λ k. Brings tls (n - k) rest) exact brings,
)
exactly tls len n all (stopped part failed) same exact brings = absurd brings
exactly tls len n all waiting same exact brings = absurd brings

-- Where the stream brings `n` bytes, a read of at most as many ends, with the first of them, and
-- leaves the others to a stream that still brings them.
pub read-Brings :
    (tls : Bool) (len n : ℕ) (arrivals : List Arrival)
    → len ≤ n
    → Brings tls n arrivals
    → (rest : List Arrival) × (read tls false len arrivals
        ≡ filled (take len (bytes_of arrivals)) rest)
      × (bytes_of rest ≡ drop len (bytes_of arrivals))
      × Brings tls (n - len) rest
unfolding read
read-Brings tls len n arrivals h b =
    let (f, e) = read_rounds-Fills len tls len arrivals in
    exactly tls len n (bytes_of arrivals) (read_rounds len tls len arrivals) f e
      (read_rounds-Feeds len tls len n arrivals (omega arith) h b)
