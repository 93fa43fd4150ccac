-- ===== src/Channel/Caps/Sending.antt =====
-- A capability of src/spice-channel.c that is set and sent in a link message.
use spice_gtk.Base.{
  ℕ, zero, suc, ◌+◌, ◌-◌, ◌*◌, ◌/◌, ◌%◌, ◌<◌, ◌≡◌, sym, subst, ◌||◌, some, List, [], ◌∷◌, ◌++◌,
  arith, length, get_or, set, replicate, ◌==◌, leb, if_true, if_false, Bool-cases, inl, inr,
}
use spice_gtk.Channel.{Bytes, limit}
use spice_gtk.Channel.Caps.{set_bit, test_capability, set_in, set_capability, put_caps, store_caps}
use spice_gtk.Channel.Caps.Bits.{AllWords, store_caps-put_caps, test_capability-set_capability}

-- How many numbers have `n` bits.
abbrev bit_limit : ℕ → ℕ
bit_limit zero = 1
bit_limit (suc n) = 2 * bit_limit n

set_bit-lt : (n bit word : ℕ) → bit < n → word < bit_limit n → set_bit bit word < bit_limit n
set_bit-lt zero bit word h w = absurd (omega arith)
set_bit-lt (suc n) zero word h w = omega arith
set_bit-lt (suc n) (suc bit) word h w =
    let less = set_bit-lt n bit (word / 2) (omega arith) (omega arith) in omega (arith, less)

replicate-AllWords : (n : ℕ) → AllWords (replicate n 0)
unfolding replicate
replicate-AllWords zero = tt
replicate-AllWords (suc n) = (omega arith, replicate-AllWords n)

append-AllWords : (xs ys : List ℕ) → AllWords xs → AllWords ys → AllWords (xs ++ ys)
append-AllWords [] ys v w = w
append-AllWords (x ∷ xs) ys (fits, v) w = (fits, append-AllWords xs ys v w)

get_or-AllWords : (caps : List ℕ) (i : ℕ) → AllWords caps → get_or caps i 0 < limit 4
get_or-AllWords [] i v = omega arith
get_or-AllWords (word ∷ caps) zero (fits, v) = fits
get_or-AllWords (word ∷ caps) (suc i) (fits, v) = get_or-AllWords caps i v

set-AllWords :
    (caps : List ℕ) (i word : ℕ) → AllWords caps → word < limit 4 → AllWords (set caps i word)
set-AllWords [] i word v fits = tt
set-AllWords (w ∷ caps) zero word (h, v) fits = (fits, v)
set-AllWords (w ∷ caps) (suc i) word (h, v) fits = (h, set-AllWords caps i word v fits)

set_in-AllWords :
    (i bit : ℕ) (caps : List ℕ) → bit < 32 → AllWords caps → AllWords (set_in i bit caps)
set_in-AllWords i bit caps h v =
    set-AllWords caps i (set_bit bit (get_or caps i 0)) v
      (set_bit-lt 32 bit (get_or caps i 0) h (get_or-AllWords caps i v))

set_capability-AllWords :
    (cap : ℕ) (caps : List ℕ) → AllWords caps → AllWords (set_capability cap caps)
unfolding set_capability
set_capability-AllWords cap caps v =
    set_in-AllWords (cap / 32) (cap % 32) _ (omega arith)
      (elim (Bool-cases (leb (length caps) (cap / 32))) [
        | inl e ↦ subst AllWords (sym (if_true _ _ e)) (
            append-AllWords caps (replicate (cap / 32 + 1 - length caps) 0) v
              (replicate-AllWords (cap / 32 + 1 - length caps)))
        | inr e ↦ subst AllWords (sym (if_false _ _ e)) v
      ])

-- When a capability has been set in an array of 32-bit words and the array has been sent in a link
-- message, its receiver gets an array in which that capability is there and every other one is just
-- if it was there before, whatever comes behind the array in the message.
pub store_caps-set_capability :
    (cap : ℕ) (caps : List ℕ) (more : Bytes)
    → AllWords caps
    → (received : List ℕ) × (store_caps
          (length (set_capability cap caps))
          (put_caps (set_capability cap caps) ++ more)
        ≡ some received)
      × ((other : ℕ)
          → test_capability received other ≡ ((other == cap) || test_capability caps other))
store_caps-set_capability cap caps more v = (
  set_capability cap caps,
  store_caps-put_caps (set_capability cap caps) more (set_capability-AllWords cap caps v),
  test_capability-set_capability caps cap,
)
