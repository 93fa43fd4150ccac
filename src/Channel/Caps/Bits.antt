-- ===== src/Channel/Caps/Bits.antt =====
-- Setting and testing capabilities of src/spice-channel.c, and sending them.
use spice_gtk.Base.{
  ℕ, zero, suc, ◌+◌, ◌-◌, ◌*◌, ◌/◌, ◌%◌, ◌≤◌, ◌<◌, ◌≡◌, ◌≢◌, refl, ap, ap₂, sym, ◌∙◌, subst, false,
  ◌||◌, some, List, [], ◌∷◌, ◌++◌, append_assoc, arith, length, length-append, take, drop, get_or,
  set, replicate, get_or-set_self, get_or-set_ne, get_or-replicate, length-replicate, ◌==◌, ltb,
  leb, if◌then◌else◌, if_true, if_false, Bool-cases, inl, inr,
}
use spice_gtk.Channel.{Bytes, to_le, from_le, limit}
use spice_gtk.Channel.Header.{take-prefix, drop_front, length-to_le, from_le-to_le}
use spice_gtk.Channel.Caps.{
  has_bit, set_bit, test_capability, grow, set_capability, put_caps, store_caps, add_word,
}

has_bit-zero : (bit : ℕ) → has_bit bit 0 ≡ false
has_bit-zero zero = refl
has_bit-zero (suc bit) = has_bit-zero bit

has_bit-set_bit :
    (bit other word : ℕ) → has_bit other (set_bit bit word) ≡ ((other == bit) || has_bit other word)
has_bit-set_bit zero zero word = ground arith
has_bit-set_bit zero (suc other) word =
    let half : (2 * (word / 2) + 1) / 2 ≡ word / 2 = omega arith in
    let ne : (suc other == 0) ≡ false = ground arith in
    ap (has_bit other) half ∙ sym (ap (λ b. b || has_bit other (word / 2)) ne)
has_bit-set_bit (suc bit) zero word = ground arith
has_bit-set_bit (suc bit) (suc other) word =
    let half : (2 * set_bit bit (word / 2) + word % 2) / 2 ≡ set_bit bit (word / 2) = omega arith in
    let same : (other == bit) ≡ (suc other == suc bit) = ground arith in
    ap (has_bit other) half
    ∙ (has_bit-set_bit bit other (word / 2) ∙ ap (λ b. b || has_bit other (word / 2)) same)

get_or-append_zeros :
    (caps : List ℕ) (n i : ℕ) → get_or (caps ++ replicate n 0) i 0 ≡ get_or caps i 0
get_or-append_zeros [] n i = get_or-replicate n i 0
get_or-append_zeros (w ∷ caps) n zero = refl
get_or-append_zeros (w ∷ caps) n (suc i) = get_or-append_zeros caps n i

get_or-behind : (caps : List ℕ) (i : ℕ) → length caps ≤ i → get_or caps i 0 ≡ 0
get_or-behind [] i h = refl
get_or-behind (w ∷ caps) zero h = absurd (omega arith)
get_or-behind (w ∷ caps) (suc i) h = get_or-behind caps i (omega arith)

-- A capability behind the array is one that is not set.
test_capability_lem :
    (caps : List ℕ) (cap : ℕ)
    → test_capability caps cap ≡ has_bit (cap % 32) (get_or caps (cap / 32) 0)
unfolding test_capability
test_capability_lem caps cap = elim (Bool-cases (ltb (length caps) (cap / 32 + 1))) [
  | inl e ↦
      if_true _ _ e
      ∙ sym (
          ap (has_bit (cap % 32)) (get_or-behind caps (cap / 32) (ground arith))
          ∙ has_bit-zero (cap % 32))
  | inr e ↦ if_false _ _ e
]

abbrev sized : ℕ → List ℕ → List ℕ
sized i caps = if leb (length caps) i then grow (i + 1) caps else caps

get_or-sized : (i j : ℕ) (caps : List ℕ) → get_or (sized i caps) j 0 ≡ get_or caps j 0
get_or-sized i j caps = elim (Bool-cases (leb (length caps) i)) [
  | inl e ↦
      ap (λ l. get_or l j 0) (if_true _ _ e) ∙ get_or-append_zeros caps (i + 1 - length caps) j
  | inr e ↦ ap (λ l. get_or l j 0) (if_false _ _ e)
]

length-sized : (i : ℕ) (caps : List ℕ) → i < length (sized i caps)
length-sized i caps = elim (Bool-cases (leb (length caps) i)) [
  | inl e ↦
      subst (λ l. i < length l) (sym (if_true _ _ e))
        (let behind : length caps ≤ i = ground arith in
          let zeros : List ℕ = replicate (i + 1 - length caps) 0 in
          let n : length zeros ≡ i + 1 - length caps =
            length-replicate {A = ℕ} (i + 1 - length caps) 0 in
          omega (arith, length-append caps zeros, n))
  | inr e ↦ subst (λ l. i < length l) (sym (if_false _ _ e)) (ground arith)
]

-- A capability that has been set is there, and the others are as they were.
pub test_capability-set_capability :
    (caps : List ℕ) (cap other : ℕ)
    → test_capability (set_capability cap caps) other
      ≡ ((other == cap) || test_capability caps other)
unfolding set_capability
test_capability-set_capability caps cap other =
    let i = cap / 32 in
    let j = other / 32 in
    let start = sized i caps in
    let word = set_bit (cap % 32) (get_or start i 0) in
    test_capability_lem (set start i word) other ∙ elim (Bool-cases (j == i)) [
      | inl e ↦
          let same : i ≡ j = ground arith in
          let bits : (other % 32 == cap % 32) ≡ (other == cap) = ground arith in
          ap (λ k. has_bit (other % 32) (get_or (set start i word) k 0)) (sym same)
          ∙ (ap (has_bit (other % 32)) (get_or-set_self start i word 0 (length-sized i caps))
              ∙ (has_bit-set_bit (cap % 32) (other % 32) (get_or start i 0)
                  ∙ ap₂ (λ a b. a || b) bits
                      (ap (has_bit (other % 32))
                          (get_or-sized i i caps ∙ ap (λ k. get_or caps k 0) same)
                        ∙ sym (test_capability_lem caps other))))
      | inr e ↦
          let differ : i ≢ j = λ same. ground arith in
          let no : (other == cap) ≡ false = ground arith in
          ap (has_bit (other % 32)) (get_or-set_ne start i j word 0 differ ∙ get_or-sized i j caps)
          ∙ (sym (test_capability_lem caps other)
              ∙ ap (λ b. b || test_capability caps other) (sym no))
    ]

-- Words of 32 bits.
abbrev pub AllWords : List ℕ → Type 0
AllWords [] = Unit {0}
AllWords (word ∷ caps) = (word < limit 4) × AllWords caps

-- The words of a link message are read back, whatever comes behind them.
pub store_caps-put_caps :
    (caps : List ℕ) (more : Bytes)
    → AllWords caps
    → store_caps (length caps) (put_caps caps ++ more) ≡ some caps
unfolding store_caps put_caps
store_caps-put_caps [] more v = refl
store_caps-put_caps (word ∷ caps) more (fits, v) =
    let code = to_le 4 word in
    let size = length-to_le 4 word in
    let behind = put_caps caps ++ more in
    let bytes = (code ++ put_caps caps) ++ more in
    let split : bytes ≡ code ++ behind = append_assoc code (put_caps caps) more in
    let long : ltb (length bytes) 4 ≡ false =
      let n : length bytes ≡ 4 + length behind =
        ap length split ∙ (length-append code behind ∙ ap (λ k. k + length behind) size) in
      ground arith in
    if_false _ _ long
    ∙ ap₂ add_word
        (ap (λ b. from_le (take 4 b)) split
          ∙ (ap from_le (take-prefix code behind 4 size) ∙ from_le-to_le 4 word fits))
        (ap (λ b. store_caps (length caps) (drop 4 b)) split
          ∙ (ap (store_caps (length caps)) (drop_front code behind 4 size)
              ∙ store_caps-put_caps caps more v))
