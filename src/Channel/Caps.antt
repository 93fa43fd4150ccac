-- ===== src/Channel/Caps.antt =====
-- src/spice-channel.c: sets of capabilities as arrays of 32-bit words, and how they are written to a
-- link message and read from one. A bit of a word is counted down by halves.
pub mod Bits
pub mod Sending
use spice_gtk.Base.{
  ℕ, zero, suc, ◌+◌, ◌-◌, ◌*◌, ◌/◌, ◌%◌, Bool, true, false, Option, none, some, List, [], ◌∷◌, ◌++◌,
  length, take, drop, get_or, set, replicate, ◌==◌, ltb, leb, if◌then◌else◌,
}
use spice_gtk.Channel.{Bytes, to_le, from_le}

-- `(word & (1 << bit)) != 0`
abbrev pub has_bit : (bit word : ℕ) → Bool
has_bit zero word = word % 2 == 1
has_bit (suc bit) word = has_bit bit (word / 2)

-- `word | (1 << bit)`
abbrev pub set_bit : (bit word : ℕ) → ℕ
set_bit zero word = 2 * (word / 2) + 1
set_bit (suc bit) word = 2 * set_bit bit (word / 2) + word % 2

unfoldable pub test_capability : List ℕ → (cap : ℕ) → Bool
test_capability caps cap =
    if ltb (length caps) (cap / 32 + 1)
    then false
    else has_bit (cap % 32) (get_or caps (cap / 32) 0)

-- `g_array_set_size` to a larger size; the array clears its elements.
abbrev pub grow : (size : ℕ) → List ℕ → List ℕ
grow size caps = caps ++ replicate (size - length caps) 0

abbrev pub set_in : (word_index bit : ℕ) → List ℕ → List ℕ
set_in word_index bit caps = set caps word_index (set_bit bit (get_or caps word_index 0))

unfoldable pub set_capability : (cap : ℕ) → List ℕ → List ℕ
set_capability cap caps =
    set_in (cap / 32) (cap % 32)
      (if leb (length caps) (cap / 32) then grow (cap / 32 + 1) caps else caps)

-- The words of a link message.
unfoldable pub put_caps : List ℕ → Bytes
unfolding to_le
put_caps [] = []
put_caps (word ∷ caps) = to_le 4 word ++ put_caps caps

abbrev pub add_word : ℕ → Option (List ℕ) → Option (List ℕ)
add_word word none = none
add_word word (some caps) = some (word ∷ caps)

-- `none` where the words are not all within the message, of which these bytes are left.
unfoldable pub store_caps : (ncaps : ℕ) → Bytes → Option (List ℕ)
unfolding from_le
store_caps zero bytes = some []
store_caps (suc ncaps) bytes =
    let others = store_caps ncaps (drop 4 bytes) in
    if ltb (length bytes) 4 then none else add_word (from_le (take 4 bytes)) others
