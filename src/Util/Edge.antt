-- ===== src/Util/Edge.antt =====
-- src/spice-util.c: `spice_mono_edge_highlight`, which turns the two masks of a mono cursor into
-- RGBA pixels. A mask is a list of bytes, `bpl` of them to a line.
pub mod Pixels
use spice_gtk.Base.{
  ℕ, zero, suc, ◌+◌, ◌-◌, ◌*◌, ◌/◌, ◌%◌, ◌^◌, ◌<◌, ◌≡◌, refl, subst, ap, ◌∙◌, bit_and, Bool, true,
  false, not, ◌&&◌, ◌||◌, some, List, [], ◌∷◌, ◌++◌, ltb, ◌==◌, if◌then◌else◌, arith, get_or,
  get_elem?, length,
}

abbrev pub Mask : Type 0
Mask = List ℕ

-- The four bytes of `dest`: the color's three are one value.
pub record Pixel : Type 0 where
  pub color : ℕ
  pub alpha : ℕ

abbrev pub white : Pixel
white = record { color = 0xff; alpha = 0xff }

abbrev pub black : Pixel
black = record { color = 0; alpha = 0xff }

abbrev pub transparent : Pixel
transparent = record { color = 0; alpha = 0 }

abbrev all_ones_from : ℕ → Mask → ℕ → Bool
all_ones_from zero m i = true
all_ones_from (suc n) m i =
    let rest = all_ones_from n m (suc i) in if get_or m i 0 == 0xff then rest else false

unfoldable pub buf_is_ones : ℕ → Mask → Bool
buf_is_ones size m = all_ones_from size m 0

-- `0x80 >> n`
abbrev pub mask_bit : ℕ → ℕ
mask_bit n = 0x80 / 2 ^ n

unfoldable pub is_edge_helper : Mask → ℕ → ℕ → ℕ → Bool
is_edge_helper xor bpl x y = ltb 0 (bit_and (get_or xor (bpl * y + x / 8) 0) (mask_bit (x % 8)))

unfoldable pub is_edge : ℕ → ℕ → Mask → ℕ → ℕ → ℕ → Bool
unfolding is_edge_helper
is_edge width height xor bpl x y =
    if x == 0 || x == width - 1 || y == 0 || y == height - 1
    then false
    else (let p = is_edge_helper xor bpl in
        not (p x y)
        && (p (x - 1) (y + 1)
            || p x (y + 1)
            || p (x + 1) (y + 1)
            || p (x - 1) y
            || p (x + 1) y
            || p (x - 1) (y - 1)
            || p x (y - 1)
            || p (x + 1) (y - 1)))

-- The nested tests on the bits of the two masks.
abbrev pub mask_pixel : Bool → Bool → Pixel
mask_pixel true true = white
mask_pixel true false = transparent
mask_pixel false true = white
mask_pixel false false = black

abbrev pub is_set : Mask → ℕ → ℕ → Bool
is_set m i bit = not (bit_and (get_or m i 0) bit == 0)

-- `bit >>= 1`, and from the last bit back to the first
abbrev pub next_bit : ℕ → ℕ
next_bit bit = if bit / 2 == 0 then 0x80 else bit / 2

module _ (width height : ℕ) (and_mask xor_mask : Mask) (and_ones : Bool) where
  -- The `n` columns of row `y` from `x` on; the masks' pointers are at `base`.
  unfoldable pub row : ℕ → ℕ → ℕ → ℕ → ℕ → ℕ → List Pixel
  unfolding is_edge
  row zero bpl y base x bit = []
  row (suc n) bpl y base x bit =
      (if is_edge width height xor_mask bpl x y && and_ones
        then black
        else mask_pixel (is_set and_mask (base + x / 8) bit) (is_set xor_mask (base + x / 8) bit))
      ∷ row n bpl y base (suc x) (next_bit bit)

  unfoldable pub rows : ℕ → ℕ → ℕ → ℕ → List Pixel
  unfolding row
  rows zero bpl y base = []
  rows (suc n) bpl y base = row width bpl y base 0 0x80 ++ rows n bpl (suc y) (base + bpl)

unfoldable pub mono_edge_highlight : ℕ → ℕ → Mask → Mask → List Pixel
unfolding buf_is_ones rows
mono_edge_highlight width height and_mask xor_mask =
    let bpl = (width + 7) / 8 in
    rows width height and_mask xor_mask (buf_is_ones (height * bpl) and_mask) height bpl 0 0
