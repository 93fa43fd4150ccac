-- ===== src/Util/Scancode.antt =====
-- src/spice-util.c: `spice_make_scancode`. A scancode of the PC XT set is one byte, or 0x100 or'ed
-- to the byte that follows a prefix.
use spice_gtk.Base.{
  ℕ, zero, suc, ◌+◌, ◌-◌, ◌*◌, ◌/◌, ◌%◌, ◌^◌, ◌<◌, ◌≡◌, refl, bit_and, bit_or, Bool, true, false,
  ◌&&◌, ◌==◌, ltb, if◌then◌else◌, arith,
}

-- `GUINT16_SWAP_LE_BE`
unfoldable pub swap16 : ℕ → ℕ
swap16 v = v % 2 ^ 8 * 2 ^ 8 + v / 2 ^ 8 % 2 ^ 8

unfoldable pub make_scancode : ℕ → Bool → ℕ
unfolding swap16
make_scancode scancode release =
    let kept = bit_and scancode 0x37f in
    let code = if release then bit_or kept 0x80 else kept in
    if ltb code 0x100 then code else swap16 (bit_or 0xe000 (code - 0x100))

holds_below : (ℕ → Bool) → ℕ → Bool
holds_below test zero = true
holds_below test (suc limit) = test limit && holds_below test limit

holds_below_lem :
    (test : ℕ → Bool) (limit s : ℕ) → s < limit → holds_below test limit ≡ true → test s ≡ true
unfolding holds_below
holds_below_lem test zero s below all = absurd (omega arith)
holds_below_lem test (suc limit) s below all = ground (arith, holds_below_lem test limit s)

-- The last byte of the code of scancode `s`: the only one below 0x100, else the one behind the
-- prefix, and the prefix.
abbrev pub last_byte : ℕ → ℕ → ℕ
last_byte s code = if ltb s 0x100 then code else code / 2 ^ 8

abbrev pub prefix : ℕ → ℕ → ℕ
prefix s code = if ltb s 0x100 then 0 else code % 2 ^ 8

abbrev pub prefix_of : ℕ → ℕ
prefix_of s = if ltb s 0x100 then 0 else 0xe0 + s / 0x100 - 1

abbrev well_formed : ℕ → Bool
well_formed s =
    let down = make_scancode s false in
    let up = make_scancode s true in
    last_byte s down == s % 0x80
    && last_byte s up == s % 0x80 + 0x80
    && prefix s down == prefix_of s
    && prefix s up == prefix_of s

table : holds_below well_formed 0x400 ≡ true
unfolding holds_below make_scancode
table = refl

-- For every scancode below 0x400 press and release have the same prefix, none below 0x100 and 0xe0
-- and up above, and their last bytes are the low seven bits of the scancode, with bit 7 set in the
-- release.
pub make_scancode_release :
    (s : ℕ)
    → s < 0x400
    → let down = make_scancode s false in
      let up = make_scancode s true in
      (last_byte s down ≡ s % 0x80)
      × (last_byte s up ≡ s % 0x80 + 0x80)
      × (prefix s down ≡ prefix_of s)
      × (prefix s up ≡ prefix_of s)
make_scancode_release s h = let t = holds_below_lem well_formed 0x400 s h table in ground arith
