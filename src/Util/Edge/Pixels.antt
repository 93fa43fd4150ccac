-- ===== src/Util/Edge/Pixels.antt =====
-- The loops of `spice_mono_edge_highlight` in src/spice-util.c compute a function of each place.
use spice_gtk.Base.{
  ℕ, zero, suc, ◌+◌, ◌*◌, ◌/◌, ◌%◌, ◌<◌, ◌≡◌, refl, subst, ap, ◌∙◌, Bool, ◌&&◌, some, List, [], ◌∷◌,
  ◌++◌, if◌then◌else◌, arith, get_elem?, length,
}
use spice_gtk.Util.Edge.{
  Mask, Pixel, black, mask_bit, mask_pixel, is_set, next_bit, buf_is_ones, is_edge, is_edge_helper,
  row, rows, mono_edge_highlight,
}

-- The pixel at a column and a row, from the bits of the masks there.
abbrev pub pixel_at : ℕ → ℕ → Mask → Mask → ℕ → ℕ → Pixel
pixel_at width height and_mask xor_mask x y =
    let bpl = (width + 7) / 8 in
    if is_edge width height xor_mask bpl x y && buf_is_ones (height * bpl) and_mask
    then black
    else mask_pixel (is_edge_helper and_mask bpl x y) (is_edge_helper xor_mask bpl x y)

get_elem?-append_left :
    {A : Type 0} (xs ys : List A) (i : ℕ) → i < length xs → get_elem? (xs ++ ys) i ≡ get_elem? xs i
get_elem?-append_left [] ys i h = absurd (omega arith)
get_elem?-append_left (x ∷ xs) ys zero h = refl
get_elem?-append_left (x ∷ xs) ys (suc i) h = get_elem?-append_left xs ys i (omega arith)

get_elem?-append_right :
    {A : Type 0} (xs ys : List A) (i : ℕ) → get_elem? (xs ++ ys) (length xs + i) ≡ get_elem? ys i
get_elem?-append_right [] ys i = let e : 0 + i ≡ i = omega arith in rw e refl
get_elem?-append_right (x ∷ xs) ys i =
    let e : length (x ∷ xs) + i ≡ suc (length xs + i) = omega arith in
    rw e (get_elem?-append_right xs ys i)

next_bit_lem : (x : ℕ) → next_bit (mask_bit (x % 8)) ≡ mask_bit (suc x % 8)
next_bit_lem x =
    let e : suc x % 8 ≡ suc (x % 8) % 8 = omega arith in rw e (residue (x % 8) (omega arith))
  where
    residue : (r : ℕ) → r < 8 → next_bit (mask_bit r) ≡ mask_bit (suc r % 8)
    residue zero h = refl
    residue (suc zero) h = refl
    residue (suc (suc zero)) h = refl
    residue (suc (suc (suc zero))) h = refl
    residue (suc (suc (suc (suc zero)))) h = refl
    residue (suc (suc (suc (suc (suc zero))))) h = refl
    residue (suc (suc (suc (suc (suc (suc zero)))))) h = refl
    residue (suc (suc (suc (suc (suc (suc (suc zero))))))) h = refl
    residue (suc (suc (suc (suc (suc (suc (suc (suc r)))))))) h = absurd (omega arith)

is_set_lem :
    (m : Mask) (bpl x y : ℕ)
    → is_set m (bpl * y + x / 8) (mask_bit (x % 8)) ≡ is_edge_helper m bpl x y
unfolding is_edge_helper
is_set_lem m bpl x y = ground arith

module _ (width height : ℕ) (and_mask xor_mask : Mask) where
  bpl : ℕ
  bpl = (width + 7) / 8

  ones : Bool
  ones = buf_is_ones (height * bpl) and_mask

  length-row :
      (n y base x bit : ℕ) → length (row width height and_mask xor_mask ones n bpl y base x bit) ≡ n
  unfolding row bpl ones
  length-row zero y base x bit = refl
  length-row (suc n) y base x bit = ap suc (length-row n y base (suc x) (next_bit bit))

  row_lem :
      (n y x i : ℕ)
      → i < n
      → get_elem? (row width height and_mask xor_mask ones n bpl y (bpl * y) x (mask_bit (x % 8))) i
        ≡ some (pixel_at width height and_mask xor_mask (x + i) y)
  unfolding row bpl ones
  row_lem zero y x i h = absurd (omega arith)
  row_lem (suc n) y x zero h =
      let e : x + 0 ≡ x = omega arith in
      rw (e, is_set_lem and_mask bpl x y, is_set_lem xor_mask bpl x y) refl
  row_lem (suc n) y x (suc i) h =
      let e : x + suc i ≡ suc x + i = omega arith in
      rw (next_bit_lem x, e) (row_lem n y (suc x) i (omega arith))

  rows_lem :
      (n y x j : ℕ)
      → x < width
      → j < n
      → get_elem? (rows width height and_mask xor_mask ones n bpl y (bpl * y)) (j * width + x)
        ≡ some (pixel_at width height and_mask xor_mask x (y + j))
  unfolding rows bpl ones
  rows_lem zero y x j h k = absurd (omega arith)
  rows_lem (suc n) y x zero h k =
      let e : 0 * width + x ≡ x = omega arith in
      let z : y + 0 ≡ y = omega arith in
      let o : 0 + x ≡ x = omega arith in
      let r = row width height and_mask xor_mask ones width bpl y (bpl * y) 0 0x80 in
      let rest = rows width height and_mask xor_mask ones n bpl (suc y) (bpl * y + bpl) in
      rw (e, z)
        (get_elem?-append_left r rest x (rw (length-row width y (bpl * y) 0 0x80) h)
          ∙ subst (λ k. get_elem? r x ≡ some (pixel_at width height and_mask xor_mask k y)) o
              (row_lem width y 0 x h))
  rows_lem (suc n) y x (suc j) h k =
      let r = row width height and_mask xor_mask ones width bpl y (bpl * y) 0 0x80 in
      let rest = rows width height and_mask xor_mask ones n bpl (suc y) (bpl * y + bpl) in
      let l = length-row width y (bpl * y) 0 0x80 in
      let e : suc j * width + x ≡ length r + (j * width + x) = omega (arith, l) in
      let z : y + suc j ≡ suc y + j = omega arith in
      let b : bpl * y + bpl ≡ bpl * suc y = omega arith in
      rw (e, z)
        (get_elem?-append_right r rest (j * width + x)
          ∙ rw b (rows_lem n (suc y) x j h (omega arith)))

  -- The loops, with their moving pointers and shifted bit, write at each place of the image the
  -- pixel that the masks' bits and the neighbors of that place ask for.
  pub mono_edge_highlight-pixel_at :
      (x y : ℕ)
      → x < width
      → y < height
      → get_elem? (mono_edge_highlight width height and_mask xor_mask) (y * width + x)
        ≡ some (pixel_at width height and_mask xor_mask x y)
  unfolding mono_edge_highlight bpl ones
  mono_edge_highlight-pixel_at x y h k =
      let z : bpl * 0 ≡ 0 = omega arith in
      let o : 0 + y ≡ y = omega arith in
      subst
        (λ b.
          get_elem? (rows width height and_mask xor_mask ones height bpl 0 b) (y * width + x)
          ≡ some (pixel_at width height and_mask xor_mask x y))
        z
        (subst
          (λ j.
            get_elem? (rows width height and_mask xor_mask ones height bpl 0 (bpl * 0))
              (y * width + x)
            ≡ some (pixel_at width height and_mask xor_mask x j))
          o (rows_lem height 0 x y h k))
