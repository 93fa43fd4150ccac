-- ===== src/Channel/Header.antt =====
-- The fields of a header of src/spice-channel.c: writing one and reading it, or another, back.
use spice_gtk.Base.{
  ℕ, zero, suc, ◌+◌, ◌-◌, ◌/◌, ◌≤◌, ◌<◌, ◌≡◌, refl, ap, sym, ◌∙◌, List, [], ◌∷◌, ◌++◌, arith,
  length, take, drop, length-append, length-take, length-drop,
}
use spice_gtk.Channel.{Bytes, to_le, from_le, limit, get_field, set_field}

pub length-to_le : (width value : ℕ) → length (to_le width value) ≡ width
unfolding to_le
length-to_le zero value = refl
length-to_le (suc width) value = ap suc (length-to_le width (value / 256))

pub from_le-to_le : (width value : ℕ) → value < limit width → from_le (to_le width value) ≡ value
unfolding to_le from_le
from_le-to_le zero value h = omega arith
from_le-to_le (suc width) value h =
    let rest = from_le-to_le width (value / 256) (omega arith) in omega arith

-- Taking and dropping across a prefix of known length.
module _ {A : Type 0} where
  pub take-prefix : (xs ys : List A) (n : ℕ) → length xs ≡ n → take n (xs ++ ys) ≡ xs
  take-prefix [] ys zero e = refl
  take-prefix [] ys (suc n) e = absurd (omega arith)
  take-prefix (x ∷ xs) ys zero e = absurd (omega arith)
  take-prefix (x ∷ xs) ys (suc n) e = ap (◌∷◌ x) (take-prefix xs ys n (omega arith))

  pub take-within : (xs ys : List A) (n : ℕ) → n ≤ length xs → take n (xs ++ ys) ≡ take n xs
  take-within xs ys zero e = refl
  take-within [] ys (suc n) e = absurd (omega arith)
  take-within (x ∷ xs) ys (suc n) e = ap (◌∷◌ x) (take-within xs ys n (omega arith))

  pub drop-prefix :
      (xs ys : List A) (n : ℕ) → length xs ≤ n → drop n (xs ++ ys) ≡ drop (n - length xs) ys
  drop-prefix [] ys n e = ap (λ k. drop k ys) (omega arith)
  drop-prefix (x ∷ xs) ys zero e = absurd (omega arith)
  drop-prefix (x ∷ xs) ys (suc n) e =
      drop-prefix xs ys n (omega arith) ∙ ap (λ k. drop k ys) (omega arith)

  pub drop_front : (xs ys : List A) (n : ℕ) → length xs ≡ n → drop n (xs ++ ys) ≡ ys
  drop_front [] ys zero e = refl
  drop_front [] ys (suc n) e = absurd (omega arith)
  drop_front (x ∷ xs) ys zero e = absurd (omega arith)
  drop_front (x ∷ xs) ys (suc n) e = drop_front xs ys n (omega arith)

  pub drop-within : (xs ys : List A) (n : ℕ) → n ≤ length xs → drop n (xs ++ ys) ≡ drop n xs ++ ys
  drop-within xs ys zero e = refl
  drop-within [] ys (suc n) e = absurd (omega arith)
  drop-within (x ∷ xs) ys (suc n) e = drop-within xs ys n (omega arith)

  drop-nil : (n : ℕ) → drop {A = A} n [] ≡ []
  drop-nil zero = refl
  drop-nil (suc n) = refl

  pub drop-drop : (m n : ℕ) (xs : List A) → drop m (drop n xs) ≡ drop (n + m) xs
  drop-drop m zero xs = ap (λ k. drop k xs) (omega arith)
  drop-drop m (suc n) [] = drop-nil m ∙ sym (drop-nil (suc n + m))
  drop-drop m (suc n) (x ∷ xs) =
      let e : suc (n + m) ≡ suc n + m = omega arith in
      drop-drop m n xs ∙ ap (λ k. drop k (x ∷ xs)) e

  pub take-drop-take :
      (m n k : ℕ) (xs : List A) → n + m ≤ k → take m (drop n (take k xs)) ≡ take m (drop n xs)
  take-drop-take zero n k xs h = refl
  take-drop-take (suc m) zero zero xs h = absurd (omega arith)
  take-drop-take (suc m) zero (suc k) [] h = refl
  take-drop-take (suc m) zero (suc k) (x ∷ xs) h =
      ap (◌∷◌ x) (take-drop-take m zero k xs (omega arith))
  take-drop-take (suc m) (suc n) zero xs h = absurd (omega arith)
  take-drop-take (suc m) (suc n) (suc k) [] h = refl
  take-drop-take (suc m) (suc n) (suc k) (x ∷ xs) h = take-drop-take (suc m) n k xs (omega arith)

pub length-set_field :
    (offset width value : ℕ) (h : Bytes)
    → offset + width ≤ length h
    → length (set_field offset width value h) ≡ length h
unfolding set_field
length-set_field offset width value h fits =
    length-append (take offset h) (to_le width value ++ drop (offset + width) h)
    ∙ omega (
      arith,
      length-append (to_le width value) (drop (offset + width) h),
      length-to_le width value,
      length-take offset h,
      length-drop (offset + width) h,
    )

pub get_field-set_field_same :
    (offset width value : ℕ) (h : Bytes)
    → offset + width ≤ length h
    → value < limit width
    → get_field offset width (set_field offset width value h) ≡ value
unfolding set_field get_field
get_field-set_field_same offset width value h fits small =
    let front : length (take offset h) ≡ offset = omega (arith, length-take offset h) in
    let rest = to_le width value ++ drop (offset + width) h in
    let none_left : offset - length (take offset h) ≡ 0 = omega arith in
    ap (λ bytes. from_le (take width bytes))
      (drop-prefix (take offset h) rest offset (omega arith) ∙ ap (λ k. drop k rest) none_left)
    ∙ (ap from_le (
          take-prefix (to_le width value) (drop (offset + width) h) width
            (length-to_le width value))
        ∙ from_le-to_le width value small)

-- A field before the one that is written.
pub get_field-set_field_before :
    (at w offset width value : ℕ) (h : Bytes)
    → at + w ≤ offset
    → offset + width ≤ length h
    → get_field at w (set_field offset width value h) ≡ get_field at w h
unfolding set_field get_field
get_field-set_field_before at w offset width value h before fits =
    let front : length (take offset h) ≡ offset = omega (arith, length-take offset h) in
    let rest = to_le width value ++ drop (offset + width) h in
    ap from_le (
      ap (take w) (drop-within (take offset h) rest at (omega arith))
      ∙ (take-within (drop at (take offset h)) rest w
            (omega (arith, length-drop at (take offset h)))
          ∙ take-drop-take w at offset h before))

-- A field behind the one that is written.
pub get_field-set_field_behind :
    (at w offset width value : ℕ) (h : Bytes)
    → offset + width ≤ at
    → offset + width ≤ length h
    → get_field at w (set_field offset width value h) ≡ get_field at w h
unfolding set_field get_field
get_field-set_field_behind at w offset width value h behind fits =
    let front : length (take offset h) ≡ offset = omega (arith, length-take offset h) in
    let code = length-to_le width value in
    let tail = drop (offset + width) h in
    ap (λ bytes. from_le (take w bytes))
      (drop-prefix (take offset h) (to_le width value ++ tail) at (omega arith)
        ∙ (drop-prefix (to_le width value) tail (at - length (take offset h)) (omega arith)
            ∙ (drop-drop (at - length (take offset h) - length (to_le width value)) (offset + width)
                  h
                ∙ ap (λ k. drop k h) (omega arith))))
