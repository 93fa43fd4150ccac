-- ===== src/Glz/Format/Laws.antt =====
-- The laws of the pixel formats that the decoder rests on.
use spice_gtk.Base.{
  ℕ, suc, ◌<◌, ◌≡◌, ◌≢◌, refl, ap, Option, none, some, List, [], ◌∷◌, length, arith,
}
use spice_gtk.Glz.{Pixel}
use spice_gtk.Glz.Format.{
  Format, Palette, pixels, faulty, Fault, out_end, overwrite, comp_plt8, two_entries, comp_plt4_be,
  comp_plt4_le, comp_plt1, bit_pixels, high_first, low_first, comp_rgb16, comp_rgb32, comp_alpha,
  plt8, plt4_be, plt4_le, plt1_be, plt1_le, rgb16, rgb32, rgb_alpha,
}

-- Each pixel format writes `scale` pixels for what it reads, and reads something.
pub record IsFormat (f : Format) : Type 0 where
  pub fits :
      (plt : Option Palette) (ip : List ℕ) (ps : List Pixel) (r : List ℕ)
      → f.comp plt ip ≡ pixels ps r
      → (length ps ≡ f.scale) × (length r < length ip)
  pub no_write :
      (plt : Option Palette) (ip : List ℕ) (x : Fault) → f.comp plt ip ≡ faulty x → x ≢ out_end
  pub over_again : (x y p : Pixel) → f.over x (f.over y p) ≡ f.over x p

overwrite_again : (x y p : Pixel) → overwrite x (overwrite y p) ≡ overwrite x p
overwrite_again x y p = refl

pub rgb32-IsFormat : IsFormat rgb32
unfolding comp_rgb32
rgb32-IsFormat = record { fits = fits; no_write = clean; over_again = overwrite_again }
  where
    fits :
        (plt : Option Palette) (ip : List ℕ) (ps : List Pixel) (r : List ℕ)
        → comp_rgb32 plt ip ≡ pixels ps r
        → (length ps ≡ 1) × (length r < length ip)
    fits plt [] ps r e = cc
    fits plt (a ∷ []) ps r e = cc
    fits plt (a ∷ b ∷ []) ps r e = cc
    fits plt (a ∷ b ∷ c ∷ ip) ps r e = ground arith

    clean :
        (plt : Option Palette) (ip : List ℕ) (x : Fault)
        → comp_rgb32 plt ip ≡ faulty x
        → x ≢ out_end
    clean plt [] x e = ground arith
    clean plt (a ∷ []) x e = ground arith
    clean plt (a ∷ b ∷ []) x e = ground arith
    clean plt (a ∷ b ∷ c ∷ ip) x e = cc

pub rgb16-IsFormat : IsFormat rgb16
unfolding comp_rgb16
rgb16-IsFormat = record { fits = fits; no_write = clean; over_again = overwrite_again }
  where
    fits :
        (plt : Option Palette) (ip : List ℕ) (ps : List Pixel) (r : List ℕ)
        → comp_rgb16 plt ip ≡ pixels ps r
        → (length ps ≡ 1) × (length r < length ip)
    fits plt [] ps r e = cc
    fits plt (a ∷ []) ps r e = cc
    fits plt (a ∷ b ∷ ip) ps r e = ground arith

    clean :
        (plt : Option Palette) (ip : List ℕ) (x : Fault)
        → comp_rgb16 plt ip ≡ faulty x
        → x ≢ out_end
    clean plt [] x e = ground arith
    clean plt (a ∷ []) x e = ground arith
    clean plt (a ∷ b ∷ ip) x e = cc

pub rgb_alpha-IsFormat : IsFormat rgb_alpha
unfolding comp_alpha
rgb_alpha-IsFormat = record { fits = fits; no_write = clean; over_again = λ x y p. refl }
  where
    fits :
        (plt : Option Palette) (ip : List ℕ) (ps : List Pixel) (r : List ℕ)
        → comp_alpha plt ip ≡ pixels ps r
        → (length ps ≡ 1) × (length r < length ip)
    fits plt [] ps r e = cc
    fits plt (a ∷ ip) ps r e = ground arith

    clean :
        (plt : Option Palette) (ip : List ℕ) (x : Fault)
        → comp_alpha plt ip ≡ faulty x
        → x ≢ out_end
    clean plt [] x e = ground arith
    clean plt (a ∷ ip) x e = cc

pub plt8-IsFormat : IsFormat plt8
unfolding comp_plt8
plt8-IsFormat = record { fits = fits; no_write = clean; over_again = overwrite_again }
  where
    fits :
        (plt : Option Palette) (ip : List ℕ) (ps : List Pixel) (r : List ℕ)
        → comp_plt8 plt ip ≡ pixels ps r
        → (length ps ≡ 1) × (length r < length ip)
    fits none ip ps r e = cc
    fits (some p) [] ps r e = cc
    fits (some p) (a ∷ ip) ps r e = ground arith

    clean :
        (plt : Option Palette) (ip : List ℕ) (x : Fault) → comp_plt8 plt ip ≡ faulty x → x ≢ out_end
    clean none ip x e = cc
    clean (some p) [] x e = ground arith
    clean (some p) (a ∷ ip) x e = ground arith

-- Two entries of the palette from one byte.
two_entries-fits :
    (p : Palette) (a b : ℕ) (ip : List ℕ) (ps : List Pixel) (r : List ℕ)
    → two_entries p a b ip ≡ pixels ps r
    → (length ps ≡ 2) × (r ≡ ip)
unfolding two_entries
two_entries-fits p a b ip ps r e = ground arith

two_entries-clean :
    (p : Palette) (a b : ℕ) (ip : List ℕ) (x : Fault)
    → two_entries p a b ip ≡ faulty x
    → x ≢ out_end
unfolding two_entries
two_entries-clean p a b ip x e = ground arith

pub plt4_be-IsFormat : IsFormat plt4_be
unfolding comp_plt4_be
plt4_be-IsFormat = record { fits = fits; no_write = clean; over_again = overwrite_again }
  where
    fits :
        (plt : Option Palette) (ip : List ℕ) (ps : List Pixel) (r : List ℕ)
        → comp_plt4_be plt ip ≡ pixels ps r
        → (length ps ≡ 2) × (length r < length ip)
    fits none ip ps r e = cc
    fits (some p) [] ps r e = cc
    fits (some p) (a ∷ ip) ps r e =
        let (l, q) = two_entries-fits p _ _ ip ps r e in (l, ground (arith, ap length q))

    clean :
        (plt : Option Palette) (ip : List ℕ) (x : Fault)
        → comp_plt4_be plt ip ≡ faulty x
        → x ≢ out_end
    clean none ip x e = cc
    clean (some p) [] x e = ground arith
    clean (some p) (a ∷ ip) x e = two_entries-clean p _ _ ip x e

pub plt4_le-IsFormat : IsFormat plt4_le
unfolding comp_plt4_le
plt4_le-IsFormat = record { fits = fits; no_write = clean; over_again = overwrite_again }
  where
    fits :
        (plt : Option Palette) (ip : List ℕ) (ps : List Pixel) (r : List ℕ)
        → comp_plt4_le plt ip ≡ pixels ps r
        → (length ps ≡ 2) × (length r < length ip)
    fits none ip ps r e = cc
    fits (some p) [] ps r e = cc
    fits (some p) (a ∷ ip) ps r e =
        let (l, q) = two_entries-fits p _ _ ip ps r e in (l, ground (arith, ap length q))

    clean :
        (plt : Option Palette) (ip : List ℕ) (x : Fault)
        → comp_plt4_le plt ip ≡ faulty x
        → x ≢ out_end
    clean none ip x e = cc
    clean (some p) [] x e = ground arith
    clean (some p) (a ∷ ip) x e = two_entries-clean p _ _ ip x e

length-bit_pixels :
    (fore back byte : ℕ) (order : List ℕ) → length (bit_pixels fore back byte order) ≡ length order
unfolding bit_pixels
length-bit_pixels fore back byte [] = refl
length-bit_pixels fore back byte (i ∷ is) = ap suc (length-bit_pixels fore back byte is)

plt1-fits :
    (order : List ℕ) (plt : Option Palette) (ip : List ℕ) (ps : List Pixel) (r : List ℕ)
    → comp_plt1 order plt ip ≡ pixels ps r
    → (length ps ≡ length order) × (length r < length ip)
unfolding comp_plt1
plt1-fits order none ip ps r e = cc
plt1-fits order (some p) [] ps r e = cc
plt1-fits order (some p) (a ∷ ip) ps r e = grind (arith, length-bit_pixels)

plt1-clean :
    (order : List ℕ) (plt : Option Palette) (ip : List ℕ) (x : Fault)
    → comp_plt1 order plt ip ≡ faulty x
    → x ≢ out_end
unfolding comp_plt1
plt1-clean order none ip x e = cc
plt1-clean order (some p) [] x e = ground arith
plt1-clean order (some p) (a ∷ ip) x e = ground arith

pub plt1_be-IsFormat : IsFormat plt1_be
plt1_be-IsFormat = record {
  fits = plt1-fits high_first;
  no_write = plt1-clean high_first;
  over_again = overwrite_again;
}

pub plt1_le-IsFormat : IsFormat plt1_le
plt1_le-IsFormat = record {
  fits = plt1-fits low_first;
  no_write = plt1-clean low_first;
  over_again = overwrite_again;
}
