-- ===== src/Glz/Format.antt =====
-- src/decode-glz-tmpl.c: the macros that make one decoder for each pixel format. Bytes are numbers
-- below 256; a shift is a product or a quotient by a power of two.
pub mod Laws
use spice_gtk.Base.{
  ℕ, zero, suc, ◌+◌, ◌-◌, ◌*◌, ◌/◌, ◌%◌, ◌^◌, bit_or, bit_and, Option, none, some, List, [], ◌∷◌,
  ◌++◌, get_elem?, ◌==◌, if◌then◌else◌,
}
use spice_gtk.Glz.{Pixel}

-- What the C code would do where it leaves its buffers: read past the end of the input, past the
-- end of a referenced image, write or read outside the output, or miss the palette's entries.
pub data Fault : Type 0 where
  in_end ref_end out_end palette_end : Fault

-- `SpicePalette`
pub record Palette : Type 0 where
  pub num_ents : ℕ
  pub ents : List ℕ

-- `COPY_COMP_PIXEL`: the pixels it writes and the input behind, the failed check on `plt`, or a
-- fault.
pub data Comp : Type 0 where
  pixels : List Pixel → List ℕ → Comp
  no_palette : Comp
  faulty : Fault → Comp

-- One instance of the template. `bias` is added to the match length, `scale` is
-- `CAST_PLT_DISTANCE`, and `over old new` is what writing `new` leaves at a pixel.
pub record Format : Type 0 where
  pub bias : ℕ
  pub scale : ℕ
  pub over : Pixel → Pixel → Pixel
  pub comp : Option Palette → List ℕ → Comp

abbrev pub overwrite : Pixel → Pixel → Pixel
overwrite old new = new

-- `LZ_RGB_ALPHA`: only the pad byte is written.
abbrev pub over_pad : Pixel → Pixel → Pixel
over_pad old new = record old { pad = new.pad }

-- `COPY_PLT_ENTRY`
unfoldable pub plt_entry : ℕ → Pixel
plt_entry ent = record { b = ent % 256; g = ent / 2 ^ 8 % 256; r = ent / 2 ^ 16 % 256; pad = 0 }

unfoldable pub with_entry : Palette → ℕ → (ℕ → Comp) → Comp
with_entry plt i k = elim (get_elem? plt.ents i) [ none ↦ faulty palette_end | some e ↦ k e ]

-- `PLT8`
unfoldable pub comp_plt8 : Option Palette → List ℕ → Comp
unfolding with_entry plt_entry
comp_plt8 none ip = no_palette
comp_plt8 (some plt) [] = faulty in_end
comp_plt8 (some plt) (byte ∷ ip) = with_entry plt byte λ e. pixels (plt_entry e ∷ []) ip

-- Two pixels of a byte, by the entries `first` and `second`; `% 0` traps.
unfoldable pub two_entries : Palette → ℕ → ℕ → List ℕ → Comp
unfolding with_entry plt_entry
two_entries plt first second ip =
    if plt.num_ents == 0
    then faulty palette_end
    else with_entry plt (first % plt.num_ents)
        λ a. with_entry plt (second % plt.num_ents) λ b. pixels (plt_entry a ∷ plt_entry b ∷ []) ip

-- `PLT4_BE`
unfoldable pub comp_plt4_be : Option Palette → List ℕ → Comp
unfolding two_entries
comp_plt4_be none ip = no_palette
comp_plt4_be (some plt) [] = faulty in_end
comp_plt4_be (some plt) (byte ∷ ip) = two_entries plt (byte / 2 ^ 4 % 16) (byte % 16) ip

-- `PLT4_LE`
unfoldable pub comp_plt4_le : Option Palette → List ℕ → Comp
unfolding two_entries
comp_plt4_le none ip = no_palette
comp_plt4_le (some plt) [] = faulty in_end
comp_plt4_le (some plt) (byte ∷ ip) = two_entries plt (byte % 16) (byte / 2 ^ 4 % 16) ip

-- The pixel of bit `i`.
unfoldable pub bit_pixel : ℕ → ℕ → ℕ → ℕ → Pixel
unfolding plt_entry
bit_pixel fore back byte i = if byte / 2 ^ i % 2 == 1 then plt_entry fore else plt_entry back

unfoldable pub bit_pixels : ℕ → ℕ → ℕ → List ℕ → List Pixel
unfolding bit_pixel
bit_pixels fore back byte [] = []
bit_pixels fore back byte (i ∷ is) = bit_pixel fore back byte i ∷ bit_pixels fore back byte is

-- `PLT1_BE` and `PLT1_LE`, by the order of the bits
unfoldable pub comp_plt1 : List ℕ → Option Palette → List ℕ → Comp
unfolding with_entry bit_pixels
comp_plt1 order none ip = no_palette
comp_plt1 order (some plt) [] = faulty in_end
comp_plt1 order (some plt) (byte ∷ ip) =
    with_entry plt 1 λ fore. with_entry plt 0 λ back. pixels (bit_pixels fore back byte order) ip

abbrev pub high_first : List ℕ
high_first = 7 ∷ 6 ∷ 5 ∷ 4 ∷ 3 ∷ 2 ∷ 1 ∷ 0 ∷ []

abbrev pub low_first : List ℕ
low_first = 0 ∷ 1 ∷ 2 ∷ 3 ∷ 4 ∷ 5 ∷ 6 ∷ 7 ∷ []

-- `LZ_RGB16` to 32 bits: five bits of each colour, the high ones repeated below. The fields are
-- bytes, so what is assigned to them is cut to eight bits.
unfoldable pub rgb16_pixel : ℕ → ℕ → Pixel
rgb16_pixel r b =
    let g = bit_and (bit_or (r * 2 ^ 6) (b / 2 ^ 2) % 256) 0xf8 in
    record {
      b = bit_or (b * 2 ^ 3 % 256) (bit_and (b / 2 ^ 2) 0x07);
      g = bit_or g (g / 2 ^ 5);
      r = bit_or (bit_and (r * 2 % 256) 0xf8) (bit_and (r / 2 ^ 4) 0x07);
      pad = 0;
    }

unfoldable pub comp_rgb16 : Option Palette → List ℕ → Comp
unfolding rgb16_pixel
comp_rgb16 plt (r ∷ b ∷ ip) = pixels (rgb16_pixel r b ∷ []) ip
comp_rgb16 plt _ = faulty in_end

unfoldable pub comp_rgb32 : Option Palette → List ℕ → Comp
comp_rgb32 plt (b ∷ g ∷ r ∷ ip) = pixels (record { b = b; g = g; r = r; pad = 0 } ∷ []) ip
comp_rgb32 plt _ = faulty in_end

-- Only `pad` of the new pixel is used, by `over_pad`.
unfoldable pub comp_alpha : Option Palette → List ℕ → Comp
comp_alpha plt (a ∷ ip) = pixels (record { b = 0; g = 0; r = 0; pad = a } ∷ []) ip
comp_alpha plt [] = faulty in_end

abbrev pub plt8 : Format
plt8 = record { bias = 2; scale = 1; over = overwrite; comp = comp_plt8 }

abbrev pub plt4_be : Format
plt4_be = record { bias = 2; scale = 2; over = overwrite; comp = comp_plt4_be }

abbrev pub plt4_le : Format
plt4_le = record { bias = 2; scale = 2; over = overwrite; comp = comp_plt4_le }

abbrev pub plt1_be : Format
plt1_be = record { bias = 2; scale = 8; over = overwrite; comp = comp_plt1 high_first }

abbrev pub plt1_le : Format
plt1_le = record { bias = 2; scale = 8; over = overwrite; comp = comp_plt1 low_first }

abbrev pub rgb16 : Format
rgb16 = record { bias = 1; scale = 1; over = overwrite; comp = comp_rgb16 }

abbrev pub rgb32 : Format
rgb32 = record { bias = 0; scale = 1; over = overwrite; comp = comp_rgb32 }

abbrev pub rgb_alpha : Format
rgb_alpha = record { bias = 2; scale = 1; over = over_pad; comp = comp_alpha }
