-- ===== src/Glz/Decoder/Header.antt =====
-- Reading back what a server writes: big-endian words, and the header.
use spice_gtk.Base.{
  ℕ, ◌*◌, ◌/◌, ◌%◌, ◌^◌, ◌≡◌, true, not, some, List, ◌∷◌, bit_and, ◌==◌, if◌then◌else◌, arith,
}
use spice_gtk.Glz.Decoder.{
  LzCommon, Decoder, decode_32, decode_64, read_byte, decode_fields, decode_header,
}

-- The bytes of a word, the highest first, before the bytes `r`.
abbrev pub be32 : ℕ → List ℕ → List ℕ
be32 n r = (n / 2 ^ 24) ∷ (n / 2 ^ 16 % 256) ∷ (n / 2 ^ 8 % 256) ∷ (n % 256) ∷ r

pub decode_32-be32 : (n : ℕ) (r : List ℕ) → decode_32 (be32 n r) ≡ some (n, r)
unfolding decode_32
decode_32-be32 n r = ground arith

abbrev pub be64 : ℕ → List ℕ → List ℕ
be64 n r = be32 (n / 2 ^ 32) (be32 (n % 2 ^ 32) r)

decode_64-be64 : (n : ℕ) (r : List ℕ) → decode_64 (be64 n r) ≡ some (n, r)
unfolding decode_64
decode_64-be64 n r = simp decode_32-be32 (ground arith)

==_refl : (n : ℕ) → (n == n) ≡ true
==_refl n = ground arith

-- The bytes of a header with the flags byte `tmp`.
abbrev pub header_bytes : LzCommon → (tmp width height stride id dist : ℕ) → List ℕ → List ℕ
header_bytes c tmp width height stride id dist r =
    be32 c.magic
      (be32 c.version (tmp ∷ be32 width (be32 height (be32 stride (be64 id (be32 dist r))))))

-- A header with the right magic number and version is read back field by field, up to the pixel
-- count, which is that of the palette or of the rectangle, and the input behind it is left.
pub decode_header-header_bytes :
    (c : LzCommon) (d : Decoder) (tmp width height stride id dist : ℕ) (r : List ℕ)
    → let type = bit_and tmp c.type_mask in
      decode_header c (record d { in_now = header_bytes c tmp width height stride id dist r })
      ≡ some (record d {
        in_now = r;
        image = record {
          id = id;
          type = type;
          width = width;
          height = height;
          gross_pixels =
              if c.is_plt type
              then stride * c.plt_pixels_per_byte type * height % 2 ^ 32
              else width * height % 2 ^ 32;
          top_down = not (tmp / 2 ^ c.type_log == 0);
          win_head_dist = dist;
        };
      })
unfolding decode_header decode_fields read_byte
decode_header-header_bytes c d tmp width height stride id dist r =
    simp (decode_32-be32, decode_64-be64, ==_refl)
