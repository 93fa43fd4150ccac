-- ===== src/Glz/Decoder.antt =====
-- src/decode-glz.c: the header of a GLZ image, and `decode`, which reads an image into the window.
pub mod Header
pub mod Safety
use spice_gtk.Base.{
  ℕ, zero, suc, ◌+◌, ◌-◌, ◌*◌, ◌/◌, ◌%◌, ◌^◌, bit_and, Bool, true, false, not, Option, none, some,
  List, [], ◌∷◌, get_or, ◌==◌, ltb, if◌then◌else◌,
}
use spice_gtk.Glz.{Pixel, Image, ImageHdr}
use spice_gtk.Glz.Format.{
  Format, Palette, Fault, in_end, palette_end, plt8, plt4_be, plt4_le, plt1_be, plt1_le, rgb16,
  rgb32, rgb_alpha,
}
use spice_gtk.Glz.Window.{Window, add, release, back_ref}
use spice_gtk.Glz.Stream.{Job, State, Result, ok, refuse, fault}
use spice_gtk.Glz.Stream

-- The constants and tables of spice-common's lz_common.h that the code reads.
pub record LzCommon : Type 0 where
  pub magic : ℕ
  pub version : ℕ
  pub type_mask : ℕ
  pub type_log : ℕ
  pub type_rgba : ℕ
  pub max_copy : ℕ
  pub is_plt : ℕ → Bool
  pub plt_pixels_per_byte : ℕ → ℕ

-- `GlibGlzDecoder`; `in_now` is the input from the pointer on.
pub record Decoder : Type 0 where
  pub in_now : List ℕ
  pub window : Window
  pub image : ImageHdr

infixl 5 ◌>>=◌
abbrev pub ◌>>=◌ : {A B : Type 0} → Option A → (A → Option B) → Option B
none >>= f = none
some a >>= f = f a

-- `word <<= 8; word |= *(d->in_now++);` on a word whose low bits are 0 after the shift; `none` is a
-- read past the end of the input.
unfoldable pub decode_32 : List ℕ → Option (ℕ × List ℕ)
decode_32 (a ∷ b ∷ c ∷ e ∷ r) = some (((a * 2 ^ 8 + b) * 2 ^ 8 + c) * 2 ^ 8 + e, r)
decode_32 _ = none

unfoldable pub decode_64 : List ℕ → Option (ℕ × List ℕ)
decode_64 ip = do hi ← decode_32 ip; lo ← decode_32 hi.1; some (hi.0 * 2 ^ 32 + lo.0, lo.1)

unfoldable pub read_byte : List ℕ → Option (ℕ × List ℕ)
read_byte [] = none
read_byte (b ∷ r) = some (b, r)

-- The fields behind the magic number and the version.
unfoldable pub decode_fields : LzCommon → Decoder → List ℕ → Option Decoder
unfolding read_byte
decode_fields c d ip = do
  tmp ← read_byte ip
  width ← decode_32 tmp.1
  height ← decode_32 width.1
  stride ← decode_32 height.1
  id ← decode_64 stride.1
  dist ← decode_32 id.1
  let type = bit_and tmp.0 c.type_mask
  some (record d {
    in_now = dist.1;
    image = record {
      id = id.0;
      type = type;
      width = width.0;
      height = height.0;
      gross_pixels =
          if c.is_plt type
          then stride.0 * c.plt_pixels_per_byte type * height.0 % 2 ^ 32
          else width.0 * height.0 % 2 ^ 32;
      top_down = not (tmp.0 / 2 ^ c.type_log == 0);
      win_head_dist = dist.0;
    };
  })

-- A failed `g_return_if_fail` returns with the old `image`, and the input read so far.
unfoldable pub decode_header : LzCommon → Decoder → Option Decoder
unfolding decode_fields
decode_header c d = do
  magic ← decode_32 d.in_now
  (if magic.0 == c.magic
      then (do
        version ← decode_32 magic.1
        (if version.0 == c.version
            then decode_fields c d version.1
            else some (record d { in_now = version.1 })))
      else some (record d { in_now = magic.1 }))

-- `DECODE_TO_RGB32`: `none` is the `NULL` entry, and an index outside the table.
unfoldable pub decode_to_rgb32 : ℕ → Option Format
decode_to_rgb32 zero = none
decode_to_rgb32 (suc zero) = some plt1_le
decode_to_rgb32 (suc (suc zero)) = some plt1_be
decode_to_rgb32 (suc (suc (suc zero))) = some plt4_le
decode_to_rgb32 (suc (suc (suc (suc zero)))) = some plt4_be
decode_to_rgb32 (suc (suc (suc (suc (suc zero))))) = some plt8
decode_to_rgb32 (suc (suc (suc (suc (suc (suc zero)))))) = some rgb16
decode_to_rgb32 (suc (suc (suc (suc (suc (suc (suc n))))))) = if ltb n 3 then some rgb32 else none

-- The caller of the decoder, or the stop of the process.
pub data Outcome : Type 0 where
  returned : Decoder → Outcome
  crashed : Fault → Outcome
  no_format : Outcome

-- What a decoding function leaves: the input moved on by the returned count, which is 0 after a
-- failed check, the window, and the pixels.
pub record Decoded : Type 0 where
  pub rest : List ℕ
  pub pixels : List Pixel
  pub after : Window

unfoldable pub settle : List ℕ → Result (Unit {0}) → (Decoded → Outcome) → Outcome
settle ip (ok _ s) k = k (record { rest = s.input; pixels = s.out; after = s.window })
settle ip (refuse s) k = k (record { rest = ip; pixels = s.out; after = s.window })
settle ip (fault x) k = crashed x

-- "release old images from last tail_gap, only if the gap is closed"
unfoldable pub release_old : Window → Window
release_old w = elim (get_or w.images (back_ref w.tail_gap 1 % w.nimages) none) [
  | none ↦ w
  | some img ↦ release w (back_ref img.id img.win_head_dist)
]

-- `alloc` is `alloc_lz_image_surface`: the pixels of a new surface. `wait` is the coroutine wait.
module _ (c : LzCommon) (alloc : ImageHdr → List Pixel) (wait : ℕ → Window → Window) where
  -- The count of pixels is taken as it is; the source's conversion to `int` differs from 2 ^ 31 on.
  unfoldable pub start : Format → ImageHdr → Option Palette → Decoded → Result (Unit {0})
  start f hdr palette d =
      Stream.decode
        (record {
          format = f;
          size = hdr.gross_pixels;
          image_id = hdr.id;
          palette = palette;
          max_copy = c.max_copy;
          wait = wait;
        })
        (record { input = d.rest; out = d.pixels; op = 0; window = d.after })

  unfoldable pub finish : Decoder → Decoded → Outcome
  unfolding release_old
  finish d e = returned (record d {
    in_now = e.rest;
    window = release_old (add e.after (record { hdr = d.image; pixels = e.pixels }));
  })

  unfoldable pub decode_alpha : Decoder → Option Palette → Decoded → Outcome
  unfolding start settle finish
  decode_alpha d palette e =
      if d.image.type == c.type_rgba
      then settle e.rest (start rgb_alpha d.image palette e)
          (λ e'. finish d (record e' { rest = e.rest }))
      else finish d e

  unfoldable pub decode_image : Decoder → Option Palette → Outcome
  unfolding start settle decode_alpha decode_to_rgb32
  decode_image d palette = elim (decode_to_rgb32 d.image.type) [
    | none ↦ no_format
    | some f ↦
        settle d.in_now
          (start f d.image palette
            (record { rest = d.in_now; pixels = alloc d.image; after = d.window }))
          (decode_alpha d palette)
  ]

  unfoldable pub decode : Decoder → List ℕ → Option Palette → Outcome
  unfolding decode_header decode_image
  decode d input palette = elim (decode_header c (record d { in_now = input })) [
    | none ↦ crashed in_end
    | some d' ↦ decode_image d' palette
  ]
