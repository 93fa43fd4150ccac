-- ===== src/Glz/Decoder/Safety.antt =====
-- What decoding an image does, whatever the input: it stays inside the surface, and what it adds to
-- the window is the whole surface under the header's id.
use mathlib.Core.Option.{some-injective}
use spice_gtk.Base.{
  subst, ℕ, zero, suc, ◌≤◌, ◌≡◌, ◌≢◌, refl, Option, some, List, length, ltb, ◌==◌, Bool-cases,
  Option-cases, inl, inr,
}
use spice_gtk.Glz.{Pixel, ImageHdr}
use spice_gtk.Glz.Format.{Format, Palette, out_end, rgb_alpha}
use spice_gtk.Glz.Format.Laws.{
  IsFormat, plt8-IsFormat, plt4_be-IsFormat, plt4_le-IsFormat, plt1_be-IsFormat, plt1_le-IsFormat,
  rgb16-IsFormat, rgb32-IsFormat, rgb_alpha-IsFormat,
}
use spice_gtk.Glz.Window.{Window, add}
use spice_gtk.Glz.Stream.{Result, ok, refuse, fault}
use spice_gtk.Glz.Stream.Reads.{Kept, NoWrite, Holds}
use spice_gtk.Glz.Stream.Safety.{decode-Complete}
use spice_gtk.Glz.Decoder.{
  LzCommon, Decoder, decode_to_rgb32, Outcome, returned, crashed, no_format, Decoded, settle,
  release_old, start, finish, decode_alpha, decode_image,
}

decode_to_rgb32-IsFormat : (t : ℕ) (f : Format) → decode_to_rgb32 t ≡ some f → IsFormat f
unfolding decode_to_rgb32
decode_to_rgb32-IsFormat zero f e = cc
decode_to_rgb32-IsFormat (suc zero) f e = subst IsFormat (some-injective _ _ e) plt1_le-IsFormat
decode_to_rgb32-IsFormat (suc (suc zero)) f e =
    subst IsFormat (some-injective _ _ e) plt1_be-IsFormat
decode_to_rgb32-IsFormat (suc (suc (suc zero))) f e =
    subst IsFormat (some-injective _ _ e) plt4_le-IsFormat
decode_to_rgb32-IsFormat (suc (suc (suc (suc zero)))) f e =
    subst IsFormat (some-injective _ _ e) plt4_be-IsFormat
decode_to_rgb32-IsFormat (suc (suc (suc (suc (suc zero))))) f e =
    subst IsFormat (some-injective _ _ e) plt8-IsFormat
decode_to_rgb32-IsFormat (suc (suc (suc (suc (suc (suc zero)))))) f e =
    subst IsFormat (some-injective _ _ e) rgb16-IsFormat
decode_to_rgb32-IsFormat (suc (suc (suc (suc (suc (suc (suc n))))))) f e =
    elim (Bool-cases (ltb n 3)) [
      | inl b ↦ subst IsFormat (some-injective _ _ (rw b at e)) rgb32-IsFormat
      | inr b ↦ cc (rw b at e)
    ]

module _ (c : LzCommon) (alloc : ImageHdr → List Pixel) (wait : ℕ → Window → Window)
    (room : (h : ImageHdr) → h.gross_pixels ≤ length (alloc h)) where
  -- A process that was not stopped by a write outside the surface; where the call returns, the
  -- window is one to which the whole surface was added under the header, with old images released.
  abbrev pub IsSafe : ImageHdr → Outcome → Type 0
  IsSafe h (returned d) =
      (d.image ≡ h)
      × (w : Window) × (px : List Pixel) × (length px ≡ length (alloc h))
      × (d.window ≡ release_old (add w (record { hdr = h; pixels = px })))
  IsSafe h (crashed x) = x ≢ out_end
  IsSafe h no_format = Unit {0}

  settle-IsSafe :
      (h : ImageHdr) (ip : List ℕ) (r : Result (Unit {0})) (k : Decoded → Outcome)
      → Holds (λ _ t. Kept (length (alloc h)) t) (Kept (length (alloc h))) NoWrite r
      → ((e : Decoded) → length e.pixels ≡ length (alloc h) → IsSafe h (k e))
      → IsSafe h (settle ip r k)
  unfolding settle
  settle-IsSafe h ip (ok x s) k p q = q _ p
  settle-IsSafe h ip (refuse s) k p q = q _ p
  settle-IsSafe h ip (fault x) k p q = p

  start-Holds :
      (f : Format) (h : ImageHdr) (palette : Option Palette) (e : Decoded)
      → IsFormat f
      → length e.pixels ≡ length (alloc h)
      → Holds
          (λ _ t. Kept (length (alloc h)) t)
          (Kept (length (alloc h)))
          NoWrite
          (start c alloc wait f h palette e)
  unfolding start
  start-Holds f h palette e fmt l = forget _ (decode-Complete (length (alloc h)) _ (room h) fmt _ l)
    where
      forget :
          (r : Result (Unit {0}))
          → Holds
              (λ _ t. Kept (length (alloc h)) t × (t.op ≡ h.gross_pixels))
              (Kept (length (alloc h)))
              NoWrite
              r
          → Holds (λ _ t. Kept (length (alloc h)) t) (Kept (length (alloc h))) NoWrite r
      forget (ok x t) p = p.0
      forget (refuse t) p = p
      forget (fault x) p = p

  finish-IsSafe :
      (d : Decoder) (e : Decoded)
      → length e.pixels ≡ length (alloc d.image)
      → IsSafe d.image (finish c alloc wait d e)
  unfolding finish
  finish-IsSafe d e l = (refl, e.after, e.pixels, l, refl)

  decode_alpha-IsSafe :
      (d : Decoder) (palette : Option Palette) (e : Decoded)
      → length e.pixels ≡ length (alloc d.image)
      → IsSafe d.image (decode_alpha c alloc wait d palette e)
  unfolding decode_alpha
  decode_alpha-IsSafe d palette e l = elim (Bool-cases (d.image.type == c.type_rgba)) [
    | inr no_alpha ↦ rw no_alpha (finish-IsSafe d e l)
    | inl alpha ↦ rw alpha (
        settle-IsSafe d.image e.rest _ _
          (start-Holds rgb_alpha d.image palette e rgb_alpha-IsFormat l)
          (λ e' l'. finish-IsSafe d (record e' { rest = e.rest }) l'))
  ]

  -- Where the surface has room for the pixels of the header, decoding an image from any input, with
  -- any palette and window, never writes outside the surface; and if it returns, it has added to
  -- the window an image with the header and a surface of the allocated length.
  pub decode_image-IsSafe :
      (d : Decoder) (palette : Option Palette)
      → IsSafe d.image (decode_image c alloc wait d palette)
  unfolding decode_image
  decode_image-IsSafe d palette = elim (Option-cases (decode_to_rgb32 d.image.type)) [
    | inl e ↦ rw (e, decode_image) tt
    | inr (f, e) ↦
        rw (e, decode_image)
          (settle-IsSafe d.image d.in_now _ _
            (start-Holds f d.image palette _ (decode_to_rgb32-IsFormat d.image.type f e) refl)
            (λ e' l. decode_alpha-IsSafe d palette e' l))
  ]
