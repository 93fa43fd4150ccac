-- ===== src/Glz.antt =====
-- src/decode-glz.c and src/decode-glz-tmpl.c: the GLZ image decoder. A GLZ image refers to pixels
-- of the same image and of images that came before it, which the window keeps.
pub mod Window
pub mod Format
pub mod Stream
pub mod Decoder
use spice_gtk.Base.{ℕ, Bool, List}

-- `rgb32_pixel_t`
pub record Pixel : Type 0 where
  pub b : ℕ
  pub g : ℕ
  pub r : ℕ
  pub pad : ℕ

-- `struct glz_image_hdr`; `type` is the number of the `LzImageType`.
pub record ImageHdr : Type 0 where
  pub id : ℕ
  pub type : ℕ
  pub width : ℕ
  pub height : ℕ
  pub gross_pixels : ℕ
  pub top_down : Bool
  pub win_head_dist : ℕ

-- `struct glz_image`: `pixels` are those that stand from `data` on, in the order of their addresses.
pub record Image : Type 0 where
  pub hdr : ImageHdr
  pub open hdr use *
  pub pixels : List Pixel
