-- ===== src/Glz/Window.antt =====
-- src/decode-glz.c: `SpiceGlzDecoderWindow`, the ring of images that later images refer to.
pub mod Resize
pub mod Add
pub mod Release
use spice_gtk.Base.{
  ℕ, zero, suc, ◌+◌, ◌-◌, ◌*◌, ◌%◌, ◌^◌, Bool, true, false, not, ◌&&◌, Option, none, some, List, [],
  ◌∷◌, get_or, set, take, drop, replicate, ◌==◌, leb, ltb, if◌then◌else◌,
}
use spice_gtk.Glz.{Pixel, Image}

-- `images` is the array; an empty slot is `none`.
pub record Window : Type 0 where
  pub images : List (Option Image)
  pub nimages : ℕ
  pub oldest : ℕ
  pub tail_gap : ℕ

abbrev pub slot : Window → ℕ → Option Image
slot w id = get_or w.images (id % w.nimages) none

abbrev pub is_some {ℓ} : {A : Type ℓ} → Option A → Bool
is_some none = false
is_some (some a) = true

-- The loop of `glz_decoder_window_resize` over the old array, into the new one of `n` slots.
unfoldable pub move : ℕ → List (Option Image) → List (Option Image) → List (Option Image)
move n [] new = new
move n (none ∷ old) new = move n old new
move n (some img ∷ old) new = move n old (set new (img.id % n) (some img))

unfoldable pub resize : Window → Window
unfolding move replicate
resize w =
    let n = w.nimages * 2 % 2 ^ 32 in
    record w { images = move n (take w.nimages w.images) (replicate n none); nimages = n }

-- `while (w->tail_gap <= img->hdr.id && ...)`: at most `id + 1 - tail_gap` rounds.
unfoldable pub close_gap : ℕ → ℕ → Window → Window
close_gap zero id w = w
close_gap (suc fuel) id w =
    let rest = close_gap fuel id (record w { tail_gap = w.tail_gap + 1 }) in
    if leb w.tail_gap id && is_some (slot w w.tail_gap) then rest else w

unfoldable pub store : Window → Image → Window
store w img = record w { images = set w.images (img.id % w.nimages) (some img) }

unfoldable pub make_room : Window → ℕ → Window
unfolding resize
make_room w id = if is_some (slot w id) then resize w else w

-- `glz_decoder_window_add`
unfoldable pub add : Window → Image → Window
unfolding close_gap store make_room
add w img =
    let w' = store (make_room w img.id) img in close_gap (img.id + 1 - w'.tail_gap) img.id w'

-- The wrapping `uint64_t` difference `id - dist`.
abbrev pub back_ref : ℕ → ℕ → ℕ
back_ref id dist = (id + 2 ^ 64 - dist) % 2 ^ 64

-- `wait_for_image`
unfoldable pub wait_for_image : Window → ℕ → Bool
wait_for_image w id = elim (slot w id) [ none ↦ false | some img ↦ img.id == id ]

-- `glz_decoder_window_bits`, once the wait is over: the pixels from `data + offset * 4` on, or
-- `none` for the `NULL` of a failed check.
unfoldable pub bits : Window → ℕ → ℕ → ℕ → Option (List Pixel)
bits w id dist offset = elim (slot w (back_ref id dist)) [
  | none ↦ none
  | some img ↦
      if img.id == back_ref id dist && leb offset img.gross_pixels
      then some (drop offset img.pixels)
      else none
]

-- The loop of `glz_decoder_window_release`, `count` rounds.
unfoldable pub release_loop : ℕ → Window → Window
release_loop zero w = w
release_loop (suc count) w =
    release_loop count
      (record w { images = set w.images (w.oldest % w.nimages) none; oldest = w.oldest + 1 })

unfoldable pub release : Window → ℕ → Window
unfolding release_loop
release w oldest = release_loop (oldest - w.oldest) w

unfoldable pub clear : Window → Window
unfolding replicate
clear w = record w { nimages = 16; images = replicate 16 none; tail_gap = 0 }

-- `glz_decoder_window_new`: a window of zeros, cleared
unfoldable pub new : Window
unfolding clear
new = clear (record { images = []; nimages = 0; oldest = 0; tail_gap = 0 })
