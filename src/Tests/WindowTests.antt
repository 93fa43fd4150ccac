-- ===== src/Tests/WindowTests.antt =====
-- src/decode-glz.c: the window, at a window of four slots.
use spice_gtk.Base.{
  ℕ, zero, suc, ◌+◌, ◌%◌, ◌≤◌, ◌<◌, ◌≡◌, ◌≢◌, refl, true, none, some, [], ◌∷◌, get_or, arith,
}
use spice_gtk.Glz.{Image}
use spice_gtk.Glz.Window.{Window, add, release, clear, new}
use spice_gtk.Glz.Window.Resize.{IsValid, find, match_id}
use spice_gtk.Glz.Window.Add.{add-find}
use spice_gtk.Glz.Window.Release.{IsDense, add_all, clear-release_none}

abbrev image : ℕ → Image
image id = record {
  hdr = record {
    id = id;
    type = 8;
    width = 1;
    height = 1;
    gross_pixels = 1;
    top_down = true;
    win_head_dist = 1;
  };
  pixels = record { b = 1; g = 2; r = 3; pad = 0 } ∷ [];
}

-- Images 5 and 6; 7 and 8 have not come yet.
abbrev small : Window
small = record {
  images = none ∷ some (image 5) ∷ some (image 6) ∷ none ∷ [];
  nimages = 4;
  oldest = 5;
  tail_gap = 5;
}

small-IsValid : IsValid small
small-IsValid = record { size = refl; pos = omega arith; placed = (refl, (refl, tt)) }

small-IsDense : IsDense small
small-IsDense id img e = held (id % 4) refl e
  where
    held :
        (s : ℕ)
        → id % 4 ≡ s
        → match_id id (get_or small.images s none) ≡ some img
        → (5 ≤ id) × (id < 5 + 4)
    held zero q p = cc
    held (suc zero) q p = ground arith
    held (suc (suc zero)) q p = ground arith
    held (suc (suc (suc zero))) q p = cc
    held (suc (suc (suc (suc s)))) q p = absurd (omega arith)

add-find_example :
    IsValid (add small (image 9))
    × (find (add small (image 9)) 9 ≡ some (image 9))
    × ((id : ℕ) → id % 8 ≢ 1 → find (add small (image 9)) id ≡ find small id)
add-find_example = add-find small (image 9) small-IsValid (omega arith)

clear-release_none_example :
    release (add_all (clear small) (image 0 ∷ image 1 ∷ [])) 5
    ≡ add_all (clear small) (image 0 ∷ image 1 ∷ [])
clear-release_none_example = clear-release_none small (image 0 ∷ image 1 ∷ []) 5 (omega arith)

-- An image that meets an old one of the same slot is not lost.
collision : find (add small (image 9)) 5 ≡ some (image 5)
unfolding add
collision = refl

gap_closed : (add new (image 0)).tail_gap ≡ 1
unfolding add new
gap_closed = refl
