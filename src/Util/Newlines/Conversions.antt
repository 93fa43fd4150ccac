-- ===== src/Util/Newlines/Conversions.antt =====
-- The conversions of src/spice-util.c there and back.
use spice_gtk.Base.{ℕ, ◌≡◌, false, ◌&&◌, [], ◌∷◌, ◌++◌, ◌==◌, if◌then◌else◌}
use spice_gtk.Util.Newlines.{Text, cr, lf, newline_cr_lf, line_end}

-- No LF has a CR before it; `last` is the byte before the text.
abbrev pub NoCrLf : (last : ℕ) → Text → Type 0
NoCrLf last [] = Unit {0}
NoCrLf last (b ∷ s) = ((last == cr && b == lf) ≡ false) × NoCrLf b s

abbrev NotLf : Text → Type 0
NotLf [] = Unit {0}
NotLf (b ∷ s) = (b == lf) ≡ false

-- The conversions of text without a zero byte.
abbrev add_cr : (last : ℕ) → Text → Text
add_cr last [] = []
add_cr last (b ∷ s) =
    let rest = add_cr b s in if b == lf then line_end newline_cr_lf last ++ rest else b ∷ rest

abbrev drop_cr : Text → Text
drop_cr [] = []
drop_cr (b ∷ []) = b ∷ []
drop_cr (b ∷ (c ∷ s)) = let rest = drop_cr (c ∷ s) in if b == cr && c == lf then rest else b ∷ rest
