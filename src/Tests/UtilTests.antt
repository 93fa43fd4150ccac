-- ===== src/Tests/UtilTests.antt =====
-- The conversions of line ends at concrete texts.
use spice_gtk.Base.{◌≡◌, refl, true, [], ◌∷◌}
use spice_gtk.Util.Newlines.{Text, unix2dos}

-- An empty line, a lone CR, and a zero byte inside and at the end.
abbrev text : Text
text = 10 ∷ (97 ∷ (10 ∷ (13 ∷ (98 ∷ (10 ∷ (0 ∷ (10 ∷ (0 ∷ []))))))))

-- The search for line ends stops at a zero byte, and a reader of the result too.
lost_behind_zero : unix2dos true (97 ∷ (0 ∷ (10 ∷ []))) ≡ 97 ∷ []
unfolding unix2dos
lost_behind_zero = refl
