-- ===== src/Util/Newlines.antt =====
-- src/spice-util.c: the conversions of line ends. A text is the bytes of a C buffer, whose result is
-- read up to its first zero byte. The source's index is a `gint`: texts and results are shorter than
-- 2 ^ 31 bytes.
pub mod Text
pub mod Conversions
use spice_gtk.Base.{
  ℕ, zero, suc, ◌≡◌, Bool, true, false, not, ◌&&◌, Option, none, some, List, [], ◌∷◌, ◌++◌, length,
  take, ◌-◌, ◌==◌, if◌then◌else◌,
}

abbrev pub Text : Type 0
Text = List ℕ

-- CR and LF.
abbrev pub cr : ℕ
cr = 13

abbrev pub lf : ℕ
lf = 10

pub data NewlineType : Type 0 where
  newline_lf newline_cr_lf : NewlineType

-- A line, whether it ends with a line end, and the text behind that.
pub record Line : Type 0 where
  pub text : Text
  pub ends : Bool
  pub rest : Text

abbrev pub longer : ℕ → Line → Line
longer b l = record l { text = b ∷ l.text }

abbrev pub ended : Text → Line
ended rest = record { text = []; ends = true; rest = rest }

abbrev pub last_line : Line
last_line = record { text = []; ends = false; rest = [] }

-- `g_strstr_len` stops at a zero byte, and then all that is left is one line.
abbrev pub unsearched : Text → Line
unsearched s = record { text = s; ends = false; rest = [] }

unfoldable pub lf_line : Text → Line
lf_line [] = last_line
lf_line (b ∷ s) =
    let more = lf_line s in
    if b == 0 then unsearched (b ∷ s) else (if b == lf then ended s else longer b more)

unfoldable pub cr_lf_line : Text → Line
cr_lf_line [] = last_line
cr_lf_line (b ∷ []) = longer b last_line
cr_lf_line (b ∷ (c ∷ s)) =
    let more = cr_lf_line (c ∷ s) in
    if b == 0
    then unsearched (b ∷ (c ∷ s))
    else (if b == cr && c == lf then ended s else longer b more)

unfoldable pub get_line : NewlineType → Text → Line
unfolding lf_line cr_lf_line
get_line newline_lf s = lf_line s
get_line newline_cr_lf s = cr_lf_line s

-- 0 where there is no output yet.
abbrev pub last_of : Text → ℕ
last_of [] = 0
last_of (b ∷ []) = b
last_of (b ∷ (c ∷ s)) = last_of (c ∷ s)

-- The line end that goes behind what has been put out.
abbrev pub line_end : NewlineType → (last : ℕ) → Text
line_end newline_lf last = lf ∷ []
line_end newline_cr_lf last = if last == cr then lf ∷ [] else cr ∷ (lf ∷ [])

abbrev pub put_line : NewlineType → Line → Text → Text
put_line to l output =
    let out = output ++ l.text in if l.ends then out ++ line_end to (last_of out) else out

-- The loop over the lines, on fuel.
unfoldable pub convert_lines : (from to : NewlineType) → (fuel : ℕ) → (output : Text) → Text → Text
unfolding get_line
convert_lines from to fuel output [] = output
convert_lines from to zero output (b ∷ s) = output
convert_lines from to (suc fuel) output (b ∷ s) =
    let l = get_line from (b ∷ s) in convert_lines from to fuel (put_line to l output) l.rest

-- The bytes in front of the first zero byte, which `strlen` counts and a reader of the result sees.
unfoldable pub c_string : Text → Text
c_string [] = []
c_string (b ∷ s) = let rest = c_string s in if b == 0 then [] else b ∷ rest

-- A length that is given counts a zero byte at the end, which is left out.
abbrev pub without_zero : (given : Bool) → Text → Text
without_zero false s = c_string s
without_zero true s = if last_of s == 0 then take (length s - 1) s else s

-- Each line takes a byte at least.
unfoldable pub convert_newlines : (from to : NewlineType) → (given : Bool) → Text → Text
unfolding convert_lines c_string
convert_newlines from to given str =
    let s = without_zero given str in c_string (convert_lines from to (length s) [] s)

unfoldable pub dos2unix : (given : Bool) → Text → Text
unfolding convert_newlines
dos2unix given s = convert_newlines newline_cr_lf newline_lf given s

unfoldable pub unix2dos : (given : Bool) → Text → Text
unfolding convert_newlines
unix2dos given s = convert_newlines newline_lf newline_cr_lf given s
