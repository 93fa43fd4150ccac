-- ===== src/Glz/Stream.antt =====
-- src/decode-glz-tmpl.c: `FNAME(decode)`, the loop over literal runs and references. `in_buf` has
-- no length in the source: reading behind its end is the fault `in_end` here.
pub mod Reads
pub mod Matches
pub mod Safety
pub mod Fuel
pub mod Run
pub mod Literal
use spice_gtk.Base.{
  ℕ, zero, suc, ◌+◌, ◌-◌, ◌*◌, ◌/◌, ◌%◌, ◌^◌, Bool, true, false, not, ◌&&◌, Option, none, some,
  List, [], ◌∷◌, length, get_elem?, set, ◌==◌, leb, ltb, if◌then◌else◌,
}
use spice_gtk.Glz.{Pixel}
use spice_gtk.Glz.Format.{
  Format, Palette, Comp, pixels, no_palette, faulty, Fault, in_end, ref_end, out_end,
}
use spice_gtk.Glz.Window.{Window, bits}

-- The arguments that do not change. `wait` is the coroutine wait of `glz_decoder_window_bits`: the
-- window as it stands when the wait for an image id is over. `max_copy` is `MAX_COPY` of spice-common.
pub record Job : Type 0 where
  pub format : Format
  pub size : ℕ
  pub image_id : ℕ
  pub palette : Option Palette
  pub max_copy : ℕ
  pub wait : ℕ → Window → Window

-- `ip` as the input left, the output buffer, `op` as an index into it, and the window.
pub record State : Type 0 where
  pub input : List ℕ
  pub out : List Pixel
  pub op : ℕ
  pub window : Window

-- `refuse` is a failed `g_return_val_if_fail`, which returns 0.
pub data Result {ℓ} (A : Type ℓ) : Type ℓ where
  ok : A → State → Result A
  refuse : State → Result A
  fault : Fault → Result A

abbrev pub M : Type 0 → Type 0
M A = State → Result A

abbrev pub bind : {A B : Type 0} → Result A → (A → M B) → Result B
bind (ok a s) f = f a s
bind (refuse s) f = refuse s
bind (fault x) f = fault x

infixl 5 ◌>>=◌ ◌>>◌
abbrev pub ◌>>=◌ : {A B : Type 0} → M A → (A → M B) → M B
◌>>=◌ m f s = bind (m s) f

abbrev pub ◌>>◌ : {B : Type 0} → M (Unit {0}) → M B → M B
m >> k = m >>= λ _. k

abbrev pub pure : {A : Type 0} → A → M A
pure a s = ok a s

abbrev pub check : Bool → M (Unit {0})
check true s = ok tt s
check false s = refuse s

abbrev pub u32 : ℕ → ℕ
u32 n = n % 2 ^ 32

unfoldable pub get_byte : M ℕ
get_byte s = elim s.input [ [] ↦ fault in_end | b ∷ r ↦ ok b (record s { input = r }) ]

-- `do { code = *(ip++); len += code; } while (code == 255);`
unfoldable pub long_len : ℕ → List ℕ → Option (ℕ × List ℕ)
long_len len [] = none
long_len len (code ∷ r) =
    let rest = long_len (u32 (len + code)) r in
    if code == 255 then rest else some (u32 (len + code), r)

unfoldable pub get_len : ℕ → M ℕ
unfolding long_len
get_len len s =
    if len == 7
    then elim (long_len len s.input) [
      | none ↦ fault in_end
      | some (n, r) ↦ ok n (record s { input = r })
    ]
    else ok len s

-- `for (i = 0; i < image_flag; i++)`: each byte counts eight bits more.
unfoldable pub get_dist : ℕ → ℕ → ℕ → M ℕ
unfolding get_byte
get_dist zero shift dist = pure dist
get_dist (suc n) shift dist = do
  code ← get_byte
  get_dist n (shift + 8) (u32 (dist + code * 2 ^ shift))

pub record Match : Type 0 where
  pub len : ℕ
  pub ofs : ℕ
  pub dist : ℕ

-- `pixel_flag`: a very long pixel offset takes one more byte.
unfoldable pub get_far : ℕ → ℕ → M ℕ
unfolding get_byte
get_far ofs code s =
    if code / 2 ^ 5 % 2 == 1
    then bind (get_byte s) (λ more. pure (ofs + more * 2 ^ 17))
    else ok ofs s

-- The offset and the image distance, from the byte `code` on.
unfoldable pub get_place : Bool → ℕ → ℕ → M (ℕ × ℕ)
unfolding get_dist get_far
get_place false ofs code = do dist ← get_dist (code / 2 ^ 6 % 4) 6 (code % 2 ^ 6); pure (ofs, dist)
get_place true ofs code = do
  dist ← get_dist (code / 2 ^ 6 % 4) 0 0
  far ← get_far (ofs + code % 2 ^ 5 * 2 ^ 12) code
  pure (far, dist)

-- Fixing the biases, and `CAST_PLT_DISTANCE`.
unfoldable pub fix_match : Format → ℕ → ℕ → ℕ → Match
fix_match f len ofs dist = record {
  len = u32 (u32 (len + f.bias) * f.scale);
  ofs = u32 ((if dist == 0 then ofs + 1 else ofs) * f.scale);
  dist = dist;
}

unfoldable pub get_match : Format → ℕ → M Match
unfolding get_byte get_len get_place fix_match
get_match f ctrl = do
  len ← get_len (ctrl / 2 ^ 5)
  low ← get_byte
  code ← get_byte
  place ← get_place (ctrl / 2 ^ 4 % 2 == 1) (ctrl % 2 ^ 4 + low * 2 ^ 4) code
  pure (fix_match f len place.0 place.1)

-- What `ref` points to: an index of the output, or the pixels of another image.
pub data Source : Type 0 where
  inside : ℕ → Source
  outside : List Pixel → Source

unfoldable pub find_source : Job → Match → M Source
find_source j m s =
    if m.dist == 0
    then if leb (s.op + m.len) (j.size + m.ofs) && leb m.ofs s.op
      then ok (inside (s.op - m.ofs)) s
      else refuse s
    else let w = j.wait ((j.image_id + 2 ^ 64 - m.dist) % 2 ^ 64) s.window in
      elim (bits w j.image_id m.dist m.ofs) [
        | none ↦ refuse (record s { window = w })
        | some px ↦ ok (outside px) (record s { window = w })
      ]

-- `COPY_PIXEL`, `COPY_REF_PIXEL`, and one pixel of `COPY_COMP_PIXEL`.
unfoldable pub write : Job → Pixel → M (Unit {0})
write j p s = elim (get_elem? s.out s.op) [
  | none ↦ fault out_end
  | some old ↦ ok tt (record s { out = set s.out s.op (j.format.over old p); op = s.op + 1 })
]

-- `g_return_val_if_fail(op <= op_limit, 0)`
unfoldable pub in_limit : Job → M (Unit {0})
in_limit j s = check (leb s.op j.size) s

unfoldable pub put : Job → Pixel → M (Unit {0})
unfolding write in_limit
put j p = write j p >> in_limit j

unfoldable pub run_copy : Job → ℕ → Pixel → M (Unit {0})
unfolding put
run_copy j zero p s = ok tt s
run_copy j (suc n) p s = bind (put j p s) (λ _. run_copy j n p)

unfoldable pub ref_copy : Job → ℕ → Source → M (Unit {0})
unfolding put
ref_copy j zero src s = ok tt s
ref_copy j (suc n) (inside r) s = elim (get_elem? s.out r) [
  | none ↦ fault ref_end
  | some p ↦ bind (put j p s) (λ _. ref_copy j n (inside (r + 1)))
]
ref_copy j (suc n) (outside []) s = fault ref_end
ref_copy j (suc n) (outside (p ∷ ps)) s = bind (put j p s) (λ _. ref_copy j n (outside ps))

abbrev pub is_run : Source → ℕ → Bool
is_run (inside r) op = r + 1 == op
is_run (outside ps) op = false

-- A run repeats the pixel before `op`.
unfoldable pub copy_match : Job → ℕ → Source → M (Unit {0})
unfolding run_copy ref_copy
copy_match j n (inside r) s =
    if is_run (inside r) s.op
    then elim (get_elem? s.out r) [ none ↦ fault ref_end | some p ↦ run_copy j n p s ]
    else ref_copy j n (inside r) s
copy_match j n (outside ps) s = ref_copy j n (outside ps) s

unfoldable pub reference : Job → ℕ → M (Unit {0})
unfolding get_match find_source copy_match
reference j ctrl = do
  m ← get_match j.format ctrl
  src ← find_source j m
  (λ s. check (leb (s.op + m.len) j.size) s)
  copy_match j m.len src

unfoldable pub write_all : Job → List Pixel → M (Unit {0})
unfolding write
write_all j [] s = ok tt s
write_all j (p ∷ ps) s = bind (write j p s) (λ _. write_all j ps)

-- `COPY_COMP_PIXEL` with the check behind it, `count` times.
unfoldable pub literals : Job → ℕ → M (Unit {0})
unfolding write_all in_limit
literals j zero s = ok tt s
literals j (suc n) s = elim (j.format.comp j.palette s.input) [
  | pixels ps r ↦
      bind (write_all j ps (record s { input = r }))
        λ _ s'. bind (in_limit j s') (λ _. literals j n)
  | no_palette ↦ refuse s
  | faulty x ↦ fault x
]

unfoldable pub copy : Job → ℕ → M (Unit {0})
unfolding literals
copy j ctrl = do
  (λ s. check (leb (s.op + (ctrl + 1) * j.format.scale) j.size) s)
  literals j (ctrl + 1)

-- One round of the `do` loop.
unfoldable pub round : Job → ℕ → M (Unit {0})
unfolding reference copy
round j ctrl = if leb j.max_copy ctrl then reference j ctrl else copy j ctrl

-- Each round reads at least one byte, so the length of the input is fuel enough.
unfoldable pub loop : Job → ℕ → ℕ → M (Unit {0})
unfolding round
loop j zero ctrl s = fault in_end
loop j (suc fuel) ctrl s =
    bind (round j ctrl s)
      λ _ s'. if ltb s'.op j.size then bind (get_byte s') (loop j fuel) else ok tt s'

unfoldable pub decode : Job → M (Unit {0})
unfolding get_byte loop
decode j s = bind (get_byte s) (loop j (length s.input))
