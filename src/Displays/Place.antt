-- ===== src/Displays/Place.antt =====
-- Placing one monitor in the row, the inner loop of `monitors_align` in src/channel-main.c.
use spice_gtk.Base.{
  ℕ, ◌+◌, ◌%◌, ◌^◌, ◌≤◌, ◌<◌, ◌≡◌, ◌⊎◌, refl, ap, ◌∙◌, Bool, true, false, not, ◌&&◌, some, List, [],
  ◌∷◌, arith, Bool-cases, if_true, if_false, inl, inr,
}
use spice_gtk.Displays.{Monitor}
use spice_gtk.Displays.Aligning.{Cell, monitor_eq, keep, place, monitors_of}

abbrev pub one_if : Bool → ℕ
one_if true = 1
one_if false = 0

-- How often a monitor is in a list, and how often among those that are not used.
abbrev pub count : Monitor → List Monitor → ℕ
count t [] = 0
count t (m ∷ ms) = one_if (monitor_eq m t) + count t ms

abbrev pub left : Monitor → List Cell → ℕ
left t [] = 0
left t (c ∷ cells) = one_if (not c.used && monitor_eq c.monitor t) + left t cells

abbrev pub widths : List Monitor → ℕ
widths [] = 0
widths (m ∷ ms) = m.width + widths ms

-- What aligning keeps of a monitor.
abbrev pub Size : Type 0
Size = ℕ × ℕ × ℕ

abbrev pub size_of : Monitor → Size
size_of m = (m.width, m.height, m.depth)

abbrev pub sizes : List Monitor → List Size
sizes [] = []
sizes (m ∷ ms) = size_of m ∷ sizes ms

-- One monitor ends where the other starts, or before.
abbrev pub Beside : Monitor → Monitor → Type 0
Beside m n = (m.x + m.width ≤ n.x) ⊎ (n.x + n.width ≤ m.x)

abbrev pub BesideAll : Monitor → List Monitor → Type 0
BesideAll m [] = Unit {0}
BesideAll m (n ∷ ns) = Beside m n × BesideAll m ns

-- A row from the left: no two monitors overlap, and all are at the top.
abbrev pub Row : List Monitor → Type 0
Row [] = Unit {0}
Row (m ∷ ms) = (m.y ≡ 0) × BesideAll m ms × Row ms

-- The cells that are used end at `x` or before.
abbrev pub Before : ℕ → List Cell → Type 0
Before x [] = Unit {0}
Before x (c ∷ cells) =
    (c.used ≡ true → (c.monitor.x + c.monitor.width ≤ x) × (c.monitor.y ≡ 0)) × Before x cells

-- A used cell is beside all used cells.
abbrev pub Clear : Cell → List Cell → Type 0
Clear c [] = Unit {0}
Clear c (d ∷ cells) = (c.used ≡ true → d.used ≡ true → Beside c.monitor d.monitor) × Clear c cells

abbrev pub Apart : List Cell → Type 0
Apart [] = Unit {0}
Apart (c ∷ cells) = Clear c cells × Apart cells

pub monitor_eq_lem : (m n : Monitor) → monitor_eq m n ≡ true → m ≡ n
monitor_eq_lem m n e =
    let height : m.height ≡ n.height = ground arith in
    let width : m.width ≡ n.width = ground arith in
    let depth : m.depth ≡ n.depth = ground arith in
    let x : m.x ≡ n.x = ground arith in
    let y : m.y ≡ n.y = ground arith in
    λ i. record { height = height i; width = width i; depth = depth i; x = x i; y = y i }

pub monitor_eq_self : (m : Monitor) → monitor_eq m m ≡ true
monitor_eq_self m = ground arith

pub Before-mono : (x x' : ℕ) (cells : List Cell) → x ≤ x' → Before x cells → Before x' cells
Before-mono x x' [] le b = tt
Before-mono x x' (c ∷ cells) le (b, bs) =
    (λ u. let (ends, top) = b u in (omega arith, top), Before-mono x x' cells le bs)

-- A monitor at the end of the row is beside the others.
pub Clear-new : (c : Cell) (cells : List Cell) → Before c.monitor.x cells → Clear c cells
Clear-new c [] b = tt
Clear-new c (d ∷ cells) (b, bs) = (λ u v. inr (b v).0, Clear-new c cells bs)

-- What placing a monitor gives: it finds the monitor, keeps sizes, and takes just that one.
pub record Placed (m : Monitor) (x : ℕ) (cells : List Cell) : Type 0 where
  pub cells' : List Cell
  pub found : place m x cells ≡ some (cells', (x + m.width) % 2 ^ 32)
  pub before : Before (x + m.width) cells'
  pub apart : Apart cells'
  pub keeps : sizes (monitors_of cells') ≡ sizes (monitors_of cells)
  pub takes : (t : Monitor) → left t cells ≡ one_if (monitor_eq m t) + left t cells'
  pub clear :
      (d : Cell)
      → (d.used ≡ true → d.monitor.x + d.monitor.width ≤ x)
      → Clear d cells
      → Clear d cells'

pub place-Placed :
    (m : Monitor) (x : ℕ) (cells : List Cell)
    → 0 < left m cells
    → Before x cells
    → Apart cells
    → Placed m x cells
unfolding place
place-Placed m x [] pos b a = absurd (omega arith)
place-Placed m x (c ∷ cells) pos (b, bs) (a, as') =
    elim (Bool-cases (not c.used && monitor_eq c.monitor m)) [
      | inl t ↦
          let unused : c.used ≡ false = ground arith in
          let same : c.monitor ≡ m = monitor_eq_lem c.monitor m (ground arith) in
          let width = ap (λ (n : Monitor). n.width) same in
          let new : Cell = record { monitor = record c.monitor { x = x; y = 0 }; used = true } in
          record {
            cells' = new ∷ cells;
            found =
                if_true _ _ t
                ∙ ap (λ (n : Monitor). some (new ∷ cells, (x + n.width) % 2 ^ 32)) same;
            before = (λ u. (omega arith, refl), Before-mono x (x + m.width) cells (omega arith) bs);
            apart = (Clear-new new cells bs, as');
            keeps = refl;
            takes = λ s.
                let taken =
                  ap (λ u. one_if (not u && monitor_eq c.monitor s)) unused
                  ∙ ap (λ n. one_if (monitor_eq n s)) same in
                omega arith;
            clear = λ d ends cd. (λ u v. inl (ends u), cd.1);
          }
      | inr t ↦
          let none_here = ap one_if t in
          let r = place-Placed m x cells (omega arith) bs as' in
          record {
            cells' = c ∷ r.cells';
            found = if_false _ _ t ∙ ap (keep c) r.found;
            before = (λ u. let (ends, top) = b u in (omega arith, top), r.before);
            apart = (r.clear c (λ u. (b u).0) a, r.apart);
            keeps = ap (λ s. size_of c.monitor ∷ s) r.keeps;
            takes = λ s. let e = r.takes s in omega arith;
            clear = λ d ends cd. (cd.0, r.clear d ends cd.1);
          }
    ]
