-- ===== src/Displays/Align.antt =====
-- The row of monitors of src/channel-main.c: nothing is written behind the monitors, and none overlap.
use spice_gtk.Base.{
  ℕ, ◌+◌, ◌%◌, ◌^◌, ◌<◌, ◌≡◌, refl, ap, sym, ◌∙◌, true, false, not, ◌&&◌, some, List, [], ◌∷◌,
  arith, Bool-cases, inl, inr,
}
use spice_gtk.Displays.{Monitor}
use spice_gtk.Displays.Aligning.{
  Cell, monitor_eq, place_all, unused_cells, monitors_of, monitors_align, option_map, option_bind,
}
use spice_gtk.Displays.Place.{
  one_if, count, left, widths, sizes, BesideAll, Row, Before, Clear, Apart, monitor_eq_self,
  place-Placed,
}

-- Nothing is left: every cell is used.
abbrev AllUsed : List Cell → Type 0
AllUsed [] = Unit {0}
AllUsed (c ∷ cells) = (c.used ≡ true) × AllUsed cells

none_left : (cells : List Cell) → ((t : Monitor) → left t cells ≡ 0) → AllUsed cells
none_left [] e = tt
none_left (c ∷ cells) e = (
  elim (Bool-cases c.used) [
    | inl t ↦ t
    | inr t ↦
        let own = monitor_eq_self c.monitor in
        let one = ap one_if (ap (λ u. not u && monitor_eq c.monitor c.monitor) t ∙ own) in
        let zero_here = e c.monitor in absurd (omega arith)
  ],
  none_left cells (λ t. let zero_here = e t in omega arith),
)

Clear-BesideAll :
    (c : Cell) (cells : List Cell)
    → c.used ≡ true
    → AllUsed cells
    → Clear c cells
    → BesideAll c.monitor (monitors_of cells)
Clear-BesideAll c [] u all clear = tt
Clear-BesideAll c (d ∷ cells) u (v, all) (cd, cds) = (cd u v, Clear-BesideAll c cells u all cds)

Apart-Row :
    (x : ℕ) (cells : List Cell)
    → AllUsed cells
    → Before x cells
    → Apart cells
    → Row (monitors_of cells)
Apart-Row x [] all b a = tt
Apart-Row x (c ∷ cells) (u, all) (b, bs) (a, as') =
    ((b u).1, Clear-BesideAll c cells u all a, Apart-Row x cells all bs as')

place_all-Row :
    (sorted : List Monitor) (x : ℕ) (cells : List Cell)
    → ((t : Monitor) → left t cells ≡ count t sorted)
    → x + widths sorted < 2 ^ 32
    → Before x cells
    → Apart cells
    → (done : List Cell) × (place_all sorted x cells ≡ some done)
      × (sizes (monitors_of done) ≡ sizes (monitors_of cells))
      × Row (monitors_of done)
unfolding place_all
place_all-Row [] x cells same small b a =
    (cells, refl, refl, Apart-Row x cells (none_left cells same) b a)
place_all-Row (m ∷ sorted) x cells same small b a =
    let own = ap one_if (monitor_eq_self m) in
    let one = same m in
    let r = place-Placed m x cells (omega arith) b a in
    let no_wrap : (x + m.width) % 2 ^ 32 ≡ x + m.width = ground arith in
    let found = r.found ∙ ap (λ n. some (r.cells', n)) no_wrap in
    let (done, all, keeps, row) =
      place_all-Row sorted (x + m.width) r.cells'
        (λ t. let e = r.takes t in let f = same t in omega arith) (omega arith) r.before r.apart in
    (
      done,
      ap (λ o. option_bind o (λ p. place_all sorted p.1 p.0)) found ∙ all,
      keeps ∙ r.keeps,
      row,
    )

unused-Before : (ms : List Monitor) → Before 0 (unused_cells ms)
unused-Before [] = tt
unused-Before (m ∷ ms) = (λ u. absurd (cc u), unused-Before ms)

unused-Clear : (c : Cell) (ms : List Monitor) → Clear c (unused_cells ms)
unused-Clear c [] = tt
unused-Clear c (m ∷ ms) = (λ u v. absurd (cc v), unused-Clear c ms)

unused-Apart : (ms : List Monitor) → Apart (unused_cells ms)
unused-Apart [] = tt
unused-Apart (m ∷ ms) = (unused-Clear (record { monitor = m; used = false }) ms, unused-Apart ms)

unused-left : (t : Monitor) (ms : List Monitor) → left t (unused_cells ms) ≡ count t ms
unused-left t [] = refl
unused-left t (m ∷ ms) = ap (λ n. one_if (monitor_eq m t) + n) (unused-left t ms)

monitors_of-unused : (ms : List Monitor) → monitors_of (unused_cells ms) ≡ ms
monitors_of-unused [] = refl
monitors_of-unused (m ∷ ms) = ap (λ ns. m ∷ ns) (monitors_of-unused ms)

-- A sort that only reorders makes `monitors_align` a row: it ends without a write behind the
-- monitors, each keeps its size, all are at the top, and no two overlap.
pub monitors_align-Row :
    (sort : List Monitor → List Monitor) (ms : List Monitor)
    → ((t : Monitor) → count t (sort ms) ≡ count t ms)
    → widths (sort ms) < 2 ^ 32
    → (row : List Monitor) × (monitors_align sort ms ≡ some row) × (sizes row ≡ sizes ms) × Row row
unfolding monitors_align
monitors_align-Row sort [] reorders small = ([], refl, refl, tt)
monitors_align-Row sort (m ∷ ms) reorders small =
    let all = m ∷ ms in
    let (done, placed, keeps, row) =
      place_all-Row (sort all) 0 (unused_cells all) (λ t. unused-left t all ∙ sym (reorders t))
        (omega arith) (unused-Before all) (unused-Apart all) in
    (
      monitors_of done,
      ap (option_map monitors_of) placed,
      keeps ∙ ap sizes (monitors_of-unused all),
      row,
    )
