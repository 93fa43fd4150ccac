-- ===== src/Displays/Aligning.antt =====
-- The row of monitors, `monitors_align` in src/channel-main.c. The sort by distance is a parameter.
use spice_gtk.Base.{
  ℕ, ◌+◌, ◌%◌, ◌^◌, Bool, true, false, not, ◌&&◌, Option, none, some, List, [], ◌∷◌, ◌==◌,
  if◌then◌else◌,
}
use spice_gtk.Displays.{Monitor}

-- A monitor that is being aligned, with its bit of `used`.
pub record Cell : Type 0 where
  pub monitor : Monitor
  pub used : Bool

-- `memcmp(...) == 0`
abbrev pub monitor_eq : Monitor → Monitor → Bool
monitor_eq m n =
    m.height == n.height && m.width == n.width && m.depth == n.depth && m.x == n.x && m.y == n.y

abbrev pub keep : Cell → Option (List Cell × ℕ) → Option (List Cell × ℕ)
keep c none = none
keep c (some (cells, x)) = some (c ∷ cells, x)

-- The inner loop: the first monitor that is not used and is `target` is placed at `x`. `none` is a
-- write behind the last monitor. The sum is the new `x`.
unfoldable pub place : Monitor → ℕ → List Cell → Option (List Cell × ℕ)
place target x [] = none
place target x (c ∷ cells) =
    let rest = place target x cells in
    if not c.used && monitor_eq c.monitor target
    then some (
      record { monitor = record c.monitor { x = x; y = 0 }; used = true } ∷ cells,
      (x + c.monitor.width) % 2 ^ 32,
    )
    else keep c rest

abbrev pub option_bind {ℓ} : {A B : Type ℓ} → Option A → (A → Option B) → Option B
option_bind none f = none
option_bind (some a) f = f a

-- `for (i = 0; i < nmonitors; i++)`, for the sorted monitors
unfoldable pub place_all : List Monitor → ℕ → List Cell → Option (List Cell)
unfolding place
place_all [] x cells = some cells
place_all (m ∷ sorted) x cells = option_bind (place m x cells) (λ r. place_all sorted r.1 r.0)

abbrev pub unused_cells : List Monitor → List Cell
unused_cells [] = []
unused_cells (m ∷ ms) = record { monitor = m; used = false } ∷ unused_cells ms

abbrev pub monitors_of : List Cell → List Monitor
monitors_of [] = []
monitors_of (c ∷ cells) = c.monitor ∷ monitors_of cells

abbrev pub option_map {ℓ} : {A B : Type ℓ} → (A → B) → Option A → Option B
option_map f none = none
option_map f (some a) = some (f a)

module _ (sort : List Monitor → List Monitor) where
  -- The monitors in a row from left to right, by their distance from the origin.
  unfoldable pub monitors_align : List Monitor → Option (List Monitor)
  unfolding place_all
  monitors_align [] = some []
  monitors_align (m ∷ ms) =
      option_map monitors_of (place_all (sort (m ∷ ms)) 0 (unused_cells (m ∷ ms)))
