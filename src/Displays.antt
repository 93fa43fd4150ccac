-- ===== src/Displays.antt =====
-- src/channel-main.c: the displays that the user asks for, and the configuration of monitors that the
-- agent is sent. The distance and the sorting by it are GLib's and libm's, a parameter.
pub mod Align
pub mod Aligning
pub mod Config
pub mod Place
pub mod Sending
use spice_gtk.Base.{
  ℕ, zero, suc, ◌+◌, ◌%◌, ◌^◌, ◌<◌, ◌≡◌, Bool, true, false, not, ◌&&◌, ◌||◌, Option, none, some,
  List, [], ◌∷◌, map, ltb, ◌==◌, if◌then◌else◌, length, get_elem?, set,
}
use spice_gtk.Base.Int.{ℤ, pos, negsuc}

pub data DisplayState : Type 0 where
  undefined : DisplayState
  disabled : DisplayState
  enabled : DisplayState

-- `SpiceDisplayConfig`
pub record Display : Type 0 where
  pub x : ℕ
  pub y : ℕ
  pub width : ℕ
  pub height : ℕ
  pub state : DisplayState

-- `VDAgentMonConfig`
pub record Monitor : Type 0 where
  pub height : ℕ
  pub width : ℕ
  pub depth : ℕ
  pub x : ℕ
  pub y : ℕ

-- `VDAgentMonitorsConfig`
pub record MonitorsConfig : Type 0 where
  pub num_of_monitors : ℕ
  pub use_pos : Bool
  pub monitors : List Monitor

-- The part of `SpiceMainChannelPrivate` that displays need. `sparse` is the agent's capability
-- SPARSE_MONITORS_CONFIG, `timer` the delay of the timer that is set, in seconds.
pub record Displays : Type 0 where
  pub agent_connected : Bool
  pub sparse : Bool
  pub display_color_depth : ℕ
  pub disable_display_position : Bool
  pub disable_display_align : Bool
  pub display : List Display
  pub timer : Option ℕ

abbrev pub is_enabled : DisplayState → Bool
is_enabled enabled = true
is_enabled _ = false

abbrev pub same_state : DisplayState → DisplayState → Bool
same_state undefined undefined = true
same_state disabled disabled = true
same_state enabled enabled = true
same_state _ _ = false

abbrev pub update_display_timer : ℕ → Displays → Displays
update_display_timer seconds c = record c { timer = some seconds }

abbrev pub same_display : Display → Display → Bool
same_display d e =
    d.x == e.x
    && d.y == e.y
    && d.width == e.width
    && d.height == e.height
    && same_state d.state e.state

-- The index is compared as an unsigned number, so a negative `id` is refused too.
unfoldable pub update_display : ℤ → ℤ → ℤ → ℤ → ℤ → Bool → Displays → Displays
update_display (pos id) (pos x) (pos y) (pos width) (pos height) update c =
    elim (get_elem? c.display id) [
      | none ↦ c
      | some old ↦
          let new : Display = record {
            x = x;
            y = y;
            width = width;
            height = height;
            state = old.state;
          } in
          let c1 = record c { display = set c.display id new } in
          if same_display new old then c else (if update then update_display_timer 1 c1 else c1)
    ]
update_display _ _ _ _ _ update c = c

abbrev pub set_state : DisplayState → Display → Display
set_state state d = record d { state = state }

abbrev pub set_all : DisplayState → List Display → List Display
set_all state [] = []
set_all state (d ∷ ds) = set_state state d ∷ set_all state ds

-- `id` is -1 for all displays.
unfoldable pub update_display_enabled : ℤ → Bool → Bool → Displays → Displays
update_display_enabled id on update c = go id
  where
    state : DisplayState
    state = if on then enabled else disabled

    timed : Displays → Displays
    timed c1 = if update then update_display_timer 1 c1 else c1

    go : ℤ → Displays
    go (negsuc zero) = timed (record c { display = set_all state c.display })
    go (negsuc (suc n)) = c
    go (pos i) = elim (get_elem? c.display i) [
      | none ↦ c
      | some old ↦
          if same_state old.state state
          then c
          else timed (record c { display = set c.display i (set_state state old) })
    ]
