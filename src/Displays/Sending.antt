-- ===== src/Displays/Sending.antt =====
-- The configuration of monitors and the timer that sends it, in src/channel-main.c.
use spice_gtk.Base.{
  ℕ, zero, suc, Bool, true, false, not, ◌&&◌, ◌||◌, Option, none, some, List, [], ◌∷◌, ltb, ◌==◌,
  if◌then◌else◌, length,
}
use spice_gtk.Displays.{
  undefined, Display, Monitor, MonitorsConfig, Displays, is_enabled, same_state,
}
use spice_gtk.Displays.Aligning.{option_map, monitors_align}

abbrev pub monitor_of : ℕ → Display → Monitor
monitor_of depth d = record {
  height = d.height;
  width = d.width;
  depth = if depth == 0 then 32 else depth;
  x = d.x;
  y = d.y;
}

abbrev pub no_monitor : Monitor
no_monitor = record { height = 0; width = 0; depth = 0; x = 0; y = 0 }

-- The second loop of `spice_main_channel_send_monitor_config`; the entry of a display that is not
-- enabled is left zero.
unfoldable pub entries : Bool → ℕ → List Display → List Monitor
entries sparse depth [] = []
entries sparse depth (d ∷ ds) =
    let rest = entries sparse depth ds in
    if is_enabled d.state
    then monitor_of depth d ∷ rest
    else (if sparse then no_monitor ∷ rest else rest)

unfoldable pub count_enabled : List Display → ℕ
count_enabled [] = 0
count_enabled (d ∷ ds) =
    let rest = count_enabled ds in if is_enabled d.state then suc rest else rest

module _ (sort : List Monitor → List Monitor) where
  -- The result is what the agent is sent, nothing if the precondition fails; `none` is a write
  -- behind the monitors.
  unfoldable pub send_monitor_config : Displays → Option (Displays × Option MonitorsConfig)
  unfolding monitors_align entries count_enabled
  send_monitor_config c =
      let mon = entries c.sparse c.display_color_depth c.display in
      let aligned = if c.disable_display_align then some mon else monitors_align sort mon in
      if c.agent_connected
      then (option_map
          (λ ms. (
            record c { timer = none },
            some (record {
              num_of_monitors = if c.sparse then length c.display else count_enabled c.display;
              use_pos = not c.disable_display_position || not c.disable_display_align;
              monitors = ms;
            }),
          ))
          aligned)
      else some (c, none)

  -- The displays that there are channels for have a state; `none` is a read behind the displays.
  unfoldable pub has_missing : ℕ → List Display → Option Bool
  has_missing zero ds = some false
  has_missing (suc n) [] = none
  has_missing (suc n) (d ∷ ds) =
      let rest = has_missing n ds in if same_state d.state undefined then some true else rest

  unfoldable pub any_display_has_dimensions : List Display → Bool
  any_display_has_dimensions [] = false
  any_display_has_dimensions (d ∷ ds) =
      let rest = any_display_has_dimensions ds in
      if ltb 0 d.width && ltb 0 d.height then true else rest

  unfoldable pub timer_set_display : ℕ → Displays → Option (Displays × Option MonitorsConfig)
  unfolding send_monitor_config has_missing any_display_has_dimensions
  timer_set_display n_display_channels c0 =
      let c = record c0 { timer = none } in
      let missing = if c.sparse then some false else has_missing n_display_channels c.display in
      let sending = send_monitor_config c in
      if not c.agent_connected || not (any_display_has_dimensions c.display)
      then some (c, none)
      else (elim missing [ none ↦ none | some b ↦ if b then some (c, none) else sending ])
