-- ===== src/Displays/Config.antt =====
-- The configuration that `spice_main_channel_send_monitor_config` of src/channel-main.c sends.
use spice_gtk.Base.{
  ℕ, suc, ◌^◌, ◌<◌, ◌≡◌, refl, ap, sym, ◌∙◌, Bool, true, false, not, ◌||◌, none, some, List, [],
  ◌∷◌, if◌then◌else◌, arith, length, Bool-cases, if_true, if_false, inl, inr,
}
use spice_gtk.Displays.{Display, Monitor, MonitorsConfig, Displays, is_enabled}
use spice_gtk.Displays.Aligning.{option_map}
use spice_gtk.Displays.Sending.{entries, count_enabled, send_monitor_config}
use spice_gtk.Displays.Place.{count, widths, sizes, Row}
use spice_gtk.Displays.Align.{monitors_align-Row}

-- The number of monitors is counted before the monitors are written.
length-entries :
    (sparse : Bool) (depth : ℕ) (ds : List Display)
    → length (entries sparse depth ds) ≡ (if sparse then length ds else count_enabled ds)
unfolding entries count_enabled
length-entries true depth [] = refl
length-entries false depth [] = refl
length-entries true depth (d ∷ ds) =
    let rest = length-entries true depth ds in
    elim (Bool-cases (is_enabled d.state)) [
      | inl t ↦ rw t (ap suc rest)
      | inr t ↦ rw t (ap suc rest)
    ]
length-entries false depth (d ∷ ds) =
    let rest = length-entries false depth ds in
    elim (Bool-cases (is_enabled d.state)) [ inl t ↦ rw t (ap suc rest) | inr t ↦ rw t rest ]

length-sizes : (ms : List Monitor) → length (sizes ms) ≡ length ms
length-sizes [] = refl
length-sizes (m ∷ ms) = ap suc (length-sizes ms)

-- While the agent is there and monitors are aligned, a configuration is sent and the timer is off: it
-- says how many monitors it has, and they are the displays' in their order and with their sizes, in a
-- row without overlap. The sort only reorders, and the widths fit 32 bits.
pub send_monitor_config-Row :
    (sort : List Monitor → List Monitor) (c : Displays)
    → c.agent_connected ≡ true
    → c.disable_display_align ≡ false
    → ((t : Monitor)
        → count t (sort (entries c.sparse c.display_color_depth c.display))
          ≡ count t (entries c.sparse c.display_color_depth c.display))
    → widths (sort (entries c.sparse c.display_color_depth c.display)) < 2 ^ 32
    → (config : MonitorsConfig) × (send_monitor_config sort c
        ≡ some (record c { timer = none }, some config))
      × (config.num_of_monitors ≡ length config.monitors)
      × (sizes config.monitors ≡ sizes (entries c.sparse c.display_color_depth c.display))
      × Row config.monitors
      × (config.use_pos ≡ true)
unfolding send_monitor_config
send_monitor_config-Row sort c connected align reorders small =
    let mon = entries c.sparse c.display_color_depth c.display in
    let (row, found, keeps, tidy) = monitors_align-Row sort mon reorders small in
    let same_length = sym (length-sizes row) ∙ (ap length keeps ∙ length-sizes mon) in
    let config : MonitorsConfig = record {
      num_of_monitors = if c.sparse then length c.display else count_enabled c.display;
      use_pos = not c.disable_display_position || not c.disable_display_align;
      monitors = row;
    } in
    (
      config,
      if_true _ _ connected
          ∙ ap
              (option_map
                (λ ms. (record c { timer = none }, some (record config { monitors = ms }))))
              (if_false _ _ align ∙ found),
      sym (same_length ∙ length-entries c.sparse c.display_color_depth c.display),
      keeps,
      tidy,
      ap (λ a. not c.disable_display_position || not a) align
          ∙ or_true (not c.disable_display_position),
    )
  where
    or_true : (b : Bool) → (b || true) ≡ true
    or_true b = ground arith
