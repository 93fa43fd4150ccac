-- ===== src/Tests/MainTests.antt =====
-- Displays and the clipboard at concrete inputs.
use spice_gtk.Base.{
  ℕ, ◌+◌, ◌*◌, ◌/◌, ◌%◌, ◌^◌, ◌<◌, ◌≡◌, inl, refl, true, false, none, some, List, [], ◌∷◌, arith,
  length,
}
use spice_gtk.Agent.{Bytes, Header}
use spice_gtk.Agent.Cutting.{agent_msg_queue_many}
use spice_gtk.Agent.Receiving.{idle}
use spice_gtk.Agent.Reassembly.{feed_all}
use spice_gtk.Displays.{enabled, disabled, Displays, Monitor, MonitorsConfig}
use spice_gtk.Displays.Sending.{entries, send_monitor_config}
use spice_gtk.Displays.Place.{sizes, Row}
use spice_gtk.Displays.Config.{send_monitor_config-Row}
use spice_gtk.Clipboard.{Protocol, Caps, Clip, notify, send, handle_clipboard_msg}
use spice_gtk.Clipboard.Reading.{IsProtocol, received}
use spice_gtk.Clipboard.Delivery.{clip-delivered}
use spice_gtk.Tests.AgentTests.{cells, cells-IsLayout}

-- The second display is nearer to the origin than the first.
abbrev two_displays : Displays
two_displays = record {
  agent_connected = true;
  sparse = false;
  display_color_depth = 0;
  disable_display_position = false;
  disable_display_align = false;
  display =
      record { x = 1024; y = 0; width = 1024; height = 768; state = enabled }
      ∷ (record { x = 0; y = 0; width = 800; height = 600; state = disabled }
          ∷ (record { x = 0; y = 0; width = 640; height = 480; state = enabled } ∷ []));
  timer = some 1;
}

-- A sort of two monitors that are in the wrong order.
abbrev swap_two : List Monitor → List Monitor
swap_two (m ∷ (n ∷ [])) = n ∷ (m ∷ [])
swap_two ms = ms

abbrev shown : List Monitor
shown =
    record { height = 768; width = 1024; depth = 32; x = 1024; y = 0 }
    ∷ (record { height = 480; width = 640; depth = 32; x = 0; y = 0 } ∷ [])

send_monitor_config-Row_example :
    (config : MonitorsConfig) × (send_monitor_config swap_two two_displays
      ≡ some (record two_displays { timer = none }, some config))
    × (config.num_of_monitors ≡ length config.monitors)
    × (sizes config.monitors ≡ sizes shown)
    × Row config.monitors
    × (config.use_pos ≡ true)
unfolding entries
send_monitor_config-Row_example =
    send_monitor_config-Row swap_two two_displays refl refl (λ t. omega arith) (omega arith)

abbrev bytes_of_word : ℕ → Bytes
bytes_of_word n = n % 256 ∷ (n / 256 % 256 ∷ (n / 65536 % 256 ∷ (n / 16777216 % 256 ∷ [])))

abbrev word_of_bytes : Bytes → ℕ
word_of_bytes (a ∷ (b ∷ (c ∷ (d ∷ rest)))) = a + 256 * b + 65536 * c + 16777216 * d
word_of_bytes _ = 0

word_lem :
    (n : ℕ)
    → n < 2 ^ 32
    → n % 256 + 256 * (n / 256 % 256) + 65536 * (n / 65536 % 256) + 16777216 * (n / 16777216 % 256)
      ≡ n
word_lem n small = omega arith

abbrev protocol : Protocol
protocol = record {
  version = 1;
  data_type = 4;
  grab_type = 7;
  request_type = 8;
  release_type = 9;
  clipboard = 0;
  word = bytes_of_word;
  read_word = word_of_bytes;
}

protocol-IsProtocol : IsProtocol protocol
protocol-IsProtocol = record {
  word_length = λ n. refl;
  read_word = λ n rest small. word_lem n small;
  version_fits = omega arith;
  data_fits = omega arith;
  grab_fits = omega arith;
  request_fits = omega arith;
  release_fits = omega arith;
  grab_data = refl;
  request_data = refl;
  request_grab = refl;
  release_data = refl;
  release_grab = refl;
  release_request = refl;
}

abbrev caps : Caps
caps = record {
  agent_connected = true;
  by_demand = true;
  selection = true;
  max_clipboard = some 100;
}

abbrev hello : Clip
hello = notify 1 (104 ∷ (105 ∷ []))

clip-delivered_example :
    (sent : ℕ × List Bytes) × (h : Header) × (payload : Bytes) × (send protocol caps 1 hello
      ≡ some sent)
    × (feed_all cells idle (agent_msg_queue_many cells 1 sent.0 sent.1).queued
        ≡ some (idle, (h, payload) ∷ []))
    × (handle_clipboard_msg protocol true h payload ≡ some (received protocol 1 hello))
clip-delivered_example =
    clip-delivered cells protocol caps 1 hello cells-IsLayout protocol-IsProtocol refl refl
      (inl (refl, omega arith)) (omega arith, omega arith, refl) (omega arith)
