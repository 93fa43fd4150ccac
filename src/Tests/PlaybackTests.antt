-- ===== src/Tests/PlaybackTests.antt =====
-- src/channel-playback.c and the cursor of src/spice-util.c at small inputs.
use spice_gtk.Base.{
  ℕ, ◌+◌, ◌*◌, ◌/◌, ◌≡◌, Bool, true, false, Option, none, some, List, [], ◌∷◌, arith, get_elem?,
}
use spice_gtk.Playback.{Codecs, Playback, Message, data_msg, mode_msg, stop_msg, volume_msg}
use spice_gtk.Playback.Signals.{delays, played}
use spice_gtk.Playback.Delay.{run, run-delays}
use spice_gtk.Util.Edge.{Mask, mono_edge_highlight}
use spice_gtk.Util.Edge.Pixels.{mono_edge_highlight-pixel_at, pixel_at}

-- A codec that adds one to each byte, and fails on an empty packet.
abbrev next_bytes : List ℕ → List ℕ
next_bytes [] = []
next_bytes (b ∷ bs) = (b + 1) ∷ next_bytes bs

abbrev decode_next : Option Bool → List ℕ → Option (List ℕ)
decode_next none bytes = none
decode_next (some c) [] = none
decode_next (some c) (b ∷ bs) = some (next_bytes (b ∷ bs))

abbrev codecs : Codecs Bool
codecs = record { raw = 1; celt = 2; opus = 3; create = λ m f. some true; decode = decode_next }

abbrev stream : Playback Bool
stream = record {
  mode = 3;
  codec = some true;
  frame_count = 99;
  last_time = 5;
  nchannels = 2;
  volume = [];
  mute = false;
  is_active = true;
  latency = 0;
  min_latency = 200;
}

abbrev packets : List Message
packets =
    data_msg 6 (1 ∷ [])
    ∷ data_msg 7 []
    ∷ volume_msg 0 []
    ∷ data_msg 8 (2 ∷ [])
    ∷ stop_msg
    ∷ mode_msg 1
    ∷ data_msg 9 (3 ∷ [])
    ∷ []

run-delays_example :
    delays (run codecs packets stream).1 + (99 + 99) / 100
    ≡ (99 + played (run codecs packets stream).1 + 99) / 100
run-delays_example = run-delays codecs packets stream tt (omega arith)

-- An 8 by 3 cursor with one inverted pixel in the middle line.
abbrev and_mask : Mask
and_mask = 0xff ∷ 0xff ∷ 0xff ∷ []

abbrev xor_mask : Mask
xor_mask = 0 ∷ 0x10 ∷ 0 ∷ []

mono_edge_highlight-pixel_at_example :
    get_elem? (mono_edge_highlight 8 3 and_mask xor_mask) (1 * 8 + 2)
    ≡ some (pixel_at 8 3 and_mask xor_mask 2 1)
mono_edge_highlight-pixel_at_example =
    mono_edge_highlight-pixel_at 8 3 and_mask xor_mask 2 1 (omega arith) (omega arith)
