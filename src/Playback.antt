-- ===== src/Playback.antt =====
-- src/channel-playback.c: the audio stream of the guest. The decoder (`snd_codec`, of spice-common)
-- is a parameter, as are the numbers that spice-protocol gives to the modes.
pub mod Signals
pub mod Delay
use spice_gtk.Base.{
  ℕ, ◌+◌, ◌-◌, ◌*◌, ◌%◌, ◌^◌, Bool, true, false, not, ◌&&◌, Option, none, some, List, [], ◌∷◌, ◌++◌,
  ltb, ◌==◌, if◌then◌else◌, take,
}

abbrev pub Bytes : Type 0
Bytes = List ℕ

-- `snd_codec_create` and `snd_codec_decode`, where `none` is an error; a codec that is `none` is the
-- null pointer.
pub record Codecs (C : Type 0) : Type 0 where
  pub raw : ℕ
  pub celt : ℕ
  pub opus : ℕ
  pub create : (mode frequency : ℕ) → Option C
  pub decode : Option C → Bytes → Option Bytes

-- `SpicePlaybackChannelPrivate`
pub record Playback (C : Type 0) : Type 0 where
  pub mode : ℕ
  pub codec : Option C
  pub frame_count : ℕ
  pub last_time : ℕ
  pub nchannels : ℕ
  pub volume : List ℕ
  pub mute : Bool
  pub is_active : Bool
  pub latency : ℕ
  pub min_latency : ℕ

-- The signals and notifications that the channel emits, what it asks of the session, and warnings.
pub data Signal : Type 0 where
  playback_data : (pcm : Bytes) → Signal
  playback_get_delay : Signal
  playback_start : (format channels frequency : ℕ) → Signal
  playback_stop : Signal
  notify_volume notify_mute notify_min_latency : Signal
  set_mm_time : (time : ℕ) → Signal
  warning : Signal

-- The server's messages, parsed.
pub data Message : Type 0 where
  data_msg : (time : ℕ) (packet : Bytes) → Message
  mode_msg : (mode : ℕ) → Message
  start_msg : (format channels frequency time : ℕ) → Message
  stop_msg : Message
  volume_msg : (nchannels : ℕ) (volume : List ℕ) → Message
  mute_msg : (mute : Bool) → Message
  latency_msg : (latency_ms : ℕ) → Message

-- `SPICE_PLAYBACK_DEFAULT_LATENCY_MS`
abbrev pub default_latency_ms : ℕ
default_latency_ms = 200

-- `spice_mmtime_diff(t1, t2) > 0`: the difference as a signed 32-bit number
abbrev pub is_after : ℕ → ℕ → Bool
is_after t1 t2 = let diff = (t1 + 2 ^ 32 - t2 % 2 ^ 32) % 2 ^ 32 in ltb 0 diff && ltb diff (2 ^ 31)

abbrev pub warn_if : Bool → List Signal
warn_if true = warning ∷ []
warn_if false = []

module _ {C : Type 0} (codecs : Codecs C) where
  abbrev pub Emits : Type 0
  Emits = Playback C × List Signal

  -- The bytes to play: the packet's own in raw mode.
  abbrev pub samples : Bytes → Playback C → Option Bytes
  samples packet c = if c.mode == codecs.raw then some packet else codecs.decode c.codec packet

  abbrev pub play : Option Bytes → List Signal → Playback C → Emits
  play none ws c = (c, ws ++ (warning ∷ []))
  play (some bytes) ws c = (
    record c { frame_count = (c.frame_count + 1) % 2 ^ 32 },
    ws
        ++ (playback_data bytes
            ∷ (if c.frame_count % 100 == 0 then playback_get_delay ∷ [] else [])),
  )

  unfoldable pub handle_data : ℕ → Bytes → Playback C → Emits
  handle_data time packet c =
      play (samples packet c) (warn_if (is_after c.last_time time)) (record c { last_time = time })

  unfoldable pub handle_mode : ℕ → Playback C → Emits
  handle_mode mode c = (
    record c { mode = mode },
    warn_if (not (mode == codecs.raw) && not (mode == codecs.celt) && not (mode == codecs.opus)),
  )

  -- A decoder that cannot be created leaves the stream active, without the signal.
  unfoldable pub handle_start : ℕ → ℕ → ℕ → ℕ → Playback C → Emits
  handle_start format channels frequency time c =
      let c' = record c {
        frame_count = 0;
        last_time = time;
        is_active = true;
        min_latency = default_latency_ms;
        codec = none;
      } in
      if c.mode == codecs.raw
      then (c', playback_start format channels frequency ∷ [])
      else elim (codecs.create c.mode frequency) [
        | none ↦ (c', warning ∷ [])
        | some codec ↦
            (record c' { codec = some codec }, playback_start format channels frequency ∷ [])
      ]

  unfoldable pub handle_stop : Playback C → Emits
  handle_stop c = (record c { is_active = false }, playback_stop ∷ [])

  unfoldable pub handle_set_volume : ℕ → List ℕ → Playback C → Emits
  handle_set_volume nchannels volume c =
      if nchannels == 0
      then (c, warning ∷ [])
      else (record c { nchannels = nchannels; volume = take nchannels volume }, notify_volume ∷ [])

  unfoldable pub handle_set_mute : Bool → Playback C → Emits
  handle_set_mute mute c = (record c { mute = mute }, notify_mute ∷ [])

  unfoldable pub handle_set_latency : ℕ → Playback C → Emits
  handle_set_latency latency_ms c = (record c { min_latency = latency_ms }, notify_min_latency ∷ [])

  -- The table of `channel_set_handlers`
  unfoldable pub handle : Message → Playback C → Emits
  handle (data_msg time packet) c = handle_data time packet c
  handle (mode_msg mode) c = handle_mode mode c
  handle (start_msg format channels frequency time) c =
      handle_start format channels frequency time c
  handle stop_msg c = handle_stop c
  handle (volume_msg nchannels volume) c = handle_set_volume nchannels volume c
  handle (mute_msg mute) c = handle_set_mute mute c
  handle (latency_msg latency_ms) c = handle_set_latency latency_ms c

  -- The session is told the time of the last packet less the delay; `false` if there is no session.
  unfoldable pub set_delay : Bool → ℕ → Playback C → Emits
  set_delay session delay_ms c = (
    record c { latency = delay_ms },
    if session then set_mm_time ((c.last_time + 2 ^ 32 - delay_ms % 2 ^ 32) % 2 ^ 32) ∷ [] else [],
  )

  unfoldable pub get_latency : Playback C → ℕ
  get_latency c = if c.is_active then c.latency else 0

  -- `g_return_if_fail` on a stream that is not active
  unfoldable pub sync_latency : Playback C → List Signal
  sync_latency c = if c.is_active then notify_min_latency ∷ [] else []
