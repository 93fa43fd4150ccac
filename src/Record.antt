-- ===== src/Record.antt =====
-- src/channel-record.c: recorded audio, cut into the frames of the codec. The codec and its choice are
-- parameters; its state is a number.
pub mod Frames
use spice_gtk.Base.{
  ℕ, zero, suc, ◌-◌, ◌*◌, ◌/◌, min, Bool, true, false, not, ◌||◌, Option, none, some, List, [], ◌∷◌,
  ◌++◌, ltb, ◌==◌, if◌then◌else◌, length, take, drop,
}

abbrev pub Bytes : Type 0
Bytes = List ℕ

-- `SpiceRecordChannelPrivate`. `has_frame` says that `last_frame` is allocated; `last_frame` has the
-- bytes in front of `last_frame_current`, which is its length.
pub record Record : Type 0 where
  pub mode : ℕ
  pub started : Bool
  pub codec : Option ℕ
  pub frame_bytes : ℕ
  pub has_frame : Bool
  pub last_frame : Bytes
  pub volume : List ℕ
  pub mute : Bool

pub data Message : Type 0 where
  record_mode : (time mode : ℕ) → Message
  start_mark : (time : ℕ) → Message
  record_data : (time : ℕ) (frame : Bytes) → Message

pub data Signal : Type 0 where
  record_start : (format channels frequency : ℕ) → Signal
  record_stop : Signal
  notify_volume : Signal
  notify_mute : Signal

-- What the code uses of snd_codec.c, with SND_CODEC_MAX_FRAME_SIZE and SPICE_AUDIO_DATA_MODE_RAW. A
-- codec that cannot be created, and a frame that cannot be encoded, are `none`.
pub record Codec : Type 0 where
  pub raw : ℕ
  pub max_frame_size : ℕ
  pub create : ℕ → ℕ → Option ℕ
  pub frame_size : ℕ → ℕ
  pub encode : Option ℕ → Bytes → Option ℕ × Option Bytes

-- The bytes that a round takes, and the frame that they make with those that are there.
abbrev pub take_frame : Record → Bytes → ℕ × Bytes
take_frame c data' =
    let n1 = min (length data') (c.frame_bytes - length c.last_frame) in
    let n2 = min (length data') c.frame_bytes in
    if ltb 0 (length c.last_frame) then (n1, c.last_frame ++ take n1 data') else (n2, take n2 data')

abbrev pub add_message : Message → Option (Record × List Message) → Option (Record × List Message)
add_message m none = none
add_message m (some (c, ms)) = some (c, m ∷ ms)

-- A frame is sent, and what comes behind it; a frame that cannot be encoded ends the call.
abbrev pub send_frame :
    ℕ
    → Record
    → Bytes
    → Option Bytes
    → Option (Record × List Message)
    → Option (Record × List Message)
send_frame time c frame none rest =
    some (record c { last_frame = if ltb 0 (length c.last_frame) then frame else [] }, [])
send_frame time c frame (some bytes) rest = add_message (record_data time bytes) rest

module _ (k : Codec) where
  -- In raw mode the frame is sent as it is.
  abbrev pub encode_frame : Record → Bytes → Record × Option Bytes
  encode_frame c frame =
      let (codec, out) = k.encode c.codec frame in
      (
        record c { codec = if c.mode == k.raw then c.codec else codec },
        if c.mode == k.raw then some frame else out,
      )

  -- `while (bytes > 0)`; `none` is a loop that goes on.
  unfoldable pub frame_loop : ℕ → ℕ → Record → Bytes → Option (Record × List Message)
  frame_loop zero time c data' = if length data' == 0 then some (c, []) else none
  frame_loop (suc fuel) time c data' =
      let (n, frame) = take_frame c data' in
      let (c1, out) = encode_frame c frame in
      let rest = frame_loop fuel time (record c1 { last_frame = [] }) (drop n data') in
      if length data' == 0
      then some (c, [])
      else (if ltb (length frame) c.frame_bytes
          then some (record c { last_frame = frame }, [])
          else send_frame time c1 frame out rest)

  abbrev pub add_messages :
      List Message → Option (Record × List Message) → Option (Record × List Message)
  add_messages ms none = none
  add_messages ms (some (c, more)) = some (c, ms ++ more)

  -- One round more than there are bytes, for a full frame that could not be encoded before.
  unfoldable pub send_data : Bool → Bytes → ℕ → Record → Option (Record × List Message)
  unfolding frame_loop
  send_data read_only data' time c =
      let sent = frame_loop (suc (length data')) time (record c { started = true }) data' in
      let start = if c.started then [] else record_mode time c.mode ∷ (start_mark time ∷ []) in
      if not c.has_frame || read_only then some (c, []) else add_messages start sent

  -- `desired` is the mode of `spice_record_desired_mode`, `s16` the only format.
  unfoldable pub handle_start : (ℕ → ℕ) → ℕ → ℕ → ℕ → ℕ → Record → Record × List Signal
  handle_start desired s16 format channels frequency c0 =
      let c = record c0 { mode = desired frequency } in
      let codec = k.create (desired frequency) frequency in
      -- `g_malloc0` of no bytes is NULL.
      let framed : Option ℕ → ℕ → Record × List Signal = λ codec' size. (
        record c {
          codec = codec';
          frame_bytes = size * 16 * channels / 8;
          has_frame = not (size * 16 * channels / 8 == 0);
          last_frame = [];
        },
        record_start format channels frequency ∷ [],
      ) in
      if format == s16
      then (if c.mode == k.raw then framed none k.max_frame_size else (elim codec [
        | none ↦ (record c { codec = none }, [])
        | some codec' ↦ framed (some codec') (k.frame_size codec')
      ]))
      else (c, [])

unfoldable pub handle_stop : Record → Record × List Signal
handle_stop c = (record c { started = false }, record_stop ∷ [])

unfoldable pub handle_set_volume : List ℕ → Record → Record × List Signal
handle_set_volume volume c =
    if length volume == 0 then (c, []) else (record c { volume = volume }, notify_volume ∷ [])

unfoldable pub handle_set_mute : Bool → Record → Record × List Signal
handle_set_mute mute c = (record c { mute = mute }, notify_mute ∷ [])

unfoldable pub channel_reset : Record → Record × List Signal
channel_reset c = (
  record c { has_frame = false; last_frame = []; started = false; codec = none },
  record_stop ∷ [],
)
