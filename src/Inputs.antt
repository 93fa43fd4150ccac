-- ===== src/Inputs.antt =====
-- src/channel-inputs.c: mouse and keyboard messages. `int` values that the code adds up are
-- integers (signed overflow is undefined in C); masks and coordinates are 32-bit patterns.
pub mod Motion
pub mod Flow
use spice_gtk.Base.Int.{ℤ, pos, ◌+ℤ◌, ◌-ℤ◌, ltb_ℤ, eqb_ℤ}
use spice_gtk.Base.{
  ℕ, ◌+◌, ◌-◌, ◌*◌, ◌/◌, ◌%◌, ◌^◌, bit_and, bit_or, Bool, true, false, not, ◌&&◌, ◌||◌, Option,
  none, some, List, [], ◌∷◌, ◌++◌, ◌==◌, ltb, if◌then◌else◌,
}
use spice_gtk.Util.Scancode.{make_scancode}

-- `enum spice_channel_state`
pub data ChannelState : Type 0 where
  unconnected reconnecting connecting ready switching migrating migration_handshake : ChannelState

-- What the code asks of its channel; `bunch` and the masks are constants of spice-protocol.
pub record Channel : Type 0 where
  pub state : ChannelState
  pub read_only : Bool
  pub cap_key_scancode : Bool
  pub bunch : ℕ
  pub button_left : ℕ
  pub button_middle : ℕ
  pub button_right : ℕ
  pub mask_left : ℕ
  pub mask_middle : ℕ
  pub mask_right : ℕ

-- `SpiceInputsChannelPrivate`
pub record Inputs : Type 0 where
  pub bs : ℕ
  pub dx : ℤ
  pub dy : ℤ
  pub x : ℕ
  pub y : ℕ
  pub dpy : ℕ
  pub motion_count : ℤ
  pub modifiers : ℕ
  pub locks : ℕ

-- The messages to the server.
pub data Msg : Type 0 where
  mouse_motion_msg : (buttons : ℕ) (dx dy : ℤ) → Msg
  mouse_position_msg : (buttons x y display : ℕ) → Msg
  mouse_press_msg mouse_release_msg : (button buttons : ℕ) → Msg
  key_down_msg key_up_msg : (code : ℕ) → Msg
  key_scancode_msg : (bytes : List ℕ) → Msg
  key_modifiers_msg : (locks : ℕ) → Msg

abbrev pub is_ready : Channel → Bool
is_ready ch = elim ch.state [ ready ↦ true | _ ↦ false ]

-- `(unsigned) -1`
abbrev pub no_display : ℕ
no_display = 2 ^ 32 - 1

-- The state after a call, with the messages it sends, in order.
abbrev pub Sends : Type 0
Sends = Inputs × List Msg

-- What `f` sends after `r`.
abbrev pub and_then : Sends → (Inputs → Sends) → Sends
and_then (c, ms) f = let r = f c in (r.0, ms ++ r.1)

unfoldable pub mouse_motion : Inputs → Sends
mouse_motion c = if eqb_ℤ c.dx (pos 0) && eqb_ℤ c.dy (pos 0) then (c, []) else (
  record c { motion_count = c.motion_count +ℤ pos 1; dx = pos 0; dy = pos 0 },
  mouse_motion_msg c.bs c.dx c.dy ∷ [],
)

unfoldable pub mouse_position : Inputs → Sends
mouse_position c = if c.dpy == no_display then (c, []) else (
  record c { motion_count = c.motion_count +ℤ pos 1; dpy = no_display },
  mouse_position_msg c.bs c.x c.y c.dpy ∷ [],
)

unfoldable pub send_position : Channel → Inputs → Sends
unfolding mouse_position
send_position ch c = if ch.read_only then (c, []) else mouse_position c

unfoldable pub send_motion : Channel → Inputs → Sends
unfolding mouse_motion
send_motion ch c = if ch.read_only then (c, []) else mouse_motion c

-- `inputs_handle_init`, and `inputs_handle_modifiers`, which does the same
unfoldable pub handle_modifiers : ℕ → Inputs → Inputs
handle_modifiers modifiers c = record c { modifiers = modifiers }

unfoldable pub handle_ack : Channel → Inputs → Sends
unfolding mouse_motion mouse_position
handle_ack ch c =
    and_then (mouse_motion (record c { motion_count = c.motion_count -ℤ pos ch.bunch }))
      mouse_position

abbrev pub may_move : Channel → Inputs → Bool
may_move ch c = ltb_ℤ c.motion_count (pos (ch.bunch * 2))

unfoldable pub motion : Channel → ℤ → ℤ → ℕ → Inputs → Sends
unfolding send_motion
motion ch dx dy button_state c =
    if is_ready ch && not (eqb_ℤ dx (pos 0) && eqb_ℤ dy (pos 0))
    then (let c' = record c { bs = button_state; dx = c.dx +ℤ dx; dy = c.dy +ℤ dy } in
        if may_move ch c' then send_motion ch c' else (c', []))
    else (c, [])

unfoldable pub position : Channel → ℕ → ℕ → ℕ → ℕ → Inputs → Sends
unfolding send_position
position ch x y display button_state c =
    if is_ready ch
    then (let c' = record c { bs = button_state; x = x; y = y; dpy = display } in
        if may_move ch c' then send_position ch c' else (c', []))
    else (c, [])

-- The bit of a button, and 0 for a button that the `switch` does not name.
unfoldable pub button_mask : Channel → ℕ → ℕ
button_mask ch button =
    if button == ch.button_left
    then ch.mask_left
    else if button == ch.button_middle
    then ch.mask_middle
    else if button == ch.button_right
    then ch.mask_right
    else 0

-- Motion and position go out before the button, whatever `motion_count` is.
unfoldable pub flush : Channel → Inputs → Sends
unfolding send_motion send_position
flush ch c = and_then (send_motion ch c) (send_position ch)

unfoldable pub button_press : Channel → ℕ → ℕ → Inputs → Sends
unfolding button_mask flush
button_press ch button button_state c =
    if is_ready ch && not ch.read_only
    then (let state = bit_or button_state (button_mask ch button) in
        and_then (flush ch (record c { bs = state })) λ c'. (c', mouse_press_msg button state ∷ []))
    else (c, [])

-- `button_state &= ~mask`
unfoldable pub button_release : Channel → ℕ → ℕ → Inputs → Sends
unfolding button_mask flush
button_release ch button button_state c =
    if is_ready ch && not ch.read_only
    then (let state = bit_and button_state (2 ^ 32 - 1 - button_mask ch button) in
        and_then (flush ch (record c { bs = state }))
          λ c'. (c', mouse_release_msg button state ∷ []))
    else (c, [])

abbrev pub may_type : Channel → Bool
may_type ch = is_ready ch && not ch.read_only

unfoldable pub key_press : Channel → ℕ → List Msg
key_press ch scancode = if may_type ch then key_down_msg (make_scancode scancode false) ∷ [] else []

unfoldable pub key_release : Channel → ℕ → List Msg
key_release ch scancode = if may_type ch then key_up_msg (make_scancode scancode true) ∷ [] else []

-- The buffer of one message with both codes.
unfoldable pub scancode_bytes : ℕ → List ℕ
scancode_bytes scancode =
    let down = make_scancode scancode false in
    let up = make_scancode scancode true in
    if ltb scancode 0x100
    then (down % 2 ^ 8) ∷ (up % 2 ^ 8) ∷ []
    else (down % 2 ^ 8) ∷ (down / 2 ^ 8) ∷ (up % 2 ^ 8) ∷ (up / 2 ^ 8) ∷ []

unfoldable pub key_press_and_release : Channel → ℕ → List Msg
unfolding key_press key_release scancode_bytes
key_press_and_release ch scancode =
    if may_type ch
    then if ch.cap_key_scancode
      then key_scancode_msg (scancode_bytes scancode) ∷ []
      else key_press ch scancode ++ key_release ch scancode
    else []

-- The locks are kept also where no message can be sent.
unfoldable pub set_key_locks_msg : Channel → ℕ → Inputs → Sends
set_key_locks_msg ch locks c =
    let c' = record c { locks = locks } in
    if is_ready ch then (c', key_modifiers_msg locks ∷ []) else (c', [])

unfoldable pub set_key_locks : Channel → ℕ → Inputs → Sends
unfolding set_key_locks_msg
set_key_locks ch locks c = if ch.read_only then (c, []) else set_key_locks_msg ch locks c

unfoldable pub channel_up : Channel → Inputs → Sends
unfolding set_key_locks_msg
channel_up ch c = if ch.read_only then (c, []) else set_key_locks_msg ch c.locks c

-- `spice_inputs_channel_reset`, up to the reset of the parent class
unfoldable pub reset : Inputs → Inputs
reset c = record c { motion_count = pos 0 }
