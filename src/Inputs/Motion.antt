-- ===== src/Inputs/Motion.antt =====
-- Mouse motion over a whole session: no movement is lost, and few messages are unacknowledged.
use spice_gtk.Base.Int.{ℤ, pos, pos_part, neg_part, ◌+ℤ◌, ◌-ℤ◌, eqb_ℤ, int_laws}
use spice_gtk.Base.{
  ℕ, bit_and, bit_or, ◌-◌, ◌^◌, ◌≡◌, refl, ap, sym, ◌∙◌, Bool, true, false, not, ◌&&◌, List, [],
  ◌∷◌, ◌++◌, arith, Bool-cases, ◌==◌, inl, inr,
}
use spice_gtk.Inputs.{
  Channel, Inputs, Msg, Sends, mouse_motion_msg, key_modifiers_msg, and_then, mouse_motion,
  mouse_position, send_motion, send_position, handle_ack, handle_modifiers, motion, position,
  button_press, button_release, flush, button_mask, is_ready, no_display, may_move, set_key_locks,
}

-- What moves the state of the mouse, from the widget or the server.
pub data Event : Type 0 where
  move : (dx dy : ℤ) (buttons : ℕ) → Event
  place : (x y display buttons : ℕ) → Event
  press release : (button buttons : ℕ) → Event
  ack : Event
  locks : (mask : ℕ) → Event
  modifiers : (mask : ℕ) → Event

unfoldable pub step : Channel → Event → Inputs → Sends
step ch (move dx dy b) c = motion ch dx dy b c
step ch (place x y d b) c = position ch x y d b c
step ch (press k b) c = button_press ch k b c
step ch (release k b) c = button_release ch k b c
step ch ack c = handle_ack ch c
step ch (locks m) c = set_key_locks ch m c
step ch (modifiers m) c = (handle_modifiers m c, [])

unfoldable pub run : Channel → List Event → Inputs → Sends
unfolding step
run ch [] c = (c, [])
run ch (e ∷ es) c = and_then (step ch e c) (run ch es)

-- The coordinate along one axis: `dx` if `axis` is true, and else `dy`.
abbrev pub along : Bool → ℤ → ℤ → ℤ
along true dx dy = dx
along false dx dy = dy

along-zero : (axis : Bool) → along axis (pos 0) (pos 0) ≡ pos 0
along-zero true = refl
along-zero false = refl

along-add :
    (axis : Bool) (a b c d : ℤ) → along axis (a +ℤ c) (b +ℤ d) ≡ along axis a b +ℤ along axis c d
along-add true a b c d = refl
along-add false a b c d = refl

along_still :
    (axis : Bool) (dx dy : ℤ)
    → (eqb_ℤ dx (pos 0) && eqb_ℤ dy (pos 0)) ≡ true
    → along axis dx dy ≡ pos 0
along_still true dx dy e = ground arith
along_still false dx dy e = ground arith

module _ (axis : Bool) where
  -- The movement that a message carries, and that a call asks for.
  abbrev pub msg_move : Msg → ℤ
  msg_move (mouse_motion_msg b dx dy) = along axis dx dy
  msg_move _ = pos 0

  unfoldable pub sent : List Msg → ℤ
  sent [] = pos 0
  sent (m ∷ ms) = msg_move m +ℤ sent ms

  abbrev pub event_move : Event → ℤ
  event_move (move dx dy b) = along axis dx dy
  event_move _ = pos 0

  unfoldable pub moved : List Event → ℤ
  moved [] = pos 0
  moved (e ∷ es) = event_move e +ℤ moved es

  abbrev pub pending : Inputs → ℤ
  pending c = along axis c.dx c.dy

  sent-append : (ms ns : List Msg) → sent (ms ++ ns) ≡ sent ms +ℤ sent ns
  unfolding sent
  sent-append [] ns = omega int_laws
  sent-append (m ∷ ms) ns = rw (sent-append ms ns) (omega int_laws)

  -- `r` gains movement `d` over the state `c`.
  abbrev Gains : ℤ → Inputs → Sends → Type 0
  Gains d c r = sent r.1 +ℤ pending r.0 ≡ pending c +ℤ d

  idle-Gains : (c : Inputs) → Gains (pos 0) c (c, [])
  unfolding sent
  idle-Gains c = omega int_laws

  -- A message that carries no movement.
  said-Gains : (c : Inputs) (m : Msg) → msg_move m ≡ pos 0 → Gains (pos 0) c (c, m ∷ [])
  unfolding sent
  said-Gains c m e = rw e (omega int_laws)

  mouse_motion-Gains : (c : Inputs) → Gains (pos 0) c (mouse_motion c)
  unfolding mouse_motion sent
  mouse_motion-Gains c = elim (Bool-cases (eqb_ℤ c.dx (pos 0) && eqb_ℤ c.dy (pos 0))) [
    | inl e ↦ rw e (omega int_laws)
    | inr e ↦ rw e (rw (along-zero axis) (omega int_laws))
  ]

  mouse_position-Gains : (c : Inputs) → Gains (pos 0) c (mouse_position c)
  unfolding mouse_position sent
  mouse_position-Gains c = elim (Bool-cases (c.dpy == no_display)) [
    | inl e ↦ rw e (omega int_laws)
    | inr e ↦ rw e (omega int_laws)
  ]

  and_then-Gains :
      (d e t : ℤ) (c : Inputs) (r : Sends) (f : Inputs → Sends)
      → d +ℤ e ≡ t
      → Gains d c r
      → ((c' : Inputs) → Gains e c' (f c'))
      → Gains t c (and_then r f)
  and_then-Gains d e t c (c', ms) f q h k =
      let s = sent-append ms (f c').1 in
      let k' = k c' in
      rw (s, ← q) (omega (int_laws, ap pos_part k', ap neg_part k', ap pos_part h, ap neg_part h))

  zero-Gains :
      (c : Inputs) (r : Sends) (f : Inputs → Sends)
      → Gains (pos 0) c r
      → ((c' : Inputs) → Gains (pos 0) c' (f c'))
      → Gains (pos 0) c (and_then r f)
  zero-Gains c r f = and_then-Gains (pos 0) (pos 0) (pos 0) c r f (omega int_laws)

  send_motion-Gains : (ch : Channel) (c : Inputs) → Gains (pos 0) c (send_motion ch c)
  unfolding send_motion
  send_motion-Gains ch c = elim (Bool-cases ch.read_only) [
    | inl e ↦ rw e (idle-Gains c)
    | inr e ↦ rw e (mouse_motion-Gains c)
  ]

  send_position-Gains : (ch : Channel) (c : Inputs) → Gains (pos 0) c (send_position ch c)
  unfolding send_position
  send_position-Gains ch c = elim (Bool-cases ch.read_only) [
    | inl e ↦ rw e (idle-Gains c)
    | inr e ↦ rw e (mouse_position-Gains c)
  ]

  button-Gains :
      (ch : Channel) (c : Inputs) (m : Msg)
      → msg_move m ≡ pos 0
      → Gains (pos 0) c (and_then (flush ch c) (λ c'. (c', m ∷ [])))
  unfolding flush
  button-Gains ch c m e =
      zero-Gains c (flush ch c) (λ c'. (c', m ∷ []))
        (zero-Gains c (send_motion ch c) (send_position ch) (send_motion-Gains ch c)
          (send_position-Gains ch))
        (λ c'. said-Gains c' m e)

  motion-Gains :
      (ch : Channel) (dx dy : ℤ) (b : ℕ) (c : Inputs)
      → is_ready ch ≡ true
      → Gains (along axis dx dy) c (motion ch dx dy b c)
  unfolding motion
  motion-Gains ch dx dy b c r = elim (Bool-cases (eqb_ℤ dx (pos 0) && eqb_ℤ dy (pos 0))) [
    | inl still ↦
        rw (r, still) (idle-Gains c ∙ ap (◌+ℤ◌ (pending c)) (sym (along_still axis dx dy still)))
    | inr moves ↦
        rw (r, moves)
          (elim (Bool-cases (may_move ch c)) [
            | inl e ↦ rw e (send_motion-Gains ch c' ∙ total)
            | inr e ↦ rw e (idle-Gains c' ∙ total)
          ])
  ]
    where
      c' : Inputs
      c' = record c { bs = b; dx = c.dx +ℤ dx; dy = c.dy +ℤ dy }

      total : pending c' +ℤ pos 0 ≡ pending c +ℤ along axis dx dy
      total = rw (along-add axis c.dx c.dy dx dy) (omega int_laws)

  position-Gains :
      (ch : Channel) (x y d b : ℕ) (c : Inputs)
      → is_ready ch ≡ true
      → Gains (pos 0) c (position ch x y d b c)
  unfolding position
  position-Gains ch x y d b c r = rw r (elim (Bool-cases (may_move ch c)) [
    | inl e ↦ rw e (send_position-Gains ch (record c { bs = b; x = x; y = y; dpy = d }))
    | inr e ↦ rw e (idle-Gains (record c { bs = b; x = x; y = y; dpy = d }))
  ])

  press-Gains : (ch : Channel) (k b : ℕ) (c : Inputs) → Gains (pos 0) c (button_press ch k b c)
  unfolding button_press
  press-Gains ch k b c = elim (Bool-cases (is_ready ch && not ch.read_only)) [
    | inl e ↦ rw e (button-Gains ch (record c { bs = bit_or b (button_mask ch k) }) _ refl)
    | inr e ↦ rw e (idle-Gains c)
  ]

  release-Gains : (ch : Channel) (k b : ℕ) (c : Inputs) → Gains (pos 0) c (button_release ch k b c)
  unfolding button_release
  release-Gains ch k b c = elim (Bool-cases (is_ready ch && not ch.read_only)) [
    | inl e ↦
        rw e (button-Gains ch (record c { bs = bit_and b (2 ^ 32 - 1 - button_mask ch k) }) _ refl)
    | inr e ↦ rw e (idle-Gains c)
  ]

  locks-Gains : (ch : Channel) (m : ℕ) (c : Inputs) → Gains (pos 0) c (set_key_locks ch m c)
  unfolding set_key_locks
  locks-Gains ch m c = elim (Bool-cases ch.read_only) [
    | inl e ↦ rw e (idle-Gains c)
    | inr e ↦ rw e (elim (Bool-cases (is_ready ch)) [
      | inl q ↦ rw q (said-Gains (record c { locks = m }) (key_modifiers_msg m) refl)
      | inr q ↦ rw q (idle-Gains (record c { locks = m }))
    ])
  ]

  ack-Gains : (ch : Channel) (c : Inputs) → Gains (pos 0) c (handle_ack ch c)
  unfolding handle_ack
  ack-Gains ch c =
      let c' : Inputs = record c { motion_count = c.motion_count -ℤ pos ch.bunch } in
      zero-Gains c' (mouse_motion c') mouse_position (mouse_motion-Gains c') mouse_position-Gains

  step-Gains :
      (ch : Channel) (e : Event) (c : Inputs)
      → is_ready ch ≡ true
      → Gains (event_move e) c (step ch e c)
  unfolding step handle_modifiers
  step-Gains ch (move dx dy b) c r = motion-Gains ch dx dy b c r
  step-Gains ch (place x y d b) c r = position-Gains ch x y d b c r
  step-Gains ch (press k b) c r = press-Gains ch k b c
  step-Gains ch (release k b) c r = release-Gains ch k b c
  step-Gains ch ack c r = ack-Gains ch c
  step-Gains ch (locks m) c r = locks-Gains ch m c
  step-Gains ch (modifiers m) c r = idle-Gains (record c { modifiers = m })

  -- In any session of a ready channel no movement is lost or made up: along either axis what the
  -- motion messages carry and what is still pending are together what was pending at the start and
  -- what the calls asked for.
  pub run-sent :
      (ch : Channel) (es : List Event) (c : Inputs)
      → is_ready ch ≡ true
      → sent (run ch es c).1 +ℤ pending (run ch es c).0 ≡ pending c +ℤ moved es
  unfolding run moved
  run-sent ch [] c r = idle-Gains c
  run-sent ch (e ∷ es) c r =
      and_then-Gains (event_move e) (moved es) (moved (e ∷ es)) c (step ch e c) (run ch es) refl
        (step-Gains ch e c r) (λ c'. run-sent ch es c' r)
