-- ===== src/Inputs/Flow.antt =====
-- How many motion messages may be unacknowledged, and what a read-only channel sends.
use spice_gtk.Base.Int.{ℤ, pos, ◌+ℤ◌, ◌-ℤ◌, ◌≤ℤ◌, eqb_ℤ, +ℤ_parts, int_laws}
use spice_gtk.Base.{
  ℕ, ◌+◌, ◌*◌, ◌%◌, ◌≤◌, ◌<◌, ◌≡◌, refl, ap, true, false, not, ◌&&◌, List, [], ◌∷◌, ◌++◌, ltb,
  if◌then◌else◌, arith, Bool-cases, ◌==◌, inl, inr,
}
use spice_gtk.Util.Scancode.{make_scancode_release, prefix_of}
use spice_gtk.Inputs.{
  Channel, Inputs, mouse_motion, mouse_position, send_motion, send_position, handle_ack,
  handle_modifiers, motion, position, button_press, button_release, is_ready, may_move, no_display,
  set_key_locks, key_press, key_release, key_press_and_release, scancode_bytes, key_scancode_msg,
}
use spice_gtk.Inputs.Motion.{Event, move, place, press, release, ack, locks, modifiers, step, run}

-- Sessions in which no button is pressed or released.
abbrev pub NoButtons : List Event → Type 0
NoButtons [] = Unit {0}
NoButtons (press k b ∷ es) = ⊥
NoButtons (release k b ∷ es) = ⊥
NoButtons (_ ∷ es) = NoButtons es

-- The number of messages by which one step can raise the count.
mouse_motion_count : (c : Inputs) → (mouse_motion c).0.motion_count ≤ℤ c.motion_count +ℤ pos 1
unfolding mouse_motion
mouse_motion_count c = elim (Bool-cases (eqb_ℤ c.dx (pos 0) && eqb_ℤ c.dy (pos 0))) [
  | inl e ↦ rw e (omega int_laws)
  | inr e ↦ rw e (omega int_laws)
]

mouse_position_count : (c : Inputs) → (mouse_position c).0.motion_count ≤ℤ c.motion_count +ℤ pos 1
unfolding mouse_position
mouse_position_count c = elim (Bool-cases (c.dpy == no_display)) [
  | inl e ↦ rw e (omega int_laws)
  | inr e ↦ rw e (omega int_laws)
]

module _ (ch : Channel) (two : 2 ≤ ch.bunch) where
  abbrev pub Within : Inputs → Type 0
  Within c = c.motion_count ≤ℤ pos (ch.bunch * 2)

  send_motion-Within : (c : Inputs) → may_move ch c ≡ true → Within (send_motion ch c).0
  unfolding send_motion
  send_motion-Within c h = elim (Bool-cases ch.read_only) [
    | inl e ↦ rw e (ground arith)
    | inr e ↦
        let k = mouse_motion_count c in
        let l : c.motion_count +ℤ pos 1 ≤ℤ pos (ch.bunch * 2) = below c h in rw e (omega int_laws)
  ]
    where
      below : (c : Inputs) → may_move ch c ≡ true → c.motion_count +ℤ pos 1 ≤ℤ pos (ch.bunch * 2)
      below c h = let p = +ℤ_parts c.motion_count (pos 1) in ground arith

  send_position-Within : (c : Inputs) → may_move ch c ≡ true → Within (send_position ch c).0
  unfolding send_position
  send_position-Within c h = elim (Bool-cases ch.read_only) [
    | inl e ↦ rw e (ground arith)
    | inr e ↦
        let k = mouse_position_count c in
        let p = +ℤ_parts c.motion_count (pos 1) in rw e (ground arith)
  ]

  motion-Within : (dx dy : ℤ) (b : ℕ) (c : Inputs) → Within c → Within (motion ch dx dy b c).0
  unfolding motion
  motion-Within dx dy b c w =
      elim (Bool-cases (is_ready ch && not (eqb_ℤ dx (pos 0) && eqb_ℤ dy (pos 0)))) [
        | inr e ↦ rw e w
        | inl e ↦ rw e (elim (Bool-cases (may_move ch c)) [
          | inl q ↦
              rw q (send_motion-Within (record c { bs = b; dx = c.dx +ℤ dx; dy = c.dy +ℤ dy }) q)
          | inr q ↦ rw q w
        ])
      ]

  position-Within : (x y d b : ℕ) (c : Inputs) → Within c → Within (position ch x y d b c).0
  unfolding position
  position-Within x y d b c w = elim (Bool-cases (is_ready ch)) [
    | inr e ↦ rw e w
    | inl e ↦ rw e (elim (Bool-cases (may_move ch c)) [
      | inl q ↦ rw q (send_position-Within (record c { bs = b; x = x; y = y; dpy = d }) q)
      | inr q ↦ rw q w
    ])
  ]

  ack-Within : (c : Inputs) → Within c → Within (handle_ack ch c).0
  unfolding handle_ack
  ack-Within c w =
      let c' : Inputs = record c { motion_count = c.motion_count -ℤ pos ch.bunch } in
      let a = mouse_motion_count c' in
      let b = mouse_position_count (mouse_motion c').0 in omega (int_laws, a, b)

  locks-Within : (m : ℕ) (c : Inputs) → Within c → Within (set_key_locks ch m c).0
  unfolding set_key_locks
  locks-Within m c w = elim (Bool-cases ch.read_only) [
    | inl e ↦ rw e w
    | inr e ↦ rw e (elim (Bool-cases (is_ready ch)) [ inl q ↦ rw q w | inr q ↦ rw q w ])
  ]

  -- Without button events no session of motions, positions and acknowledgements raises the count of
  -- unacknowledged messages above twice the size of a bunch, where a bunch is two messages or more.
  pub run-Within : (es : List Event) (c : Inputs) → NoButtons es → Within c → Within (run ch es c).0
  unfolding run step handle_modifiers
  run-Within [] c n w = w
  run-Within (move dx dy b ∷ es) c n w = run-Within es _ n (motion-Within dx dy b c w)
  run-Within (place x y d b ∷ es) c n w = run-Within es _ n (position-Within x y d b c w)
  run-Within (press k b ∷ es) c n w = absurd n
  run-Within (release k b ∷ es) c n w = absurd n
  run-Within (ack ∷ es) c n w = run-Within es _ n (ack-Within c w)
  run-Within (locks m ∷ es) c n w = run-Within es _ n (locks-Within m c w)
  run-Within (modifiers m ∷ es) c n w = run-Within es (record c { modifiers = m }) n w

abbrev pub NoAcks : List Event → Type 0
NoAcks [] = Unit {0}
NoAcks (ack ∷ es) = ⊥
NoAcks (_ ∷ es) = NoAcks es

module _ (ch : Channel) (ro : ch.read_only ≡ true) where
  step-silent : (e : Event) (c : Inputs) → NoAcks (e ∷ []) → (step ch e c).1 ≡ []
  unfolding step motion position button_press button_release set_key_locks send_motion send_position
  step-silent (move dx dy b) c n = ground arith
  step-silent (place x y d b) c n = ground arith
  step-silent (press k b) c n = ground arith
  step-silent (release k b) c n = ground arith
  step-silent ack c n = absurd n
  step-silent (locks m) c n = ground arith
  step-silent (modifiers m) c n = refl

  run-cons :
      (e : Event) (es : List Event) (c : Inputs)
      → NoAcks (e ∷ [])
      → ((c' : Inputs) → (run ch es c').1 ≡ [])
      → (run ch (e ∷ es) c).1 ≡ []
  unfolding run
  run-cons e es c n h = rw (step-silent e c n) (h (step ch e c).0)

  run_events : (es : List Event) (c : Inputs) → NoAcks es → (run ch es c).1 ≡ []
  unfolding run
  run_events [] c n = refl
  run_events (move dx dy b ∷ es) c n = run-cons (move dx dy b) es c tt λ c'. run_events es c' n
  run_events (place x y d b ∷ es) c n = run-cons (place x y d b) es c tt λ c'. run_events es c' n
  run_events (press k b ∷ es) c n = run-cons (press k b) es c tt λ c'. run_events es c' n
  run_events (release k b ∷ es) c n = run-cons (release k b) es c tt λ c'. run_events es c' n
  run_events (ack ∷ es) c n = absurd n
  run_events (locks m ∷ es) c n = run-cons (locks m) es c tt λ c'. run_events es c' n
  run_events (modifiers m ∷ es) c n = run-cons (modifiers m) es c tt λ c'. run_events es c' n

  -- A read-only channel sends nothing to the server, whatever the widget asks for, until the server
  -- acknowledges motion.
  pub run_silent :
      (es : List Event) (c : Inputs) (scancode : ℕ)
      → NoAcks es
      → ((run ch es c).1 ≡ [])
        × (key_press ch scancode ≡ [])
        × (key_release ch scancode ≡ [])
        × (key_press_and_release ch scancode ≡ [])
  unfolding key_press key_release key_press_and_release
  run_silent es c s n = (run_events es c n, ground arith, ground arith, ground arith)

-- The bytes of a code of scancode `s` with this last byte.
abbrev pub code_bytes : ℕ → ℕ → List ℕ
code_bytes s last = if ltb s 0x100 then last ∷ [] else prefix_of s ∷ last ∷ []

-- On a ready channel that may write, with the server's capability, pressing and releasing a scancode
-- below 0x400 sends one message: the bytes of the press, prefix first, then those of the release.
pub key_press_and_release_lem :
    (ch : Channel) (s : ℕ)
    → is_ready ch ≡ true
    → ch.read_only ≡ false
    → ch.cap_key_scancode ≡ true
    → s < 0x400
    → key_press_and_release ch s
      ≡ key_scancode_msg (code_bytes s (s % 0x80) ++ code_bytes s (s % 0x80 + 0x80)) ∷ []
unfolding key_press_and_release scancode_bytes
key_press_and_release_lem ch s r w cap h =
    rw (r, w, cap) (ap (λ b. key_scancode_msg b ∷ []) (bytes s h))
  where
    bytes :
        (s : ℕ)
        → s < 0x400
        → scancode_bytes s ≡ code_bytes s (s % 0x80) ++ code_bytes s (s % 0x80 + 0x80)
    bytes s h = let p = make_scancode_release s h in ground arith
