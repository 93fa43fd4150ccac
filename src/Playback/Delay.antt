-- ===== src/Playback/Delay.antt =====
-- How often src/channel-playback.c asks for the delay, and what it then answers.
use spice_gtk.Base.{
  ℕ, ◌+◌, ◌/◌, ◌%◌, ◌^◌, ◌≤◌, ◌<◌, ◌≡◌, refl, ap, sym, ◌∙◌, Bool, true, false, not, ◌&&◌, Option,
  none, some, List, [], ◌∷◌, ◌++◌, ◌==◌, if◌then◌else◌, arith, length, ==_iff, ◌≢◌, Bool-cases,
  Option-cases, inl, inr,
}
use spice_gtk.Playback.{
  Bytes, Codecs, Playback, Signal, Message, data_msg, mode_msg, start_msg, stop_msg, volume_msg,
  mute_msg, latency_msg, handle, handle_data, handle_mode, handle_start, handle_stop,
  handle_set_volume, handle_set_mute, handle_set_latency, set_delay, get_latency, play, samples,
  warn_if, is_after,
}
use spice_gtk.Playback.Signals.{played, delays, played-append, delays-append}

-- Whether the stream is on after the messages: the last start or stop decides.
abbrev pub on_after : List Message → Bool → Bool
on_after [] b = b
on_after (start_msg f ch fr t ∷ ms) b = on_after ms true
on_after (stop_msg ∷ ms) b = on_after ms false
on_after (_ ∷ ms) b = on_after ms b

abbrev pub NoStart : List Message → Type 0
NoStart [] = Unit {0}
NoStart (start_msg f ch fr t ∷ ms) = ⊥
NoStart (_ ∷ ms) = NoStart ms

module _ {C : Type 0} (codecs : Codecs C) where
  unfoldable pub run : List Message → Playback C → Playback C × List Signal
  run [] c = (c, [])
  run (m ∷ ms) c = let r = handle codecs m c in let rest = run ms r.0 in (rest.0, r.1 ++ rest.1)

  -- What a message does to the count of packets and to the signals that go with it.
  abbrev Counted : Playback C → Playback C × List Signal → Type 0
  Counted c r =
      (r.0.frame_count ≡ c.frame_count + played r.1)
      × (delays r.1 + (c.frame_count + 99) / 100 ≡ (r.0.frame_count + 99) / 100)
      × (played r.1 ≤ 1)

  warn-Counted :
      (b : Bool) (c : Playback C)
      → (c.frame_count ≡ c.frame_count + played (warn_if b))
        × (delays (warn_if b) + (c.frame_count + 99) / 100 ≡ (c.frame_count + 99) / 100)
        × (played (warn_if b) ≤ 1)
  warn-Counted true c = (omega arith, omega arith, omega arith)
  warn-Counted false c = (omega arith, omega arith, omega arith)

  play-Counted :
      (b : Bool) (o : Option Bytes) (t : ℕ) (c : Playback C)
      → c.frame_count + 1 < 2 ^ 32
      → Counted c (play codecs o (warn_if b) (record c { last_time = t }))
  play-Counted true none t c small = (omega arith, omega arith, omega arith)
  play-Counted false none t c small = (omega arith, omega arith, omega arith)
  play-Counted true (some bytes) t c small = elim (Bool-cases (c.frame_count % 100 == 0)) [
    | inl e ↦
        let z = (==_iff (c.frame_count % 100) 0).0 e in rw e (omega arith, omega arith, omega arith)
    | inr e ↦
        let z : c.frame_count % 100 ≢ 0 = ground arith in
        rw e (omega arith, omega arith, omega arith)
  ]
  play-Counted false (some bytes) t c small = elim (Bool-cases (c.frame_count % 100 == 0)) [
    | inl e ↦
        let z = (==_iff (c.frame_count % 100) 0).0 e in rw e (omega arith, omega arith, omega arith)
    | inr e ↦
        let z : c.frame_count % 100 ≢ 0 = ground arith in
        rw e (omega arith, omega arith, omega arith)
  ]

  handle-Counted :
      (m : Message) (c : Playback C)
      → NoStart (m ∷ [])
      → c.frame_count + 1 < 2 ^ 32
      → Counted c (handle codecs m c)
  unfolding handle handle_data handle_mode handle_stop handle_set_volume handle_set_mute
      handle_set_latency
  handle-Counted (data_msg time packet) c n small =
      play-Counted (is_after c.last_time time)
        (samples codecs packet (record c { last_time = time })) time c small
  handle-Counted (mode_msg mode) c n small =
      warn-Counted
        (not (mode == codecs.raw) && not (mode == codecs.celt) && not (mode == codecs.opus)) c
  handle-Counted (start_msg f ch fr t) c n small = absurd n
  handle-Counted stop_msg c n small = (omega arith, omega arith, omega arith)
  handle-Counted (volume_msg nch vol) c n small = elim (Bool-cases (nch == 0)) [
    | inl e ↦ rw e (omega arith, omega arith, omega arith)
    | inr e ↦ rw e (omega arith, omega arith, omega arith)
  ]
  handle-Counted (mute_msg mute) c n small = (omega arith, omega arith, omega arith)
  handle-Counted (latency_msg l) c n small = (omega arith, omega arith, omega arith)

  run-cons-Counted :
      (m : Message) (ms : List Message) (c : Playback C)
      → NoStart (m ∷ [])
      → c.frame_count + length (m ∷ ms) < 2 ^ 32
      → ((c' : Playback C)
          → c'.frame_count + length ms < 2 ^ 32
          → delays (run ms c').1 + (c'.frame_count + 99) / 100
            ≡ (c'.frame_count + played (run ms c').1 + 99) / 100)
      → delays (run (m ∷ ms) c).1 + (c.frame_count + 99) / 100
        ≡ (c.frame_count + played (run (m ∷ ms) c).1 + 99) / 100
  unfolding run
  run-cons-Counted m ms c n small ih =
      let (k, d, one) = handle-Counted m c n (omega arith) in
      let r = handle codecs m c in
      let i = ih r.0 (omega arith) in
      rw (delays-append r.1 (run ms r.0).1, played-append r.1 (run ms r.0).1)
        (omega (arith, k, d, i))

  -- Until the next start, with fewer than 2^32 packets, the channel asks for the delay at the first
  -- packet that it plays and at every hundredth after it, whatever other messages come between:
  -- from a count of 0, `p` packets make p / 100 requests, rounded up.
  pub run-delays :
      (ms : List Message) (c : Playback C)
      → NoStart ms
      → c.frame_count + length ms < 2 ^ 32
      → delays (run ms c).1 + (c.frame_count + 99) / 100
        ≡ (c.frame_count + played (run ms c).1 + 99) / 100
  unfolding run
  run-delays [] c n small = omega arith
  run-delays (data_msg t b ∷ ms) c n small =
      run-cons-Counted (data_msg t b) ms c tt small (λ c' s. run-delays ms c' n s)
  run-delays (mode_msg m ∷ ms) c n small =
      run-cons-Counted (mode_msg m) ms c tt small (λ c' s. run-delays ms c' n s)
  run-delays (start_msg f ch fr t ∷ ms) c n small = absurd n
  run-delays (stop_msg ∷ ms) c n small =
      run-cons-Counted stop_msg ms c tt small (λ c' s. run-delays ms c' n s)
  run-delays (volume_msg k v ∷ ms) c n small =
      run-cons-Counted (volume_msg k v) ms c tt small (λ c' s. run-delays ms c' n s)
  run-delays (mute_msg m ∷ ms) c n small =
      run-cons-Counted (mute_msg m) ms c tt small (λ c' s. run-delays ms c' n s)
  run-delays (latency_msg l ∷ ms) c n small =
      run-cons-Counted (latency_msg l) ms c tt small (λ c' s. run-delays ms c' n s)

  play-active :
      (o : Option Bytes) (ws : List Signal) (c : Playback C)
      → (play codecs o ws c).0.is_active ≡ c.is_active
  play-active none ws c = refl
  play-active (some bytes) ws c = refl

  handle-active :
      (m : Message) (c : Playback C)
      → (handle codecs m c).0.is_active ≡ on_after (m ∷ []) c.is_active
  unfolding handle handle_data handle_mode handle_start handle_stop handle_set_volume
      handle_set_mute handle_set_latency
  handle-active (data_msg time packet) c =
      play-active (samples codecs packet (record c { last_time = time }))
        (warn_if (is_after c.last_time time)) (record c { last_time = time })
  handle-active (mode_msg mode) c = refl
  handle-active (start_msg f ch fr t) c = elim (Bool-cases (c.mode == codecs.raw)) [
    | inl e ↦ rw e refl
    | inr e ↦ rw e (elim (Option-cases (codecs.create c.mode fr)) [
      | inl q ↦ rw q refl
      | inr (x, q) ↦ rw q refl
    ])
  ]
  handle-active stop_msg c = refl
  handle-active (volume_msg nch vol) c = elim (Bool-cases (nch == 0)) [
    | inl e ↦ rw e refl
    | inr e ↦ rw e refl
  ]
  handle-active (mute_msg mute) c = refl
  handle-active (latency_msg l) c = refl

  on_after-cons :
      (m : Message) (ms : List Message) (b : Bool)
      → on_after (m ∷ ms) b ≡ on_after ms (on_after (m ∷ []) b)
  on_after-cons (data_msg time packet) ms b = refl
  on_after-cons (mode_msg mode) ms b = refl
  on_after-cons (start_msg f ch fr t) ms b = refl
  on_after-cons stop_msg ms b = refl
  on_after-cons (volume_msg nch vol) ms b = refl
  on_after-cons (mute_msg mute) ms b = refl
  on_after-cons (latency_msg l) ms b = refl

  run-active :
      (ms : List Message) (c : Playback C) → (run ms c).0.is_active ≡ on_after ms c.is_active
  unfolding run
  run-active [] c = refl
  run-active (m ∷ ms) c =
      run-active ms (handle codecs m c).0
      ∙ (ap (on_after ms) (handle-active m c) ∙ sym (on_after-cons m ms c.is_active))

  -- After any messages, a delay that the widget sets is the latency just where the last start or
  -- stop was a start, which need not have found a decoder, and the latency is 0 elsewhere.
  pub get_latency-set_delay :
      (ms : List Message) (session : Bool) (delay_ms : ℕ) (c : Playback C)
      → get_latency codecs (set_delay codecs session delay_ms (run ms c).0).0
        ≡ (if on_after ms c.is_active then delay_ms else 0)
  unfolding get_latency set_delay
  get_latency-set_delay ms session d c = ap (λ b. if b then d else 0) (run-active ms c)
