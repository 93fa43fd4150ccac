-- ===== src/Record/Frames.antt =====
-- The frames that `spice_record_channel_send_data` of src/channel-record.c sends.
use spice_gtk.Base.{
  ℕ, zero, suc, ◌-◌, ◌≤◌, ◌<◌, ◌≡◌, refl, ap, sym, ◌∙◌, min, true, false, not, ◌||◌, Option, none,
  some, List, [], ◌∷◌, ◌++◌, append_assoc, append-nil, ltb, ◌==◌, if◌then◌else◌, arith, length,
  take, drop, length-append, length-take, length-drop, length-zero, take_all, take-append-drop,
  Bool-cases, if_true, if_false, inl, inr,
}
use spice_gtk.Record.{
  Bytes, Record, Message, record_mode, start_mark, record_data, Codec, take_frame, add_message,
  send_frame, encode_frame, frame_loop, add_messages, send_data,
}

abbrev pub flatten : List Bytes → Bytes
flatten [] = []
flatten (f ∷ fs) = f ++ flatten fs

-- Every frame has `n` bytes.
abbrev pub AllLength : ℕ → List Bytes → Type 0
AllLength n [] = Unit {0}
AllLength n (f ∷ fs) = (length f ≡ n) × AllLength n fs

abbrev pub written : Option Bytes → Bytes
written none = []
written (some bytes) = bytes

-- Every frame can be encoded.
abbrev pub Encodes : Codec → Type 0
Encodes k =
    (codec : Option ℕ) (frame : Bytes)
    → (k.encode codec frame).1 ≡ some (written (k.encode codec frame).1)

module _ (k : Codec) (time : ℕ) where
  -- The state and the messages behind some frames.
  abbrev pub coded : Record → List Bytes → Record × List Message
  coded c [] = (c, [])
  coded c (f ∷ fs) =
      let (c1, out) = encode_frame k c f in
      let (c2, ms) = coded (record c1 { last_frame = [] }) fs in
      (c2, record_data time (written out) ∷ ms)

  take_frame_lem :
      (c : Record) (data' : Bytes)
      → length c.last_frame < c.frame_bytes
      → let n = min (length data') (c.frame_bytes - length c.last_frame) in
        ((take_frame c data').0 ≡ n) × ((take_frame c data').1 ≡ c.last_frame ++ take n data')
  take_frame_lem c data' room = elim (Bool-cases (ltb 0 (length c.last_frame))) [
    | inl t ↦
        (ap (λ (r : ℕ × Bytes). r.0) (if_true _ _ t), ap (λ (r : ℕ × Bytes). r.1) (if_true _ _ t))
    | inr t ↦
        let nothing : c.last_frame ≡ [] = length-zero c.last_frame (ground arith) in
        let len : length c.last_frame ≡ 0 = ap length nothing in
        let n : c.frame_bytes - length c.last_frame ≡ c.frame_bytes = omega arith in
        (
          ap (λ (r : ℕ × Bytes). r.0) (if_false _ _ t) ∙ ap (λ m. min (length data') m) (sym n),
          ap (λ (r : ℕ × Bytes). r.1) (if_false _ _ t)
              ∙ (ap (λ m. take (min (length data') m) data') (sym n)
                  ∙ ap
                      (λ b.
                        b ++ take (min (length data') (c.frame_bytes - length c.last_frame)) data')
                      (sym nothing)),
        )
  ]

  -- What the loop does, for its result.
  record Cut (c : Record) (data' : Bytes) (result : Option (Record × List Message)) : Type 0 where
    frames : List Bytes
    rest : Bytes
    ends : result ≡ some (record (coded c frames).0 { last_frame = rest }, (coded c frames).1)
    whole : flatten frames ++ rest ≡ c.last_frame ++ data'
    full : AllLength c.frame_bytes frames
    partial : length rest < c.frame_bytes

  frame_loop-Cut :
      Encodes k
      → (fuel : ℕ) (c : Record) (data' : Bytes) → length c.last_frame < c.frame_bytes
      → length data' ≤ fuel
      → Cut c data' (frame_loop k fuel time c data')
  unfolding frame_loop
  frame_loop-Cut e zero c [] room enough = record {
    frames = [];
    rest = c.last_frame;
    ends = refl;
    whole = sym (append-nil c.last_frame);
    full = tt;
    partial = room;
  }
  frame_loop-Cut e zero c (x ∷ xs) room enough = absurd (omega arith)
  frame_loop-Cut e (suc fuel) c [] room enough = record {
    frames = [];
    rest = c.last_frame;
    ends = refl;
    whole = sym (append-nil c.last_frame);
    full = tt;
    partial = room;
  }
  frame_loop-Cut e (suc fuel) c (x ∷ xs) room enough =
      let data' = x ∷ xs in
      let n = min (length data') (c.frame_bytes - length c.last_frame) in
      let (count, frame) = take_frame_lem c data' room in
      let f = (take_frame c data').1 in
      let len = ap length frame ∙ length-append c.last_frame (take n data') in
      let len' = length-take n data' in
      let more : (length data' == 0) ≡ false = ground arith in
      elim (Bool-cases (ltb (length f) c.frame_bytes)) [
        | inl t ↦
            let short : length data' ≤ n = ground arith in
            record {
              frames = [];
              rest = f;
              ends = if_false _ _ more ∙ if_true _ _ t;
              whole = frame ∙ ap (λ b. c.last_frame ++ b) (take_all n data' short);
              full = tt;
              partial = ground arith;
            }
        | inr t ↦
            let c1 = (encode_frame k c f).0 in
            let left = (take_frame c data').0 in
            let dropped = length-drop left data' in
            let r =
              frame_loop-Cut e fuel (record c1 { last_frame = [] }) (drop left data') (omega arith)
                (omega arith) in
            let out = encoded c f in
            record {
              frames = f ∷ r.frames;
              rest = r.rest;
              ends =
                  if_false _ _ more
                  ∙ (if_false _ _ t
                      ∙ (ap
                            (λ o. send_frame time c1 f o (
                              frame_loop k fuel time (record c1 { last_frame = [] })
                                (drop left data')))
                            out
                          ∙ ap (add_message (record_data time (written (encode_frame k c f).1)))
                              r.ends));
              whole =
                  append_assoc f (flatten r.frames) r.rest
                  ∙ (ap (λ b. f ++ b) r.whole
                      ∙ (ap (λ b. b ++ drop left data') frame
                          ∙ (ap (λ m. (c.last_frame ++ take n data') ++ drop m data') count
                              ∙ (append_assoc c.last_frame (take n data') (drop n data')
                                  ∙ ap (λ b. c.last_frame ++ b) (take-append-drop n data')))));
              full = (ground arith, r.full);
              partial = r.partial;
            }
      ]
    where
      encoded :
          (c : Record) (f : Bytes) → (encode_frame k c f).1 ≡ some (written (encode_frame k c f).1)
      encoded c f = elim (Bool-cases (c.mode == k.raw)) [
        | inl t ↦ if_true _ _ t ∙ ap (λ o. some (written o)) (sym (if_true _ _ t))
        | inr t ↦ if_false _ _ t ∙ (e c.codec f ∙ ap (λ o. some (written o)) (sym (if_false _ _ t)))
      ]

-- A call for recorded data ends, and sends the data in frames of just the codec's size, coded in order:
-- the frames and the part that is kept are what was kept before and the data, nothing lost or
-- doubled. The first call after a start announces the mode and the start. The channel records and is
-- not read-only, its frames are not empty, and every frame can be encoded.
pub send_data-frames :
    (k : Codec) (time : ℕ) (c : Record) (data' : Bytes)
    → Encodes k
    → c.has_frame ≡ true
    → length c.last_frame < c.frame_bytes
    → let s = record c { started = true } in
      (frames : List Bytes) × (rest : Bytes) × (send_data k false data' time c
        ≡ some (
          record (coded k time s frames).0 { last_frame = rest },
          (if c.started then [] else record_mode time c.mode ∷ (start_mark time ∷ []))
              ++ (coded k time s frames).1,
        ))
      × (flatten frames ++ rest ≡ c.last_frame ++ data')
      × AllLength c.frame_bytes frames
      × (length rest < c.frame_bytes)
unfolding send_data
send_data-frames k time c data' e recording room =
    let s = record c { started = true } in
    let r = frame_loop-Cut k time e (suc (length data')) s data' room (omega arith) in
    let start = if c.started then [] else record_mode time c.mode ∷ (start_mark time ∷ []) in
    let go : (not c.has_frame || false) ≡ false = ground arith in
    (
      r.frames,
      r.rest,
      if_false _ _ go ∙ ap (add_messages k start) r.ends,
      r.whole,
      r.full,
      r.partial,
    )
