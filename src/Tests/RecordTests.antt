-- ===== src/Tests/RecordTests.antt =====
-- Recording at concrete inputs.
use spice_gtk.Base.{
  ℕ, suc, ◌<◌, ◌≡◌, refl, true, false, Option, none, some, List, [], ◌∷◌, ◌++◌, length, arith,
}
use spice_gtk.Record.{Bytes, Record, record_mode, start_mark, record_data, Codec, send_data}
use spice_gtk.Record.Frames.{flatten, AllLength, coded, send_data-frames}

-- A codec that puts a byte in front of each frame and counts the frames.
abbrev counting : Option ℕ → ℕ
counting none = 0
counting (some n) = n

abbrev codec : Codec
codec = record {
  raw = 1;
  max_frame_size = 480;
  create = λ mode frequency. some 0;
  frame_size = λ c. 2;
  encode = λ c frame. (some (suc (counting c)), some (counting c ∷ frame));
}

abbrev recording : Record
recording = record {
  mode = 3;
  started = false;
  codec = some 0;
  frame_bytes = 3;
  has_frame = true;
  last_frame = 10 ∷ [];
  volume = [];
  mute = false;
}

two_frames :
    send_data codec false (11 ∷ (12 ∷ (13 ∷ (14 ∷ (15 ∷ (16 ∷ [])))))) 7 recording
    ≡ some (
      record recording { started = true; codec = some 2; last_frame = 16 ∷ [] },
      record_mode 7 3
          ∷ (start_mark 7
              ∷ (record_data 7 (0 ∷ (10 ∷ (11 ∷ (12 ∷ []))))
                  ∷ (record_data 7 (1 ∷ (13 ∷ (14 ∷ (15 ∷ [])))) ∷ []))),
    )
unfolding send_data
two_frames = refl

send_data-frames_example :
    let s = record recording { started = true } in
    (frames : List Bytes) × (rest : Bytes) × (send_data codec false
        (11 ∷ (12 ∷ (13 ∷ [])))
        7
        recording
      ≡ some (
        record (coded codec 7 s frames).0 { last_frame = rest },
        (record_mode 7 3 ∷ (start_mark 7 ∷ [])) ++ (coded codec 7 s frames).1,
      ))
    × (flatten frames ++ rest ≡ 10 ∷ (11 ∷ (12 ∷ (13 ∷ []))))
    × AllLength 3 frames
    × (length rest < 3)
send_data-frames_example =
    send_data-frames codec 7 recording (11 ∷ (12 ∷ (13 ∷ []))) (λ c frame. refl) refl (omega arith)
