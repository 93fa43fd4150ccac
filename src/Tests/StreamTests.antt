-- ===== src/Tests/StreamTests.antt =====
-- src/decode-glz-tmpl.c and the decoder around it, at images of a few pixels.
use spice_gtk.Base.{
  length-replicate, ℕ, ◌≤◌, ◌≡◌, refl, false, true, none, some, List, [], ◌∷◌, length, ◌==◌,
  if◌then◌else◌, replicate, arith,
}
use spice_gtk.Glz.{Pixel, Image, ImageHdr}
use spice_gtk.Glz.Format.{rgb32, comp_rgb32, ref_end}
use spice_gtk.Glz.Format.Laws.{rgb32-IsFormat}
use spice_gtk.Glz.Window.{new}
use spice_gtk.Glz.Stream.{
  Job, State, ok, fault, bind, get_byte, loop, decode, copy_match, ref_copy, find_source, inside,
}
use spice_gtk.Glz.Stream.Safety.{Complete, decode-Complete}
use spice_gtk.Glz.Stream.Fuel.{decode-fuel}
use spice_gtk.Glz.Stream.Run.{copy_match-eq-ref_copy, overread}
use spice_gtk.Glz.Stream.Literal.{encode, decode-encode}
use spice_gtk.Glz.Decoder
use spice_gtk.Glz.Decoder.{LzCommon, Decoder, decode_header}
use spice_gtk.Glz.Decoder.Header.{header_bytes, decode_header-header_bytes}
use spice_gtk.Glz.Decoder.Safety.{IsSafe, decode_image-IsSafe}

abbrev px : ℕ → Pixel
px v = record { b = v; g = v; r = v; pad = 0 }

abbrev blank : Pixel
blank = px 0

abbrev four : Job
four = record {
  format = rgb32;
  size = 4;
  image_id = 3;
  palette = none;
  max_copy = 32;
  wait = λ id w. w;
}

abbrev start : List ℕ → State
start input = record {
  input = input;
  out = blank ∷ blank ∷ blank ∷ blank ∷ [];
  op = 0;
  window = new;
}

-- One literal pixel, then a run of it: length 3 at offset 0, which is biased by 1.
abbrev run_of_nine : List ℕ
run_of_nine = 0 ∷ 9 ∷ 9 ∷ 9 ∷ 0x60 ∷ 0 ∷ 0 ∷ []

run_decoded :
    decode four (start run_of_nine)
    ≡ ok tt (record { input = []; out = px 9 ∷ px 9 ∷ px 9 ∷ px 9 ∷ []; op = 4; window = new })
unfolding decode comp_rgb32
run_decoded = refl

decode-Complete_example :
    Complete 4 four (omega arith) rgb32-IsFormat (decode four (start run_of_nine))
decode-Complete_example =
    decode-Complete 4 four (omega arith) rgb32-IsFormat (start run_of_nine) refl

decode-fuel_example :
    decode four (start run_of_nine) ≡ bind (get_byte (start run_of_nine)) (loop four 1000)
decode-fuel_example =
    decode-fuel 4 four (omega arith) rgb32-IsFormat 1000 (start run_of_nine) refl (omega arith)

abbrev after_one : State
after_one = record (start []) { out = px 9 ∷ blank ∷ blank ∷ blank ∷ []; op = 1 }

copy_match-eq-ref_copy_example :
    copy_match four 3 (inside 0) after_one ≡ ref_copy four 3 (inside 0) after_one
copy_match-eq-ref_copy_example =
    copy_match-eq-ref_copy four rgb32-IsFormat 3 (inside 0) after_one (omega arith)

abbrev held : Image
held = record {
  hdr = record {
    id = 2;
    type = 8;
    width = 1;
    height = 1;
    gross_pixels = 1;
    top_down = true;
    win_head_dist = 1;
  };
  pixels = px 5 ∷ [];
}

abbrev referring : State
referring = record (start []) {
  window = record {
    images = none ∷ none ∷ some held ∷ none ∷ [];
    nimages = 4;
    oldest = 0;
    tail_gap = 0;
  };
}

overread_example :
    bind (find_source four (record { len = 2; ofs = 1; dist = 1 }) referring) (copy_match four 2)
    ≡ fault ref_end
overread_example =
    overread four rgb32-IsFormat (record { len = 2; ofs = 1; dist = 1 }) held referring
      (λ e. absurd (omega arith)) refl refl refl (omega arith) (omega arith) (omega arith)
      (omega arith)

decode-encode_example :
    decode four (start (encode ((px 1 ∷ px 2 ∷ px 3 ∷ []) ∷ (px 4 ∷ []) ∷ []) (7 ∷ [])))
    ≡ ok tt (record { input = 7 ∷ []; out = px 1 ∷ px 2 ∷ px 3 ∷ px 4 ∷ []; op = 4; window = new })
decode-encode_example =
    decode-encode four (px 1 ∷ px 2 ∷ px 3 ∷ []) ((px 4 ∷ []) ∷ [])
      (blank ∷ blank ∷ blank ∷ blank ∷ []) (7 ∷ []) new (omega arith) refl refl

abbrev common : LzCommon
common = record {
  magic = 0x20205a4c;
  version = 0x10001;
  type_mask = 0x0f;
  type_log = 4;
  type_rgba = 9;
  max_copy = 32;
  is_plt = λ t. if t == 5 then true else false;
  plt_pixels_per_byte = λ t. 1;
}

abbrev idle : Decoder
idle = record {
  in_now = [];
  window = new;
  image = record {
    id = 0;
    type = 8;
    width = 2;
    height = 2;
    gross_pixels = 4;
    top_down = true;
    win_head_dist = 0;
  };
}

decode_header-header_bytes_example :
    decode_header common (record idle { in_now = header_bytes common 0x18 2 2 8 300 1 (9 ∷ []) })
    ≡ some (record idle {
      in_now = 9 ∷ [];
      image = record {
        id = 300;
        type = 8;
        width = 2;
        height = 2;
        gross_pixels = 4;
        top_down = true;
        win_head_dist = 1;
      };
    })
decode_header-header_bytes_example =
    decode_header-header_bytes common idle 0x18 2 2 8 300 1 (9 ∷ [])

abbrev surface : ImageHdr → List Pixel
surface h = replicate h.gross_pixels blank

surface_room : (h : ImageHdr) → h.gross_pixels ≤ length (surface h)
surface_room h = let l = length-replicate h.gross_pixels blank in omega arith

decode_image-IsSafe_example :
    IsSafe common surface
      (λ id w. w)
      surface_room
      idle.image
      (Decoder.decode_image common surface (λ id w. w) (record idle { in_now = run_of_nine }) none)
decode_image-IsSafe_example =
    decode_image-IsSafe common surface (λ id w. w) surface_room
      (record idle { in_now = run_of_nine }) none
