-- ===== src/Tests/InputsTests.antt =====
-- src/channel-inputs.c and src/spice-util.c at a short session.
use spice_gtk.Base.Int.{pos, negsuc, ◌+ℤ◌}
use spice_gtk.Base.{◌≡◌, refl, Bool, true, false, List, [], ◌∷◌, arith}
use spice_gtk.Inputs.{Channel, Inputs, ready, no_display}
use spice_gtk.Inputs.Motion.{
  Event, move, place, press, release, ack, locks, run, sent, moved, pending, run-sent,
}
use spice_gtk.Inputs.Flow.{Within, run-Within}

abbrev channel : Bool → Channel
channel ro = record {
  state = ready;
  read_only = ro;
  cap_key_scancode = true;
  bunch = 4;
  button_left = 1;
  button_middle = 2;
  button_right = 3;
  mask_left = 1;
  mask_middle = 2;
  mask_right = 4;
}

abbrev fresh : Inputs
fresh = record {
  bs = 0;
  dx = pos 2;
  dy = negsuc 0;
  x = 0;
  y = 0;
  dpy = no_display;
  motion_count = pos 7;
  modifiers = 0;
  locks = 0;
}

abbrev session : List Event
session =
    move (pos 3) (pos 4) 0
    ∷ move (pos 1) (pos 1) 0
    ∷ ack
    ∷ press 1 0
    ∷ move (negsuc 4) (pos 0) 1
    ∷ release 1 1
    ∷ []

abbrev moves : List Event
moves = move (pos 3) (pos 4) 0 ∷ place 10 20 0 0 ∷ ack ∷ locks 2 ∷ []

abbrev unacknowledged : List Event
unacknowledged = move (pos 3) (pos 4) 0 ∷ press 1 0 ∷ place 10 20 0 0 ∷ locks 2 ∷ []

run-sent_example :
    sent true (run (channel false) session fresh).1
      +ℤ pending true (run (channel false) session fresh).0
    ≡ pending true fresh +ℤ moved true session
run-sent_example = run-sent true (channel false) session fresh refl

run-Within_example : Within (channel false) (omega arith) (run (channel false) moves fresh).0
run-Within_example = run-Within (channel false) (omega arith) moves fresh tt (omega arith)
