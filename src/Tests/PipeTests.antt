-- ===== src/Tests/PipeTests.antt =====
-- The pipe at concrete inputs.
use spice_gtk.Base.{◌<◌, ◌≡◌, refl, inl, inr, true, false, List, [], ◌∷◌, ◌++◌, length, arith}
use spice_gtk.Pipe.{
  Buffer, Pipe, make_gio_pipe, is_readable, is_writable, input_read, output_write, input_close,
  output_close,
}
use spice_gtk.Pipe.Session.{Op, write, read, run, fresh, in_flight}
use spice_gtk.Pipe.Delivery.{run-delivers}
use spice_gtk.Pipe.Progress.{exchange-progress}
use spice_gtk.Pipe.Wakeups.{Woken, AllReady, calls-Woken}

abbrev three : Buffer
three = record { address = 8; bytes = 1 ∷ (2 ∷ (3 ∷ [])) }

-- Two of three bytes are read; the writer is told, and offers the third byte.
abbrev rest_of_three : Buffer
rest_of_three = record { address = 10; bytes = 3 ∷ [] }

abbrev calls : List Op
calls = write three ∷ (read 2 ∷ (write three ∷ (write rest_of_three ∷ (read 5 ∷ []))))

received_all : (run calls fresh).received ≡ 1 ∷ (2 ∷ (3 ∷ []))
unfolding run input_read output_write
received_all = refl

run-delivers_example :
    ((run calls fresh).received
      ≡ (run calls fresh).written ++ in_flight (run calls fresh).offer (run calls fresh).pipe.read)
    × ((run calls fresh).faulted ≡ false)
unfolding run input_read output_write
run-delivers_example = run-delivers calls (
  (omega arith, inl refl),
  (omega arith, ((omega arith, inr refl), ((omega arith, inl refl), (omega arith, tt)))),
)

abbrev offered : List Op
offered = write three ∷ []

exchange-progress_example :
    length (run offered fresh).written
    < length (run (write three ∷ (read 2 ∷ (write three ∷ []))) (run offered fresh)).written
unfolding run input_read output_write
exchange-progress_example =
    exchange-progress offered three 2 ((omega arith, inl refl), tt) (omega arith) (omega arith)
      (inr refl) refl refl refl

abbrev waiting : Pipe
waiting = record make_gio_pipe { in_sources = record { destroyed = false; ready = false } ∷ [] }

abbrev close_all : Pipe → Pipe
close_all p = record p { in_closed = true; out_closed = true }

calls-Woken_example :
    Woken waiting (input_read 1 waiting).0
    × Woken waiting (output_write three waiting).0
    × ((is_writable (input_close close_all waiting) ≡ true)
        × AllReady (input_close close_all waiting).out_sources)
    × ((is_readable (output_close close_all waiting) ≡ true)
        × AllReady (output_close close_all waiting).in_sources)
calls-Woken_example = calls-Woken three 1 close_all waiting (λ q e. e) (λ q e. e)
