-- ===== src/Pipe/Progress.antt =====
-- The pipe of src/giopipe.c moves bytes on.
use spice_gtk.Base.{
  ℕ, ◌≤◌, ◌<◌, ◌≡◌, ◌⊎◌, refl, subst, min, ap, sym, ◌∙◌, Bool, true, false, ◌||◌, Option, none,
  some, List, [], ◌∷◌, ◌++◌, append-nil, leb, ◌==◌, arith, length, length-append, length-take, take,
  if_true,
}
use spice_gtk.Pipe.{
  Bytes, Buffer, Source, would_block, input_read, take_from, output_write, input_check_source,
  output_check_source,
}
use spice_gtk.Pipe.Session.{
  Session, Op, write, read, after_write, step, run, Conforms, Flows, fresh,
}
use spice_gtk.Pipe.Delivery.{same_address, same_offer, session_of, run-Flows}

-- A write, a read and the write again tell the writer of more bytes.
abbrev Exchanges : Buffer → ℕ → Session → Type 0
Exchanges b k s = length s.written < length (run (write b ∷ (read k ∷ (write b ∷ []))) s).written

-- What is on offer is read, and its writer is told.
read_then_write :
    (is os : List Source) (b : Buffer) (k : ℕ) (received written old : Bytes) (faulted : Bool)
    → 0 < length b.bytes
    → 0 < k
    → written ≡ old ++ []
    → let s =
        session_of false false false false is os
          (some b)
          none
          (some b)
          (length b.bytes)
          received
          written
          faulted in
      length old < length (run (read k ∷ (write b ∷ [])) s).written
unfolding run step output_write input_read take_from input_check_source output_check_source
read_then_write is os b k received written old faulted pos posk e =
    let some_bytes : (k == 0) ≡ false = ground arith in
    let fits : leb (min (length b.bytes) k) (length b.bytes) ≡ true = ground arith in
    let l = length-take (min (length b.bytes) k) b.bytes in
    let l' = length-append written (take (min (length b.bytes) k) b.bytes) in
    let same = ap length (e ∙ append-nil old) in rw (some_bytes, fits) (omega (arith, l, l', same))

more_than : (old got more : Bytes) → 0 < length got → length old < length ((old ++ got) ++ more)
more_than old got more pos = omega (arith, length-append old got, length-append (old ++ got) more)

exchange_open :
    (is os : List Source) (b : Buffer) (k : ℕ) (offer : Option Buffer) (taken : Option ℕ)
    (buffer : Option Buffer) (count : ℕ) (received written : Bytes) (faulted : Bool)
    → 0 < length b.bytes
    → 0 < k
    → (offer ≡ none) ⊎ (offer ≡ some b)
    → Flows
        (session_of false false false false is os offer taken buffer count received written faulted)
    → Exchanges b k
        (session_of false false false false is os offer taken buffer count received written faulted)
unfolding run step output_write input_check_source
exchange_open is os b k none none none count received written faulted pos posk may f =
    read_then_write _ os b k received (written ++ []) written faulted pos posk refl
exchange_open is os b k (some c) none (some d) count received written faulted pos posk may
      ((same, len, more), e, fine) =
    let same_b = same_offer c b may in
    let s =
      session_of false false false false is os (some b) none (some b) count received written
        faulted in
    let told : output_write b s.pipe ≡ (
      input_check_source (record s.pipe { buffer = some b; count = length b.bytes }),
      would_block,
    ) =
      if_true _ _ (same_address b.address) in
    subst
      (λ x. Exchanges b k (
        session_of false false false false is os (some x) none (some d) count received written
          faulted))
      (sym same_b)
      (subst
        (λ x. Exchanges b k (
          session_of false false false false is os (some b) none (some x) count received written
            faulted))
        (sym (same ∙ same_b))
        (subst
          (λ r. length written < length (run (read k ∷ (write b ∷ [])) (after_write b s r)).written)
          (sym told)
          (read_then_write _ os b k received (written ++ []) written faulted pos posk refl)))
exchange_open is os b k (some c) (some n) none count received written faulted pos posk may
      ((more, within), e, fine) =
    let same_b = same_offer c b may in
    let within_b : n ≤ length b.bytes = subst (λ x. n ≤ length x.bytes) same_b within in
    let fits : leb n (length b.bytes) ≡ true = ground arith in
    let l = length-take n b.bytes in
    let s =
      session_of false false false false is os (some c) (some n) none count received written
        faulted in
    let told = if_true _ _ fits in
    subst (λ r. length written < length (run (read k ∷ (write b ∷ [])) (after_write b s r)).written)
      (sym told) (more_than written (take n b.bytes) _ (omega (arith, l)))
exchange_open is os b k none none (some d) count received written faulted pos posk may
      (h, e, fine) =
    absurd (omega (arith, h))
exchange_open is os b k none (some n) buffer count received written faulted pos posk may
      (h, e, fine) =
    absurd (omega (arith, h))
exchange_open is os b k (some c) none none count received written faulted pos posk may
      (h, e, fine) =
    absurd (omega (arith, h))
exchange_open is os b k (some c) (some n) (some d) count received written faulted pos posk may
      (h, e, fine) =
    absurd (omega (arith, h))

exchange :
    (ip ic op oc : Bool) (is os : List Source) (b : Buffer) (k : ℕ) (offer : Option Buffer)
    (taken : Option ℕ) (buffer : Option Buffer) (count : ℕ) (received written : Bytes)
    (faulted : Bool)
    → 0 < length b.bytes
    → 0 < k
    → (offer ≡ none) ⊎ (offer ≡ some b)
    → ip ≡ false
    → ic ≡ false
    → (oc || op) ≡ false
    → Flows (session_of ip ic op oc is os offer taken buffer count received written faulted)
    → Exchanges b k (session_of ip ic op oc is os offer taken buffer count received written faulted)
exchange true ic op oc is os b k offer taken buffer count received written faulted pos posk may hp
      hc t f =
    absurd (cc hp)
exchange false true op oc is os b k offer taken buffer count received written faulted pos posk may
      hp hc t f =
    absurd (cc hc)
exchange false false op true is os b k offer taken buffer count received written faulted pos posk
      may hp hc t f =
    absurd (cc t)
exchange false false true false is os b k offer taken buffer count received written faulted pos posk
      may hp hc t f =
    absurd (cc t)
exchange false false false false is os b k offer taken buffer count received written faulted pos
      posk may hp hc t f =
    exchange_open is os b k offer taken buffer count received written faulted pos posk may f

-- In every state of a new pipe that writes, reads and closes reach, none for zero bytes and a writer
-- that was told to wait offering the same buffer again: while nothing is closed, a write, a read and
-- the same write again tell the writer of at least one more byte, if the write is the one on offer
-- or none is.
pub exchange-progress :
    (ops : List Op) (b : Buffer) (k : ℕ)
    → Conforms ops fresh
    → 0 < length b.bytes
    → 0 < k
    → ((run ops fresh).offer ≡ none) ⊎ ((run ops fresh).offer ≡ some b)
    → (run ops fresh).pipe.in_peer_closed ≡ false
    → (run ops fresh).pipe.in_closed ≡ false
    → ((run ops fresh).pipe.out_closed || (run ops fresh).pipe.out_peer_closed) ≡ false
    → length (run ops fresh).written
      < length (run (write b ∷ (read k ∷ (write b ∷ []))) (run ops fresh)).written
exchange-progress ops b k may pos posk offer ip ic oc =
    let s = run ops fresh in
    let p = s.pipe in
    exchange p.in_peer_closed p.in_closed p.out_peer_closed p.out_closed p.in_sources p.out_sources
      b k s.offer p.read p.buffer p.count s.received s.written s.faulted pos posk offer ip ic oc
      (run-Flows ops fresh may (tt, refl, refl))
