-- ===== src/Pipe/Delivery.antt =====
-- What passes the pipe of src/giopipe.c, whatever the order of the calls.
use spice_gtk.Base.{
  ℕ, ◌≤◌, ◌<◌, ◌≡◌, ◌⊎◌, refl, subst, ap, sym, ◌∙◌, Bool, true, false, ◌||◌, Option, none, some,
  List, [], ◌∷◌, ◌++◌, append-nil, leb, ◌==◌, arith, length, take, Bool-cases, inl, inr,
}
use spice_gtk.Pipe.{
  Bytes, Buffer, Source, Pipe, input_read, take_from, output_write, input_check_source,
  output_check_source,
}
use spice_gtk.Pipe.Session.{
  Session, Op, write, read, close, step, run, MayDo, Conforms, in_flight, Flows, fresh,
}

pub same_address : (n : ℕ) → (n == n) ≡ true
same_address n = ground arith

pub same_offer : (c b : Buffer) → (some c ≡ none) ⊎ (some c ≡ some b) → c ≡ b
same_offer c b (inl e) = absurd (cc e)
same_offer c b (inr e) = cc e

module _ (ip ic op oc : Bool) (is os : List Source) where
  abbrev pipe_of : Option ℕ → Option Buffer → ℕ → Pipe
  pipe_of taken buffer count = record {
    read = taken;
    in_peer_closed = ip;
    in_closed = ic;
    in_sources = is;
    buffer = buffer;
    count = count;
    out_peer_closed = op;
    out_closed = oc;
    out_sources = os;
  }

  abbrev pub session_of :
      Option Buffer → Option ℕ → Option Buffer → ℕ → Bytes → Bytes → Bool → Session
  session_of offer taken buffer count received written faulted = record {
    pipe = pipe_of taken buffer count;
    offer = offer;
    received = received;
    written = written;
    faulted = faulted;
  }

  write_refused :
      (b : Buffer) (offer : Option Buffer) (taken : Option ℕ) (buffer : Option Buffer) (count : ℕ)
      (received written : Bytes) (faulted : Bool)
      → (oc || op) ≡ true
      → Flows (session_of offer taken buffer count received written faulted)
      → Flows (step (write b) (session_of offer taken buffer count received written faulted))
  unfolding step output_write
  write_refused b offer taken buffer count received written faulted t (h, e, fine) =
      rw (t, fine) (h, e ∙ ap (λ w. w ++ in_flight offer taken) (sym (append-nil written)), refl)

  -- The same buffer again, before a read.
  write_again :
      (b : Buffer) (count : ℕ) (received written : Bytes) (faulted : Bool)
      → (oc || op) ≡ false
      → 0 < length b.bytes
      → received ≡ written ++ []
      → faulted ≡ false
      → Flows (step (write b) (session_of (some b) none (some b) count received written faulted))
  unfolding step output_write input_check_source
  write_again b count received written faulted t pos e fine =
      rw (t, same_address b.address, fine) ((refl, refl, pos), e ∙ sym (append-nil _), refl)

  -- The same buffer again, after a read.
  write_done :
      (b : Buffer) (n count : ℕ) (received written : Bytes) (faulted : Bool)
      → (oc || op) ≡ false
      → n ≤ length b.bytes
      → received ≡ written ++ take n b.bytes
      → faulted ≡ false
      → Flows (step (write b) (session_of (some b) (some n) none count received written faulted))
  unfolding step output_write input_check_source
  write_done b n count received written faulted t le e fine =
      let fits : leb n (length b.bytes) ≡ true = ground arith in
      rw (t, fits, fine) (tt, e ∙ sym (append-nil _), refl)

  write_accepted :
      (b : Buffer) (offer : Option Buffer) (taken : Option ℕ) (buffer : Option Buffer) (count : ℕ)
      (received written : Bytes) (faulted : Bool)
      → (oc || op) ≡ false
      → 0 < length b.bytes
      → (offer ≡ none) ⊎ (offer ≡ some b)
      → Flows (session_of offer taken buffer count received written faulted)
      → Flows (step (write b) (session_of offer taken buffer count received written faulted))
  unfolding step output_write input_check_source
  write_accepted b none none none count received written faulted t pos may (h, e, fine) =
      rw (t, fine) ((refl, refl, pos), e ∙ sym (append-nil _), refl)
  write_accepted b (some c) none (some d) count received written faulted t pos may
        ((same, len, more), e, fine) =
      let same_b = same_offer c b may in
      subst
        (λ x.
          Flows (step (write b) (session_of (some x) none (some d) count received written faulted)))
        (sym same_b)
        (subst
          (λ x.
            Flows
              (step (write b) (session_of (some b) none (some x) count received written faulted)))
          (sym (same ∙ same_b)) (write_again b count received written faulted t pos e fine))
  write_accepted b (some c) (some n) none count received written faulted t pos may
        ((more, fits), e, fine) =
      let same_b = same_offer c b may in
      subst
        (λ x.
          Flows (step (write b) (session_of (some x) (some n) none count received written faulted)))
        (sym same_b)
        (write_done b n count received written faulted t
          (subst (λ x. n ≤ length x.bytes) same_b fits)
          (subst (λ x. received ≡ written ++ take n x.bytes) same_b e) fine)
  write_accepted b none none (some d) count received written faulted t pos may (h, e, fine) =
      absurd (omega (arith, h))
  write_accepted b none (some n) buffer count received written faulted t pos may (h, e, fine) =
      absurd (omega (arith, h))
  write_accepted b (some c) none none count received written faulted t pos may (h, e, fine) =
      absurd (omega (arith, h))
  write_accepted b (some c) (some n) (some d) count received written faulted t pos may
        (h, e, fine) =
      absurd (omega (arith, h))

  read-Flows :
      (k : ℕ) (offer : Option Buffer) (taken : Option ℕ) (buffer : Option Buffer) (count : ℕ)
      (received written : Bytes) (faulted : Bool)
      → 0 < k
      → Flows (session_of offer taken buffer count received written faulted)
      → Flows (step (read k) (session_of offer taken buffer count received written faulted))
  unfolding step input_read take_from output_check_source
  read-Flows k offer taken none count received written faulted pos (h, e, fine) =
      let some_bytes : (k == 0) ≡ false = ground arith in
      elim (Bool-cases ip) [
        | inl t ↦ rw (some_bytes, t, fine) (h, append-nil _ ∙ e, refl)
        | inr t ↦ elim (Bool-cases ic) [
          | inl u ↦ rw (some_bytes, t, u, fine) (h, append-nil _ ∙ e, refl)
          | inr u ↦ rw (some_bytes, t, u, fine) (h, append-nil _ ∙ e, refl)
        ]
      ]
  read-Flows k (some c) none (some d) count received written faulted pos
        ((same, len, more), e, fine) =
      let some_bytes : (k == 0) ≡ false = ground arith in
      elim (Bool-cases ip) [
        | inl t ↦ rw (some_bytes, t, fine) ((same, len, more), append-nil _ ∙ e, refl)
        | inr t ↦ elim (Bool-cases ic) [
          | inl u ↦ rw (some_bytes, t, u, fine) ((same, len, more), append-nil _ ∙ e, refl)
          | inr u ↦
              rw (some_bytes, t, u, fine)
                ((omega arith, omega arith), rw (same, e, append-nil written) refl, refl)
        ]
      ]
  read-Flows k none none (some d) count received written faulted pos (h, e, fine) =
      absurd (omega (arith, h))
  read-Flows k none (some n) (some d) count received written faulted pos (h, e, fine) =
      absurd (omega (arith, h))
  read-Flows k (some c) (some n) (some d) count received written faulted pos (h, e, fine) =
      absurd (omega (arith, h))

step-Flows : (op : Op) (s : Session) → MayDo op s → Flows s → Flows (step op s)
unfolding step
step-Flows (write b) s (pos, may) f =
    let p = s.pipe in
    elim (Bool-cases (p.out_closed || p.out_peer_closed)) [
      | inl t ↦
          write_refused p.in_peer_closed p.in_closed p.out_peer_closed p.out_closed p.in_sources
            p.out_sources b s.offer p.read p.buffer p.count s.received s.written s.faulted t f
      | inr t ↦
          write_accepted p.in_peer_closed p.in_closed p.out_peer_closed p.out_closed p.in_sources
            p.out_sources b s.offer p.read p.buffer p.count s.received s.written s.faulted t pos may
            f
    ]
step-Flows (read k) s pos f =
    let p = s.pipe in
    read-Flows p.in_peer_closed p.in_closed p.out_peer_closed p.out_closed p.in_sources
      p.out_sources k s.offer p.read p.buffer p.count s.received s.written s.faulted pos f
step-Flows (close ip ic op oc) s may f = f

pub run-Flows : (ops : List Op) (s : Session) → Conforms ops s → Flows s → Flows (run ops s)
unfolding run
run-Flows [] s may f = f
run-Flows (op ∷ ops) s (may, more) f = run-Flows ops (step op s) more (step-Flows op s may f)

-- Whatever the order of writes, reads and closes on a new pipe, when no call is for zero bytes and a
-- writer that was told to wait offers the same buffer again: the reader has got, in order, exactly
-- the bytes that the writer was told are written, and behind them what a read took from the buffer
-- on offer since; no precondition or assertion fails.
pub run-delivers :
    (ops : List Op)
    → Conforms ops fresh
    → let s = run ops fresh in
      (s.received ≡ s.written ++ in_flight s.offer s.pipe.read) × (s.faulted ≡ false)
run-delivers ops may = let (h, e, fine) = run-Flows ops fresh may (tt, refl, refl) in (e, fine)
