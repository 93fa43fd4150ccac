-- ===== src/Channel/Queue/Order.antt =====
-- The order in which the queue of src/spice-channel.c hands its messages on.
use spice_gtk.Base.{
  ℕ, zero, suc, ◌+◌, ◌-◌, ◌<◌, ◌≡◌, refl, ap, ap₂, sym, ◌∙◌, Bool, true, false, not, List, [], ◌∷◌,
  ◌++◌, append-nil, append_assoc, arith, length, ltb, if◌then◌else◌,
}
use spice_gtk.Channel.Queue.{
  Out, Place, at_read, in_write, elsewhere, Queue, is_empty, msg_out_send, idle_wakeup,
  channel_flushed, answer_all, write_round, iterate_round, iterate_write, flush_async,
  channel_connect, Event, sends, wakes, round, reads, begins, flushes, resets, connects, becomes,
  round_in, step, run,
}
use spice_gtk.Channel.Queue.Invariant.{total}

-- What has been accepted, in order: handed on, or still queued.
abbrev pub accepted : Queue → List Out
accepted q = q.written ++ q.xmit_queue

-- What the events send.
abbrev pub sent_by : List Event → List Out
sent_by [] = []
sent_by (sends out ∷ events) = out ∷ sent_by events
sent_by (e ∷ events) = sent_by events

-- Without a reset among them.
abbrev pub NoReset : List Event → Type 0
NoReset [] = Unit {0}
NoReset (resets ∷ events) = ⊥
NoReset (e ∷ events) = NoReset events

-- The queue is open, and has accepted these.
abbrev Holds : List Out → Queue → Type 0
Holds outs q = (q.blocked ≡ false) × (accepted q ≡ outs)

Holds-if :
    (outs : List Out) (b : Bool) (x y : Queue)
    → (b ≡ true → Holds outs x)
    → (b ≡ false → Holds outs y)
    → Holds outs (if b then x else y)
Holds-if outs true x y p q = p refl
Holds-if outs false x y p q = q refl

write_round-Holds :
    (outs all : List Out) (q : Queue)
    → q.blocked ≡ false
    → q.written ++ outs ≡ all
    → Holds all (write_round outs q)
unfolding channel_flushed
write_round-Holds [] all q b e = (b, e)
write_round-Holds (out ∷ outs) all q b e = (b, append_assoc q.written (out ∷ []) outs ∙ e)

round_in-Holds : (p : Place) (all : List Out) (q : Queue) → Holds all q → Holds all (round_in p q)
unfolding iterate_round
round_in-Holds at_read all q h = h
round_in-Holds in_write all q (b, e) = write_round-Holds q.xmit_queue all q b e
round_in-Holds elsewhere all q h = h

send-Holds :
    (out : Out) (all : List Out) (q : Queue)
    → Holds all q
    → Holds (all ++ (out ∷ [])) (msg_out_send out q)
unfolding msg_out_send
send-Holds out all q (b, e) =
    Holds-if (all ++ (out ∷ [])) q.blocked _ _
      (λ t. absurd (let c : true ≡ false = sym t ∙ b in cc c))
      λ f. (b, sym (append_assoc q.written q.xmit_queue (out ∷ [])) ∙ ap (λ t. t ++ (out ∷ [])) e)

run-Holds :
    (events : List Event) (all : List Out) (q : Queue)
    → NoReset events
    → Holds all q
    → Holds (all ++ sent_by events) (run events q)
unfolding run step idle_wakeup flush_async channel_connect
run-Holds [] all q n (b, e) = (b, e ∙ sym (append-nil all))
run-Holds (sends out ∷ events) all q n h =
    let (b, e) =
      run-Holds events (all ++ (out ∷ [])) (msg_out_send out q) n (send-Holds out all q h) in
    (b, e ∙ append_assoc all (out ∷ []) (sent_by events))
run-Holds (wakes ∷ events) all q n h =
    run-Holds events all (step wakes q) n (Holds-if all q.wakeup _ _ (λ e. h) (λ e. h))
run-Holds (round ∷ events) all q n h =
    run-Holds events all (step round q) n (round_in-Holds q.place all q h)
run-Holds (reads ∷ events) all q n h = run-Holds events all (step reads q) n h
run-Holds (begins ∷ events) all q n h = run-Holds events all (step begins q) n h
run-Holds (flushes task ∷ events) all q n h = run-Holds events all (step (flushes task) q) n (
    Holds-if all (not q.ready) _ _ (λ e. h)
      (λ e. Holds-if all (is_empty q.xmit_queue) _ _ (λ z. h) (λ z. h)))
run-Holds (resets ∷ events) all q n h = absurd n
run-Holds (connects ∷ events) all q n (b, e) = run-Holds events all (step connects q) n (refl, e)
run-Holds (becomes ready ∷ events) all q n h = run-Holds events all (step (becomes ready) q) n h

-- From an open queue on and until a reset, whatever happens and in whatever order, what has been
-- handed on and then what is queued are the messages accepted before and those sent since,
-- in the order of their sending: none is lost, doubled or overtaken.
pub run-accepted :
    (events : List Event) (q : Queue)
    → q.blocked ≡ false
    → NoReset events
    → accepted (run events q) ≡ accepted q ++ sent_by events
run-accepted events q b n = (run-Holds events (accepted q) q n (b, refl)).1

-- The queue when all of it has been handed on.
abbrev pub drained : Queue → Queue
drained q = record q {
  place = at_read;
  xmit_queue = [];
  xmit_queue_size = q.xmit_queue_size - total q.xmit_queue;
  flushing = [];
  written = accepted q;
  answers = q.answers ++ answer_all true q.flushing;
}

take_size : (size a : ℕ) → (if ltb size a then 0 else size - a) ≡ size - a
take_size size a = ground arith

drains :
    (fuel : ℕ) (outs : List Out) (size : ℕ) (written : List Out) (q : Queue)
    → length outs < fuel
    → iterate_write fuel (record q { xmit_queue = outs; xmit_queue_size = size; written = written })
      ≡ record q {
        place = at_read;
        xmit_queue = [];
        xmit_queue_size = size - total outs;
        flushing = [];
        written = written ++ outs;
        answers = q.answers ++ answer_all true q.flushing;
      }
unfolding iterate_write iterate_round channel_flushed
drains zero outs size written q h = absurd (omega arith)
drains (suc fuel) [] size written q h =
    let e : size ≡ size - 0 = omega arith in
    ap₂
      (λ k w. record q {
        place = at_read;
        xmit_queue = [];
        xmit_queue_size = k;
        flushing = [];
        written = w;
        answers = q.answers ++ answer_all true q.flushing;
      })
      e (sym (append-nil written))
drains (suc fuel) (out ∷ outs) size written q h =
    let e : size - out.size - total outs ≡ size - (out.size + total outs) = omega arith in
    ap
      (λ k.
        iterate_write fuel
          (record q { xmit_queue = outs; xmit_queue_size = k; written = written ++ (out ∷ []) }))
      (take_size size out.size)
    ∙ (drains fuel outs (size - out.size) (written ++ (out ∷ [])) q (omega arith)
        ∙ ap₂
            (λ k w. record q {
              place = at_read;
              xmit_queue = [];
              xmit_queue_size = k;
              flushing = [];
              written = w;
              answers = q.answers ++ answer_all true q.flushing;
            })
            e (append_assoc written (out ∷ []) outs))

-- With a round for each queued message and one more the loop ends: everything queued has been handed
-- on in order, the size is less by all of theirs, and then the waiting flushes are answered with
-- success, in order.
pub iterate_write-drains :
    (fuel : ℕ) (q : Queue) → length q.xmit_queue < fuel → iterate_write fuel q ≡ drained q
iterate_write-drains fuel q h = drains fuel q.xmit_queue q.xmit_queue_size q.written q h
