-- ===== src/Channel/Queue/Invariant.antt =====
-- What the operations on the queue of src/spice-channel.c keep.
use spice_gtk.Base.{
  ℕ, ◌+◌, ◌≡◌, ◌≢◌, ◌⊎◌, refl, sym, ◌∙◌, Bool, true, false, not, ◌&&◌, inl, inr, List, [], ◌∷◌,
  ◌++◌, arith, if◌then◌else◌,
}
use spice_gtk.Channel.Queue.{
  Out, Place, at_read, in_write, elsewhere, Queue, spice_channel_init, is_empty, msg_out_send,
  idle_wakeup, woken, channel_flushed, write_round, iterate_round, flush_async, channel_reset,
  channel_connect, Event, sends, wakes, round, reads, begins, flushes, resets, connects, becomes,
  leaves_read, begins_write, round_in, step, run,
}

abbrev pub total : List Out → ℕ
total [] = 0
total (out ∷ outs) = out.size + total outs

-- A blocked queue is empty; the size is that of what is queued; where the coroutine waits to read, a
-- message that is queued has its wakeup; and a flush waits only for messages, or for the loop of
-- writes to end.
abbrev pub Valid :
    Place → List Out → (blocked wakeup : Bool) → (size : ℕ) → (flushing : List ℕ) → Type 0
Valid place outs blocked wakeup size flushing =
    ((blocked ≡ false) ⊎ (outs ≡ []))
    × ((outs ≡ []) ⊎ (size ≡ total outs))
    × ((place ≢ at_read) ⊎ ((outs ≡ []) ⊎ (wakeup ≡ true)))
    × ((flushing ≡ []) ⊎ ((outs ≢ []) ⊎ (place ≡ in_write)))

abbrev pub IsValid : Queue → Type 0
IsValid q = Valid q.place q.xmit_queue q.blocked q.wakeup q.xmit_queue_size q.flushing

total-append : (outs : List Out) (out : Out) → total (outs ++ (out ∷ [])) ≡ total outs + out.size
total-append [] out = omega arith
total-append (o ∷ outs) out = omega (arith, total-append outs out)

IsValid-if :
    (b : Bool) (x y : Queue)
    → (b ≡ true → IsValid x)
    → (b ≡ false → IsValid y)
    → IsValid (if b then x else y)
IsValid-if true x y p q = p refl
IsValid-if false x y p q = q refl

send-Valid :
    (out : Out) (place : Place) (outs : List Out) (blocked wakeup : Bool) (size : ℕ)
    (flushing : List ℕ)
    → blocked ≡ false
    → Valid place outs blocked wakeup size flushing
    → Valid place
        (outs ++ (out ∷ []))
        blocked
        (if is_empty outs && not wakeup then true else wakeup)
        (if is_empty outs then out.size else size + out.size)
        flushing
send-Valid out place [] blocked true size flushing open' v =
    (inl open', inr (omega arith), inr (inr refl), inr (inl cc))
send-Valid out place [] blocked false size flushing open' v =
    (inl open', inr (omega arith), inr (inr refl), inr (inl cc))
send-Valid out place (o ∷ outs) blocked wakeup size flushing open' (b, inl e, w, f) = absurd (cc e)
send-Valid out place (o ∷ outs) blocked wakeup size flushing open' (b, inr e, inl w, f) =
    (inl open', inr (omega (arith, e, total-append outs out)), inl w, inr (inl cc))
send-Valid out place (o ∷ outs) blocked wakeup size flushing open' (b, inr e, inr (inl w), f) =
    absurd (cc w)
send-Valid out place (o ∷ outs) blocked wakeup size flushing open' (b, inr e, inr (inr w), f) =
    (inl open', inr (omega (arith, e, total-append outs out)), inr (inr w), inr (inl cc))

msg_out_send-IsValid : (out : Out) (q : Queue) → IsValid q → IsValid (msg_out_send out q)
unfolding msg_out_send
msg_out_send-IsValid out q v =
    IsValid-if q.blocked _ _ (λ e. v)
      λ e. send-Valid out q.place q.xmit_queue q.blocked q.wakeup q.xmit_queue_size q.flushing e v

wake-Valid :
    (place : Place) (outs : List Out) (blocked wakeup : Bool) (size : ℕ) (flushing : List ℕ)
    → Valid place outs blocked wakeup size flushing
    → Valid (woken place) outs blocked false size flushing
wake-Valid at_read outs blocked wakeup size flushing (b, e, w, f) = (b, e, inl cc, inr (inr refl))
wake-Valid in_write outs blocked wakeup size flushing (b, e, w, f) = (b, e, inl cc, inr (inr refl))
wake-Valid elsewhere outs blocked wakeup size flushing (b, e, w, f) = (b, e, inl cc, f)

round-Valid :
    (outs : List Out) (q : Queue)
    → q.place ≡ in_write
    → Valid q.place outs q.blocked q.wakeup q.xmit_queue_size q.flushing
    → IsValid (write_round outs q)
unfolding channel_flushed
round-Valid [] q p v = (inr refl, inl refl, inr (inl refl), inl refl)
round-Valid (out ∷ outs) q p (inl b, inl e, w, f) = absurd (cc e)
round-Valid (out ∷ outs) q p (inr b, e, w, f) = absurd (cc b)
round-Valid (out ∷ outs) q p (inl b, inr e, w, f) = (
  inl b,
  inr (ground arith),
  inl (λ r. absurd (let c : in_write ≡ at_read = sym p ∙ r in cc c)),
  inr (inr p),
)

begins-Valid :
    (place : Place) (outs : List Out) (blocked wakeup : Bool) (size : ℕ) (flushing : List ℕ)
    → Valid place outs blocked wakeup size flushing
    → Valid (begins_write place) outs blocked wakeup size flushing
begins-Valid at_read outs blocked wakeup size flushing v = v
begins-Valid in_write outs blocked wakeup size flushing v = v
begins-Valid elsewhere outs blocked wakeup size flushing (b, e, w, f) =
    (b, e, inl cc, inr (inr refl))

leaves-Valid :
    (place : Place) (outs : List Out) (blocked wakeup : Bool) (size : ℕ) (flushing : List ℕ)
    → Valid place outs blocked wakeup size flushing
    → Valid (leaves_read place) outs blocked wakeup size flushing
leaves-Valid at_read outs blocked wakeup size flushing (b, e, w, inl f) = (b, e, inl cc, inl f)
leaves-Valid at_read outs blocked wakeup size flushing (b, e, w, inr (inl f)) =
    (b, e, inl cc, inr (inl f))
leaves-Valid at_read outs blocked wakeup size flushing (b, e, w, inr (inr f)) = absurd (cc f)
leaves-Valid in_write outs blocked wakeup size flushing v = v
leaves-Valid elsewhere outs blocked wakeup size flushing v = v

flush_async-IsValid : (task : ℕ) (q : Queue) → IsValid q → IsValid (flush_async task q)
unfolding flush_async
flush_async-IsValid task q v =
    IsValid-if (not q.ready) _ _ (λ e. v)
      λ e.
        IsValid-if (is_empty q.xmit_queue) _ _ (λ z. v)
          λ z. (v.0, v.1, v.2, inr (inl (nonempty q.xmit_queue z)))
  where
    nonempty : (outs : List Out) → is_empty outs ≡ false → outs ≢ []
    nonempty [] e = absurd (cc e)
    nonempty (o ∷ outs) e = cc

round_in-IsValid : (p : Place) (q : Queue) → q.place ≡ p → IsValid q → IsValid (round_in p q)
unfolding iterate_round
round_in-IsValid at_read q e v = v
round_in-IsValid in_write q e v = round-Valid q.xmit_queue q e v
round_in-IsValid elsewhere q e v = v

-- Every event keeps the queue valid, in whatever order they come.
pub step-IsValid : (e : Event) (q : Queue) → IsValid q → IsValid (step e q)
unfolding step idle_wakeup channel_reset channel_flushed channel_connect
step-IsValid (sends out) q v = msg_out_send-IsValid out q v
step-IsValid wakes q v =
    IsValid-if q.wakeup _ _
      (λ e. wake-Valid q.place q.xmit_queue q.blocked q.wakeup q.xmit_queue_size q.flushing v)
      (λ e. v)
step-IsValid round q v = round_in-IsValid q.place q refl v
step-IsValid reads q v =
    leaves-Valid q.place q.xmit_queue q.blocked q.wakeup q.xmit_queue_size q.flushing v
step-IsValid begins q v =
    begins-Valid q.place q.xmit_queue q.blocked q.wakeup q.xmit_queue_size q.flushing v
step-IsValid (flushes task) q v = flush_async-IsValid task q v
step-IsValid resets q v = (inr refl, inl refl, inl cc, inl refl)
step-IsValid connects q (b, e, w, f) = (inl refl, e, w, f)
step-IsValid (becomes ready) q v = v

-- From a new channel on, whatever happens to it and in whatever order: a blocked queue is empty, the
-- queue's size is that of its messages if it has any, no message is left without a wakeup where the
-- coroutine waits to read, and no flush waits where nothing is queued and the loop of writes is over.
pub run-IsValid : (events : List Event) → IsValid (run events spice_channel_init)
unfolding run
run-IsValid events = go events spice_channel_init (inl refl, inl refl, inl cc, inl refl)
  where
    go : (events : List Event) (q : Queue) → IsValid q → IsValid (run events q)
    go [] q v = v
    go (e ∷ events) q v = go events (step e q) (step-IsValid e q v)
