-- ===== src/Channel/Queue.antt =====
-- src/spice-channel.c: the queue of messages to be sent, its wakeup and the flushes that wait for it.
-- Messages may be queued between any two rounds of the coroutine's loop, not within one; a message
-- is its identity and its size. The order of what is handed to `spice_channel_write_msg` is kept.
pub mod Invariant
pub mod Order
pub mod Flushes
use spice_gtk.Base.{
  ℕ, zero, suc, ◌+◌, ◌-◌, ◌≡◌, Bool, true, false, not, ◌&&◌, List, [], ◌∷◌, ◌++◌, ltb,
  if◌then◌else◌,
}

pub record Out : Type 0 where
  pub id : ℕ
  pub size : ℕ

-- A flush that has been answered, and how.
pub record Answer : Type 0 where
  pub task : ℕ
  pub success : Bool

-- Where the coroutine is: it waits for something to read, with no message begun; it is in the loop of
-- `spice_channel_iterate_write`; or it is elsewhere, in a message, or in none if there is no
-- coroutine.
pub data Place : Type 0 where
  at_read in_write elsewhere : Place

-- `wakeup` is whether `xmit_queue_wakeup_id` is not 0; `ready` is whether the state is READY. What has
-- been handed on, thrown away and answered is kept in `written`, `dropped` and `answers`.
pub record Queue : Type 0 where
  pub ready : Bool
  pub place : Place
  pub xmit_queue : List Out
  pub blocked : Bool
  pub wakeup : Bool
  pub xmit_queue_size : ℕ
  pub flushing : List ℕ
  pub written : List Out
  pub dropped : List Out
  pub answers : List Answer

abbrev pub spice_channel_init : Queue
spice_channel_init = record {
  ready = false;
  place = elsewhere;
  xmit_queue = [];
  blocked = false;
  wakeup = false;
  xmit_queue_size = 0;
  flushing = [];
  written = [];
  dropped = [];
  answers = [];
}

abbrev pub is_empty {ℓ} : {A : Type ℓ} → List A → Bool
is_empty [] = true
is_empty (x ∷ xs) = false

-- A message that meets a blocked queue is dropped.
unfoldable pub msg_out_send : Out → Queue → Queue
msg_out_send out q =
    let was_empty = is_empty q.xmit_queue in
    if q.blocked then record q { dropped = q.dropped ++ (out ∷ []) } else record q {
      xmit_queue = q.xmit_queue ++ (out ∷ []);
      xmit_queue_size = if was_empty then out.size else q.xmit_queue_size + out.size;
      wakeup = if was_empty && not q.wakeup then true else q.wakeup;
    }

-- Only a coroutine that waits to read goes on to write because of it.
abbrev pub woken : Place → Place
woken at_read = in_write
woken p = p

-- The timeout, which is there while `wakeup` is set.
unfoldable pub idle_wakeup : Queue → Queue
idle_wakeup q = record q { wakeup = false; place = woken q.place }

abbrev pub answer_all : Bool → List ℕ → List Answer
answer_all success [] = []
answer_all success (t ∷ tasks) = record { task = t; success = success } ∷ answer_all success tasks

unfoldable pub channel_flushed : (success : Bool) → Queue → Queue
channel_flushed success q = record q {
  answers = q.answers ++ answer_all success q.flushing;
  flushing = [];
}

-- One round of the loop of `spice_channel_iterate_write`; the last one answers the flushes and goes
-- on to read.
abbrev pub write_round : List Out → Queue → Queue
write_round [] q = record (channel_flushed true q) { xmit_queue = []; place = at_read }
write_round (out ∷ outs) q = record q {
  xmit_queue = outs;
  xmit_queue_size = if ltb q.xmit_queue_size out.size then 0 else q.xmit_queue_size - out.size;
  written = q.written ++ (out ∷ []);
}

unfoldable pub iterate_round : Queue → Queue
unfolding channel_flushed
iterate_round q = write_round q.xmit_queue q

-- The loop without a message that is queued between its rounds, on fuel.
unfoldable pub iterate_write : (fuel : ℕ) → Queue → Queue
unfolding iterate_round
iterate_write zero q = q
iterate_write (suc fuel) q =
    let last = is_empty q.xmit_queue in
    let rest = iterate_write fuel (iterate_round q) in if last then iterate_round q else rest

-- A flush is refused, or answered at once, or it waits.
unfoldable pub flush_async : (task : ℕ) → Queue → Queue
flush_async task q =
    if not q.ready
    then record q { answers = q.answers ++ (record { task = task; success = false } ∷ []) }
    else (if is_empty q.xmit_queue
        then record q { answers = q.answers ++ (record { task = task; success = true } ∷ []) }
        else record q { flushing = q.flushing ++ (task ∷ []) })

-- The part of `channel_reset` for the queue, which leaves its size.
unfoldable pub channel_reset : Queue → Queue
unfolding channel_flushed
channel_reset q = channel_flushed (is_empty q.xmit_queue) (record q {
  blocked = true;
  dropped = q.dropped ++ q.xmit_queue;
  xmit_queue = [];
  wakeup = false;
})

-- The part of `channel_connect` for the queue.
unfoldable pub channel_connect : Queue → Queue
channel_connect q = record q { blocked = false }

-- What can happen to a channel. The coroutine leaves the wait for something to read when there is
-- something, ends a message, or comes to the loop of writes; it ends with a reset, and the state
-- changes with it.
pub data Event : Type 0 where
  sends : Out → Event
  wakes : Event
  round : Event
  reads : Event
  begins : Event
  flushes : (task : ℕ) → Event
  resets : Event
  connects : Event
  becomes : (ready : Bool) → Event

abbrev pub leaves_read : Place → Place
leaves_read at_read = elsewhere
leaves_read p = p

abbrev pub begins_write : Place → Place
begins_write elsewhere = in_write
begins_write p = p

abbrev pub round_in : Place → Queue → Queue
round_in in_write q = iterate_round q
round_in p q = q

-- An event that cannot be is none.
unfoldable pub step : Event → Queue → Queue
unfolding msg_out_send idle_wakeup iterate_round flush_async channel_reset channel_connect
step (sends out) q = msg_out_send out q
step wakes q = if q.wakeup then idle_wakeup q else q
step round q = round_in q.place q
step reads q = record q { place = leaves_read q.place }
step begins q = record q { place = begins_write q.place }
step (flushes task) q = flush_async task q
step resets q = record (channel_reset q) { place = elsewhere }
step connects q = channel_connect q
step (becomes ready) q = record q { ready = ready }

unfoldable pub run : List Event → Queue → Queue
unfolding step
run [] q = q
run (e ∷ events) q = run events (step e q)
