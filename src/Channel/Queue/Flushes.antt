-- ===== src/Channel/Queue/Flushes.antt =====
-- What becomes of the flushes and the messages of src/spice-channel.c: each is counted once.
use spice_gtk.Base.{
  ℕ, ◌+◌, ◌≡◌, refl, ap, ◌∙◌, Bool, true, false, not, List, [], ◌∷◌, ◌++◌, arith, ◌==◌,
  if◌then◌else◌, Bool-cases, inl, inr, if_true, if_false,
}
use spice_gtk.Channel.Queue.{
  Out, Answer, Place, at_read, in_write, elsewhere, Queue, is_empty, msg_out_send, idle_wakeup,
  channel_flushed, answer_all, write_round, iterate_round, flush_async, channel_reset,
  channel_connect, Event, sends, wakes, round, reads, begins, flushes, resets, connects, becomes,
  round_in, step, run, spice_channel_init,
}

-- How often `key` is the key of one.
abbrev pub count : {A : Type 0} → (A → ℕ) → (key : ℕ) → List A → ℕ
count f key [] = 0
count f key (x ∷ xs) = (if f x == key then 1 else 0) + count f key xs

count-append :
    {A : Type 0} (f : A → ℕ) (key : ℕ) (xs ys : List A)
    → count f key (xs ++ ys) ≡ count f key xs + count f key ys
count-append f key [] ys = omega arith
count-append f key (x ∷ xs) ys = omega (arith, count-append f key xs ys)

abbrev task_of : Answer → ℕ
task_of a = a.task

abbrev same : ℕ → ℕ
same n = n

abbrev id_of : Out → ℕ
id_of out = out.id

-- How often a flush has been asked for and not refused or answered, and answered.
abbrev pub flush_count : (task : ℕ) → Queue → ℕ
flush_count task q = count task_of task q.answers + count same task q.flushing

abbrev pub out_count : (id : ℕ) → Queue → ℕ
out_count id q = count id_of id q.written + count id_of id q.xmit_queue + count id_of id q.dropped

count-answer_all :
    (success : Bool) (task : ℕ) (tasks : List ℕ)
    → count task_of task (answer_all success tasks) ≡ count same task tasks
count-answer_all success task [] = refl
count-answer_all success task (t ∷ tasks) = omega (arith, count-answer_all success task tasks)

channel_flushed-count :
    (success : Bool) (task : ℕ) (q : Queue)
    → flush_count task (channel_flushed success q) ≡ flush_count task q
unfolding channel_flushed
channel_flushed-count success task q = omega (
  arith,
  count-append task_of task q.answers (answer_all success q.flushing),
  count-answer_all success task q.flushing,
)

-- What an event asks for, of flushes and of messages.
abbrev pub asks : (task : ℕ) → Event → ℕ
asks task (flushes t) = if t == task then 1 else 0
asks task e = 0

abbrev pub asked : (task : ℕ) → List Event → ℕ
asked task [] = 0
asked task (e ∷ events) = asks task e + asked task events

abbrev pub gives : (id : ℕ) → Event → ℕ
gives id (sends out) = if out.id == id then 1 else 0
gives id e = 0

abbrev pub given : (id : ℕ) → List Event → ℕ
given id [] = 0
given id (e ∷ events) = gives id e + given id events

flush_async-count :
    (t task : ℕ) (q : Queue)
    → flush_count task (flush_async t q) ≡ (if t == task then 1 else 0) + flush_count task q
unfolding flush_async
flush_async-count t task q = elim (Bool-cases (not q.ready)) [
  | inl e ↦
      ap (flush_count task) (if_true _ _ e)
      ∙ omega
          (arith, count-append task_of task q.answers (record { task = t; success = false } ∷ []))
  | inr e ↦ elim (Bool-cases (is_empty q.xmit_queue)) [
    | inl z ↦
        ap (flush_count task) (if_false _ _ e ∙ if_true _ _ z)
        ∙ omega
            (arith, count-append task_of task q.answers (record { task = t; success = true } ∷ []))
    | inr z ↦
        ap (flush_count task) (if_false _ _ e ∙ if_false _ _ z)
        ∙ omega (arith, count-append same task q.flushing (t ∷ []))
  ]
]

msg_out_send-count :
    (out : Out) (id : ℕ) (q : Queue)
    → out_count id (msg_out_send out q) ≡ (if out.id == id then 1 else 0) + out_count id q
unfolding msg_out_send
msg_out_send-count out id q = elim (Bool-cases q.blocked) [
  | inl e ↦
      ap (out_count id) (if_true _ _ e) ∙ omega (arith, count-append id_of id q.dropped (out ∷ []))
  | inr e ↦
      ap (out_count id) (if_false _ _ e)
      ∙ omega (arith, count-append id_of id q.xmit_queue (out ∷ []))
]

-- An operation keeps both counts.
abbrev Keeps : Queue → Queue → Type 0
Keeps q q' =
    ((task : ℕ) → flush_count task q' ≡ flush_count task q)
    × ((id : ℕ) → out_count id q' ≡ out_count id q)

write_round-Keeps :
    (outs : List Out) (q : Queue) → q.xmit_queue ≡ outs → Keeps q (write_round outs q)
unfolding channel_flushed
write_round-Keeps [] q e =
    (λ task. channel_flushed-count true task q, λ id. omega (arith, ap (count id_of id) e))
write_round-Keeps (out ∷ outs) q e = (
  λ task. refl,
  λ id. omega (arith, ap (count id_of id) e, count-append id_of id q.written (out ∷ [])),
)

round_in-Keeps : (p : Place) (q : Queue) → Keeps q (round_in p q)
unfolding iterate_round
round_in-Keeps at_read q = (λ task. refl, λ id. refl)
round_in-Keeps in_write q = write_round-Keeps q.xmit_queue q refl
round_in-Keeps elsewhere q = (λ task. refl, λ id. refl)

Keeps-if : (b : Bool) (q x y : Queue) → Keeps q x → Keeps q y → Keeps q (if b then x else y)
Keeps-if true q x y p r = p
Keeps-if false q x y p r = r

channel_reset-Keeps : (q : Queue) → Keeps q (channel_reset q)
unfolding channel_reset channel_flushed
channel_reset-Keeps q = (
  λ task. channel_flushed-count (is_empty q.xmit_queue) task q,
  λ id. omega (arith, count-append id_of id q.dropped q.xmit_queue),
)

-- An event that asks for nothing and gives nothing.
abbrev Counts : (asks gives : ℕ → ℕ) → Queue → Queue → Type 0
Counts asks gives q q' =
    ((task : ℕ) → flush_count task q' ≡ asks task + flush_count task q)
    × ((id : ℕ) → out_count id q' ≡ gives id + out_count id q)

idle : (q q' : Queue) → Keeps q q' → Counts (λ t. 0) (λ i. 0) q q'
idle q q' (f, o) = (λ task. omega (arith, f task), λ id. omega (arith, o id))

unmoved : (q : Queue) → Counts (λ t. 0) (λ i. 0) q q
unmoved q = (λ task. omega arith, λ id. omega arith)

msg_out_send-flushes :
    (out : Out) (task : ℕ) (q : Queue) → flush_count task (msg_out_send out q) ≡ flush_count task q
unfolding msg_out_send
msg_out_send-flushes out task q = elim (Bool-cases q.blocked) [
  | inl e ↦ ap (flush_count task) (if_true _ _ e)
  | inr e ↦ ap (flush_count task) (if_false _ _ e)
]

flush_async-outs : (t id : ℕ) (q : Queue) → out_count id (flush_async t q) ≡ out_count id q
unfolding flush_async
flush_async-outs t id q = elim (Bool-cases (not q.ready)) [
  | inl e ↦ ap (out_count id) (if_true _ _ e)
  | inr e ↦ elim (Bool-cases (is_empty q.xmit_queue)) [
    | inl z ↦ ap (out_count id) (if_false _ _ e ∙ if_true _ _ z)
    | inr z ↦ ap (out_count id) (if_false _ _ e ∙ if_false _ _ z)
  ]
]

step-count : (e : Event) (q : Queue) → Counts (λ t. asks t e) (λ i. gives i e) q (step e q)
unfolding step idle_wakeup channel_connect
step-count (sends out) q =
    (λ task. omega (arith, msg_out_send-flushes out task q), λ id. msg_out_send-count out id q)
step-count wakes q =
    idle q (step wakes q)
      (Keeps-if q.wakeup q _ q (λ task. refl, λ id. refl) (λ task. refl, λ id. refl))
step-count round q = idle q (step round q) (round_in-Keeps q.place q)
step-count reads q = unmoved q
step-count begins q = unmoved q
step-count (flushes t) q =
    (λ task. flush_async-count t task q, λ id. omega (arith, flush_async-outs t id q))
step-count resets q = idle q (channel_reset q) (channel_reset-Keeps q)
step-count connects q = unmoved q
step-count (becomes ready) q = unmoved q

-- Whatever happens to a new channel and in whatever order, resets and new connections among it: each
-- flush is answered or waits, as often as it was asked for, and each message is handed on, queued or
-- thrown away, as often as it was sent.
pub run-count :
    (events : List Event) (task id : ℕ)
    → let q = run events spice_channel_init in
      (flush_count task q ≡ asked task events) × (out_count id q ≡ given id events)
unfolding run
run-count events task id =
    let (f, o) = go events spice_channel_init in (omega (arith, f), omega (arith, o))
  where
    go :
        (events : List Event) (q : Queue)
        → (flush_count task (run events q) ≡ asked task events + flush_count task q)
          × (out_count id (run events q) ≡ given id events + out_count id q)
    go [] q = (omega arith, omega arith)
    go (e ∷ events) q =
        let (f, o) = go events (step e q) in
        let (g, p) = step-count e q in (omega (arith, f, g task), omega (arith, o, p id))
