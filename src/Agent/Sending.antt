-- ===== src/Agent/Sending.antt =====
-- Sessions of the queue of packets to the agent in src/channel-main.c, and what its loop sends.
use spice_gtk.Base.Table.{Table, lookup, remove, lookup-remove}
use spice_gtk.Base.{
  ℕ, suc, ◌+◌, ◌-◌, ◌<◌, ◌≡◌, refl, ap, sym, ◌∙◌, Bool, true, false, not, ◌&&◌, ◌||◌, Option, none,
  some, List, [], ◌∷◌, ◌++◌, append-nil, append_assoc, ◌==◌, arith, length, Bool-cases, inl, inr,
  if_true, if_false,
}
use spice_gtk.Agent.{Bytes}
use spice_gtk.Agent.Outgoing.{
  Packet, Outbox, Event, sent, flushed, has_token, finish_flush, send_loop, is_empty,
  agent_send_msg_queue, last_key, file_xfer_flush_async, enqueue, handle_agent_token,
  handle_agent_connected_tokens, reset_agent,
}

-- What happens to the queue between two resets.
pub data Op : Type 0 where
  post : (packets : List Bytes) → Op
  grant : (num_tokens : ℕ) → Op
  connect : (announced : List Bytes) (num_tokens : ℕ) → Op
  send : Op
  flush : (task : ℕ) → Op
  disconnect : Op

unfoldable pub step : Op → Outbox → Outbox × List Event
step (post packets) o = (enqueue packets o, [])
step (grant n) o = handle_agent_token n o
step (connect announced n) o = handle_agent_connected_tokens announced n o
step send o = agent_send_msg_queue o
step (flush task) o = file_xfer_flush_async task o
step disconnect o = reset_agent o

unfoldable pub run : List Op → Outbox → Outbox × List Event
unfolding step
run [] o = (o, [])
run (op ∷ ops) o = let r = step op o in let rest = run ops r.0 in (rest.0, r.1 ++ rest.1)

abbrev pub posted : List Op → List Bytes
posted [] = []
posted (post packets ∷ ops) = packets ++ posted ops
posted (connect announced n ∷ ops) = announced ++ posted ops
posted (_ ∷ ops) = posted ops

abbrev pub granted : List Op → ℕ
granted [] = 0
granted (grant n ∷ ops) = n + granted ops
granted (connect announced n ∷ ops) = n + granted ops
granted (_ ∷ ops) = granted ops

-- The tokens that are written over when the agent comes.
abbrev pub overwritten : Op → Outbox → ℕ
overwritten (connect announced n) o = o.agent_tokens
overwritten _ o = 0

abbrev pub discarded : List Op → Outbox → ℕ
discarded [] o = 0
discarded (op ∷ ops) o = overwritten op o + discarded ops (step op o).0

-- How often the agent goes away.
abbrev pub disconnects : List Op → ℕ
disconnects [] = 0
disconnects (disconnect ∷ ops) = suc (disconnects ops)
disconnects (_ ∷ ops) = disconnects ops

abbrev pub sent_bytes : List Event → List Bytes
sent_bytes [] = []
sent_bytes (sent m ∷ es) = m.bytes ∷ sent_bytes es
sent_bytes (flushed t b ∷ es) = sent_bytes es

abbrev pub bytes_of : List Packet → List Bytes
bytes_of [] = []
bytes_of (m ∷ q) = m.bytes ∷ bytes_of q

abbrev pub has_key : ℕ → List Packet → Bool
has_key k [] = false
has_key k (m ∷ q) = m.key == k || has_key k q

-- Every flush waits for a packet that is in the queue.
abbrev pub Covered : Table ℕ → List Packet → Type 0
Covered flushing q = (k t : ℕ) → lookup k flushing ≡ some t → has_key k q ≡ true

abbrev pub IsValid : Outbox → Type 0
IsValid o = Covered o.flushing o.agent_msg_queue

-- The flushes that an event list fails.
abbrev pub failures : List Event → ℕ
failures [] = 0
failures (sent m ∷ es) = failures es
failures (flushed t true ∷ es) = failures es
failures (flushed t false ∷ es) = suc (failures es)

pub sent_bytes-append :
    (es fs : List Event) → sent_bytes (es ++ fs) ≡ sent_bytes es ++ sent_bytes fs
sent_bytes-append [] fs = refl
sent_bytes-append (sent m ∷ es) fs = ap (◌∷◌ m.bytes) (sent_bytes-append es fs)
sent_bytes-append (flushed t b ∷ es) fs = sent_bytes-append es fs

pub bytes_of-append : (q r : List Packet) → bytes_of (q ++ r) ≡ bytes_of q ++ bytes_of r
bytes_of-append [] r = refl
bytes_of-append (m ∷ q) r = ap (◌∷◌ m.bytes) (bytes_of-append q r)

pub has_key-append : (k : ℕ) (q r : List Packet) → has_key k (q ++ r) ≡ has_key k q || has_key k r
has_key-append k [] r = refl
has_key-append k (m ∷ q) r = elim (Bool-cases (m.key == k)) [
  | inl e ↦ rw e refl
  | inr e ↦ rw e (has_key-append k q r)
]

pub empty_table : (f : Table ℕ) → ((k t : ℕ) → lookup k f ≡ some t → false ≡ true) → f ≡ []
unfolding lookup
empty_table [] h = refl
empty_table ((k, t) ∷ f) h =
    let e : (k == k) ≡ true = ground arith in absurd (cc (h k t (if_true _ _ e)))

-- What a round of the loop keeps: the rest is covered, in order, and each packet costs a token.
abbrev pub Sends : List Packet → ℕ → Outbox × List Event → Type 0
Sends q tokens r =
    (sent_bytes r.1 ++ bytes_of r.0.agent_msg_queue ≡ bytes_of q)
    × (r.0.agent_tokens + length (sent_bytes r.1) ≡ tokens)

pub sent_bytes-finish :
    (t : Option ℕ) (es : List Event) → sent_bytes (finish_flush t ++ es) ≡ sent_bytes es
sent_bytes-finish none es = refl
sent_bytes-finish (some t) es = refl

pub send_loop-Sends :
    (q : List Packet) (tokens : ℕ) (f : Table ℕ) (o : Outbox)
    → Sends q tokens (send_loop q tokens f o)
unfolding send_loop
send_loop-Sends [] tokens f o = (refl, omega arith)
send_loop-Sends (m ∷ q) tokens f o = elim (Bool-cases (has_token tokens)) [
  | inr e ↦ rw e (refl, omega arith)
  | inl e ↦
      let (order, count) = send_loop-Sends q (tokens - 1) (remove m.key f) o in
      let one : 0 < tokens = ground arith in
      let skip =
        sent_bytes-finish (lookup m.key f) (send_loop q (tokens - 1) (remove m.key f) o).1 in
      rw (e, skip) (ap (◌∷◌ m.bytes) order, omega (arith, count))
]

pub send_loop-Covered :
    (q : List Packet) (tokens : ℕ) (f : Table ℕ) (o : Outbox)
    → Covered f q
    → let r = send_loop q tokens f o in Covered r.0.flushing r.0.agent_msg_queue
unfolding send_loop
send_loop-Covered [] tokens f o c = c
send_loop-Covered (m ∷ q) tokens f o c = elim (Bool-cases (has_token tokens)) [
  | inr e ↦ rw e c
  | inl e ↦ rw e (
      send_loop-Covered q (tokens - 1) (remove m.key f) o (λ k t h. elim (Bool-cases (m.key == k)) [
        | inl same ↦
            let gone = lookup-remove m.key k f ∙ if_true _ _ same in absurd (cc (sym gone ∙ h))
        | inr other ↦
            let kept = lookup-remove m.key k f ∙ if_false _ _ other in
            let there = c k t (sym kept ∙ h) in ground arith
      ]))
]

pub no_surprise :
    (q : List Packet) (f : Table ℕ) → Covered f q → (is_empty q && not (is_empty f)) ≡ false
no_surprise [] f c = let e = empty_table f c in rw e refl
no_surprise (m ∷ q) f c = refl

-- The queue is sent without the warning about an unexpected flush task.
pub agent_send-expected :
    (o : Outbox)
    → IsValid o
    → agent_send_msg_queue o ≡ send_loop o.agent_msg_queue o.agent_tokens o.flushing o
unfolding agent_send_msg_queue
agent_send-expected o v =
    let c = send_loop-Covered o.agent_msg_queue o.agent_tokens o.flushing o v in
    if_false _ _ (no_surprise _ _ c)

pub enqueue-Covered : (ps : List Bytes) (o : Outbox) → IsValid o → IsValid (enqueue ps o)
unfolding enqueue
enqueue-Covered [] o v = v
enqueue-Covered (p ∷ ps) o v =
    enqueue-Covered ps _
      (λ k t h. rw (has_key-append k o.agent_msg_queue _) (ground (arith, v k t)))

pub enqueue_lem :
    (ps : List Bytes) (o : Outbox)
    → (bytes_of (enqueue ps o).agent_msg_queue ≡ bytes_of o.agent_msg_queue ++ ps)
      × ((enqueue ps o).agent_tokens ≡ o.agent_tokens)
unfolding enqueue
enqueue_lem [] o = (sym (append-nil _), refl)
enqueue_lem (p ∷ ps) o =
    let m : Packet = record { key = o.fresh; bytes = p } in
    let (order, tokens) =
      enqueue_lem ps
        (record o { agent_msg_queue = o.agent_msg_queue ++ (m ∷ []); fresh = suc o.fresh }) in
    (
      order
          ∙ rw (bytes_of-append o.agent_msg_queue (m ∷ []))
              (append_assoc (bytes_of o.agent_msg_queue) (p ∷ []) ps),
      tokens,
    )

pub last_key-has_key : (q : List Packet) (k : ℕ) → last_key q ≡ some k → has_key k q ≡ true
last_key-has_key [] k e = cc
last_key-has_key (m ∷ []) k e = ground arith
last_key-has_key (m ∷ (n ∷ q)) k e = let i = last_key-has_key (n ∷ q) k e in ground arith
