-- ===== src/Agent/Tokens.antt =====
-- The queue of packets to the agent in src/channel-main.c over whole sessions: order, tokens, flushes.
use spice_gtk.Base.Table.{Table, lookup, remove, lookup-insert}
use spice_gtk.Base.{
  ℕ, ◌+◌, ◌-◌, ◌%◌, ◌^◌, ◌<◌, ◌≡◌, refl, ap, sym, ◌∙◌, Bool, true, false, Option, none, some, List,
  [], ◌∷◌, ◌++◌, append-nil, append_assoc, ◌==◌, arith, length, Bool-cases, Option-cases, inl, inr,
  if_false, ==_iff, length-append,
}
use spice_gtk.Agent.{Bytes}
use spice_gtk.Agent.Outgoing.{
  Packet, Outbox, Event, sent, flushed, all_flushed, reset_agent, has_token, finish_flush,
  send_loop, agent_send_msg_queue, last_key, file_xfer_flush_async, enqueue, handle_agent_token,
  handle_agent_connected_tokens,
}
use spice_gtk.Agent.Sending.{
  Op, post, grant, connect, send, flush, disconnect, disconnects, step, run, posted, granted,
  overwritten, discarded, sent_bytes, bytes_of, IsValid, failures, sent_bytes-append,
  send_loop-Sends, send_loop-Covered, agent_send-expected, enqueue-Covered, enqueue_lem,
  last_key-has_key,
}

pub step-IsValid : (op : Op) (o : Outbox) → IsValid o → IsValid (step op o).0
unfolding step handle_agent_token handle_agent_connected_tokens file_xfer_flush_async reset_agent
    lookup
step-IsValid (post ps) o v = enqueue-Covered ps o v
step-IsValid (grant n) o v =
    rw (agent_send-expected (record o { agent_tokens = (o.agent_tokens + n) % 2 ^ 32 }) v)
      (send_loop-Covered o.agent_msg_queue ((o.agent_tokens + n) % 2 ^ 32) o.flushing _ v)
step-IsValid (connect ps n) o v =
    let o' = enqueue ps (record o { agent_tokens = n }) in
    let v' = enqueue-Covered ps (record o { agent_tokens = n }) v in
    rw (agent_send-expected o' v')
      (send_loop-Covered o'.agent_msg_queue o'.agent_tokens o'.flushing o' v')
step-IsValid send o v =
    rw (agent_send-expected o v) (send_loop-Covered o.agent_msg_queue o.agent_tokens o.flushing o v)
step-IsValid (flush task) o v = elim (Option-cases (last_key o.agent_msg_queue)) [
  | inl e ↦ rw (e, file_xfer_flush_async) v
  | inr (key, e) ↦
      rw (e, file_xfer_flush_async)
        (λ k t h. elim (Bool-cases (key == k)) [
          | inl same ↦
              let here = (==_iff key k).0 same in
              rw (← here) (last_key-has_key o.agent_msg_queue key e)
          | inr other ↦ v k t (sym (lookup-insert key k task o.flushing ∙ if_false _ _ other) ∙ h)
        ])
]
step-IsValid disconnect o v = λ k t h. let e : ◌≡◌ {A = Option ℕ} none (some t) = h in absurd (cc e)

-- What a call does to the bytes and the tokens, with no flush failed while the agent
-- is there.
abbrev Keeps : List Bytes → ℕ → ℕ → ℕ → Outbox → Outbox × List Event → Type 0
Keeps new tokens lost gone o r =
    (sent_bytes r.1 ++ bytes_of r.0.agent_msg_queue ≡ bytes_of o.agent_msg_queue ++ new)
    × (r.0.agent_tokens + length (sent_bytes r.1) + lost ≡ o.agent_tokens + tokens)
    × (gone ≡ 0 → failures r.1 ≡ 0)

failures-append : (es fs : List Event) → failures (es ++ fs) ≡ failures es + failures fs
failures-append [] fs = omega arith
failures-append (sent m ∷ es) fs = failures-append es fs
failures-append (flushed t true ∷ es) fs = failures-append es fs
failures-append (flushed t false ∷ es) fs = omega (arith, failures-append es fs)

failures-finish : (t : Option ℕ) (es : List Event) → failures (finish_flush t ++ es) ≡ failures es
failures-finish none es = refl
failures-finish (some t) es = refl

send_loop-failures :
    (q : List Packet) (tokens : ℕ) (f : Table ℕ) (o : Outbox)
    → failures (send_loop q tokens f o).1 ≡ 0
unfolding send_loop
send_loop-failures [] tokens f o = refl
send_loop-failures (m ∷ q) tokens f o = elim (Bool-cases (has_token tokens)) [
  | inr e ↦ rw e refl
  | inl e ↦ rw (e, failures-finish) (send_loop-failures q (tokens - 1) (remove m.key f) o)
]

send-Keeps : (o : Outbox) → IsValid o → Keeps [] 0 0 0 o (agent_send_msg_queue o)
send-Keeps o v =
    let (order, count) = send_loop-Sends o.agent_msg_queue o.agent_tokens o.flushing o in
    rw (agent_send-expected o v) (
      order ∙ sym (append-nil _),
      omega (arith, count),
      λ z. send_loop-failures o.agent_msg_queue o.agent_tokens o.flushing o,
    )

sent_bytes-all_flushed : (success : Bool) (f : Table ℕ) → sent_bytes (all_flushed success f) ≡ []
sent_bytes-all_flushed success [] = refl
sent_bytes-all_flushed success ((key, task) ∷ f) = sent_bytes-all_flushed success f

step-Keeps :
    (op : Op) (o : Outbox)
    → IsValid o
    → o.agent_tokens + granted (op ∷ []) < 2 ^ 31
    → Keeps
        (posted (op ∷ []))
        (granted (op ∷ []))
        (overwritten op o)
        (disconnects (op ∷ []))
        o
        (step op o)
unfolding step handle_agent_token handle_agent_connected_tokens file_xfer_flush_async reset_agent
    lookup
step-Keeps (post ps) o v small =
    let (order, tokens) = enqueue_lem ps o in
    (rw (append-nil ps) order, omega (arith, tokens), λ z. refl)
step-Keeps (grant n) o v small =
    let k : (o.agent_tokens + n) % 2 ^ 32 ≡ o.agent_tokens + n = omega arith in
    rw k (
      let (order, count, fine) = send-Keeps (record o { agent_tokens = o.agent_tokens + n }) v in
      (order, omega (arith, count), fine))
step-Keeps (connect ps n) o v small =
    let o' = record o { agent_tokens = n } in
    let (order, tokens) = enqueue_lem ps o' in
    let (order', count, fine) = send-Keeps (enqueue ps o') (enqueue-Covered ps o' v) in
    (order' ∙ (append-nil _ ∙ rw (append-nil ps) order), omega (arith, count, tokens), fine)
step-Keeps send o v small = send-Keeps o v
step-Keeps (flush task) o v small = elim (Option-cases (last_key o.agent_msg_queue)) [
  | inl e ↦ rw (e, file_xfer_flush_async) (sym (append-nil _), omega arith, λ z. refl)
  | inr (key, e) ↦ rw (e, file_xfer_flush_async) (sym (append-nil _), omega arith, λ z. refl)
]
step-Keeps disconnect o v small =
    rw (sent_bytes-all_flushed false o.flushing)
      (sym (append-nil _), omega arith, λ z. absurd (omega arith))

posted-cons : (op : Op) (ops : List Op) → posted (op ∷ ops) ≡ posted (op ∷ []) ++ posted ops
posted-cons (post ps) ops = rw (append-nil ps) refl
posted-cons (grant n) ops = refl
posted-cons (connect ps n) ops = rw (append-nil ps) refl
posted-cons send ops = refl
posted-cons (flush t) ops = refl
posted-cons disconnect ops = refl

granted-cons : (op : Op) (ops : List Op) → granted (op ∷ ops) ≡ granted (op ∷ []) + granted ops
granted-cons (post ps) ops = omega arith
granted-cons (grant n) ops = omega arith
granted-cons (connect ps n) ops = omega arith
granted-cons send ops = omega arith
granted-cons (flush t) ops = omega arith
granted-cons disconnect ops = omega arith

disconnects-cons :
    (op : Op) (ops : List Op) → disconnects (op ∷ ops) ≡ disconnects (op ∷ []) + disconnects ops
disconnects-cons (post ps) ops = omega arith
disconnects-cons (grant n) ops = omega arith
disconnects-cons (connect ps n) ops = omega arith
disconnects-cons send ops = omega arith
disconnects-cons (flush t) ops = omega arith
disconnects-cons disconnect ops = omega arith

-- Between two resets, while the tokens fit an `int` and at the start every flush that is pending waits
-- for a packet in the queue, the packets go out in the order in which they
-- were posted, none lost or doubled, each for one token, also where the agent goes away and comes
-- back: the tokens that are left are those there were and those that were granted, less one for each
-- packet sent and less those that were written over when the agent came. No flush is failed unless
-- the agent goes away, and at the end again every flush that is pending waits for a packet in the
-- queue.
pub run-in_order :
    (ops : List Op) (o : Outbox)
    → IsValid o
    → o.agent_tokens + granted ops < 2 ^ 31
    → let r = run ops o in
      (sent_bytes r.1 ++ bytes_of r.0.agent_msg_queue ≡ bytes_of o.agent_msg_queue ++ posted ops)
      × (r.0.agent_tokens + length (sent_bytes r.1) + discarded ops o
          ≡ o.agent_tokens + granted ops)
      × (disconnects ops ≡ 0 → failures r.1 ≡ 0)
      × IsValid r.0
unfolding run
run-in_order [] o v small = (sym (append-nil _), omega arith, λ z. refl, v)
run-in_order (op ∷ ops) o v small =
    let g = granted-cons op ops in
    let r = step op o in
    let (order, count, fine) = step-Keeps op o v (omega arith) in
    let (order', count', fine', v') = run-in_order ops r.0 (step-IsValid op o v) (omega arith) in
    let bytes = sent_bytes-append r.1 (run ops r.0).1 in
    let lens = length-append (sent_bytes r.1) (sent_bytes (run ops r.0).1) in
    let d = disconnects-cons op ops in
    let fails = failures-append r.1 (run ops r.0).1 in
    (
      rw (bytes, posted-cons op ops)
          (append_assoc (sent_bytes r.1) _ _
            ∙ (ap (λ t. sent_bytes r.1 ++ t) order'
                ∙ (sym (append_assoc (sent_bytes r.1) _ _)
                    ∙ (ap (λ t. t ++ posted ops) order
                        ∙ append_assoc (bytes_of o.agent_msg_queue) (posted (op ∷ []))
                            (posted ops))))),
      rw bytes (omega (arith, lens)),
      λ z. let a = fine (omega arith) in let b = fine' (omega arith) in omega (arith, fails),
      v',
    )
