-- ===== src/Agent/Flushing.antt =====
-- The flush tasks of file transfers in src/channel-main.c, one by one over whole sessions.
use spice_gtk.Base.Table.{Table, lookup, insert, remove, lookup-insert, lookup-remove}
use spice_gtk.Base.{
  ℕ, ◌+◌, ◌-◌, ◌%◌, ◌^◌, ◌≡◌, refl, subst, ap, sym, ◌∙◌, Bool, true, false, not, ◌&&◌, Option, none,
  some, List, [], ◌∷◌, ◌++◌, ◌==◌, if◌then◌else◌, arith, Bool-cases, Option-cases, inl, inr,
  if_false, ==_iff,
}
use spice_gtk.Agent.{Bytes}
use spice_gtk.Agent.Outgoing.{
  Packet, Outbox, Event, sent, flushed, all_flushed, reset_agent, has_token, finish_flush,
  send_loop, is_empty, agent_send_msg_queue, last_key, file_xfer_flush_async, enqueue,
  handle_agent_token, handle_agent_connected_tokens,
}
use spice_gtk.Agent.Sending.{
  Op, post, grant, connect, send, flush, disconnect, step, run, Covered, IsValid, empty_table,
}
use spice_gtk.Agent.Tokens.{step-IsValid}

-- No packet has two entries.
abbrev pub Distinct : Table ℕ → Type 0
Distinct [] = Unit {0}
Distinct ((key, task) ∷ rest) = (lookup key rest ≡ none) × Distinct rest

Distinct-insert :
    (key task : ℕ) (table : Table ℕ) → Distinct table → Distinct (insert key task table)
unfolding insert lookup
Distinct-insert key task [] d = (refl, tt)
Distinct-insert key task ((other, old) ∷ rest) (d, r) = elim (Bool-cases (other == key)) [
  | inl e ↦ let same = (==_iff other key).0 e in rw e (ap (λ k. lookup k rest) (sym same) ∙ d, r)
  | inr e ↦
      let no : (key == other) ≡ false = ground arith in
      rw e
        (lookup-insert key other task rest ∙ (if_false _ _ no ∙ d), Distinct-insert key task rest r)
]

Distinct-remove : (key : ℕ) (table : Table ℕ) → Distinct table → Distinct (remove key table)
unfolding remove lookup
Distinct-remove key [] d = tt
Distinct-remove key ((other, old) ∷ rest) (d, r) = elim (Bool-cases (other == key)) [
  | inl e ↦ rw e (Distinct-remove key rest r)
  | inr e ↦
      let no : (key == other) ≡ false = ground arith in
      rw e (lookup-remove key other rest ∙ (if_false _ _ no ∙ d), Distinct-remove key rest r)
]

module _ (task : ℕ) where
  abbrev pub hit : ℕ → ℕ
  hit other = if other == task then 1 else 0

  abbrev pub held : Option ℕ → ℕ
  held none = 0
  held (some other) = hit other

  -- How often the task waits for a packet.
  abbrev pub waits : Table ℕ → ℕ
  waits [] = 0
  waits ((key, other) ∷ rest) = hit other + waits rest

  -- How often the task returns.
  abbrev pub answers : List Event → ℕ
  answers [] = 0
  answers (sent m ∷ es) = answers es
  answers (flushed other success ∷ es) = hit other + answers es

  -- How often a flush is asked for with the task.
  abbrev pub asked : List Op → ℕ
  asked [] = 0
  asked (flush other ∷ ops) = hit other + asked ops
  asked (_ ∷ ops) = asked ops

  -- A flush for a packet that another flush waits for takes the place of that one.
  abbrev pub displaced : Op → Outbox → ℕ
  displaced (flush other) o = elim (last_key o.agent_msg_queue) [
    | none ↦ 0
    | some key ↦ held (lookup key o.flushing)
  ]
  displaced _ o = 0

  abbrev pub dropped : List Op → Outbox → ℕ
  dropped [] o = 0
  dropped (op ∷ ops) o = displaced op o + dropped ops (step op o).0

  waits-insert :
      (key other : ℕ) (table : Table ℕ)
      → waits (insert key other table) + held (lookup key table) ≡ waits table + hit other
  unfolding insert lookup
  waits-insert key other [] = omega arith
  waits-insert key other ((k, old) ∷ rest) = elim (Bool-cases (k == key)) [
    | inl e ↦ rw e (omega arith)
    | inr e ↦ rw e (omega (arith, waits-insert key other rest))
  ]

  waits-remove :
      (key : ℕ) (table : Table ℕ)
      → Distinct table
      → waits (remove key table) + held (lookup key table) ≡ waits table
  unfolding remove lookup
  waits-remove key [] d = refl
  waits-remove key ((k, old) ∷ rest) (d, r) =
      let more = waits-remove key rest r in
      elim (Bool-cases (k == key)) [
        | inl e ↦
            let same = (==_iff k key).0 e in
            let gone : held (lookup key rest) ≡ 0 =
              ap held (ap (λ n. lookup n rest) (sym same) ∙ d) in
            rw e (omega (arith, more, gone))
        | inr e ↦ rw e (omega (arith, more))
      ]

  answers-append : (es fs : List Event) → answers (es ++ fs) ≡ answers es + answers fs
  answers-append [] fs = omega arith
  answers-append (sent m ∷ es) fs = answers-append es fs
  answers-append (flushed other success ∷ es) fs = omega (arith, answers-append es fs)

  answers-finish : (found : Option ℕ) → answers (finish_flush found) ≡ held found
  answers-finish none = refl
  answers-finish (some other) = omega arith

  answers-all_flushed :
      (success : Bool) (table : Table ℕ) → answers (all_flushed success table) ≡ waits table
  answers-all_flushed success [] = refl
  answers-all_flushed success ((key, other) ∷ rest) =
      omega (arith, answers-all_flushed success rest)

  -- A call answers the flushes that wait no more, and the packets keep different entries.
  abbrev Answers : ℕ → ℕ → Table ℕ → Outbox × List Event → Type 0
  Answers new lost table r =
      (answers r.1 + waits r.0.flushing + lost ≡ waits table + new) × Distinct r.0.flushing

  send_loop-Answers :
      (q : List Packet) (tokens : ℕ) (table : Table ℕ) (o : Outbox)
      → Distinct table
      → Answers 0 0 table (send_loop q tokens table o)
  unfolding send_loop
  send_loop-Answers [] tokens table o d = (omega arith, d)
  send_loop-Answers (m ∷ q) tokens table o d = elim (Bool-cases (has_token tokens)) [
    | inr e ↦ rw e (omega arith, d)
    | inl e ↦
        let rest = send_loop q (tokens - 1) (remove m.key table) o in
        let (count, d') =
          send_loop-Answers q (tokens - 1) (remove m.key table) o (Distinct-remove m.key table d) in
        let both = answers-append (finish_flush (lookup m.key table)) rest.1 in
        let one = answers-finish (lookup m.key table) in
        let gone = waits-remove m.key table d in rw e (omega (arith, count, both, one, gone), d')
  ]

  send-Answers :
      (o : Outbox) → Distinct o.flushing → Answers 0 0 o.flushing (agent_send_msg_queue o)
  unfolding agent_send_msg_queue
  send-Answers o d =
      let r = send_loop o.agent_msg_queue o.agent_tokens o.flushing o in
      let (count, d') = send_loop-Answers o.agent_msg_queue o.agent_tokens o.flushing o d in
      elim (Bool-cases (is_empty r.0.agent_msg_queue && not (is_empty r.0.flushing))) [
        | inl e ↦
            let both = answers-append r.1 (all_flushed true r.0.flushing) in
            let all = answers-all_flushed true r.0.flushing in
            rw e (omega (arith, count, both, all), tt)
        | inr e ↦ rw e (count, d')
      ]

  enqueue-flushing : (ps : List Bytes) (o : Outbox) → (enqueue ps o).flushing ≡ o.flushing
  unfolding enqueue
  enqueue-flushing [] o = refl
  enqueue-flushing (p ∷ ps) o = enqueue-flushing ps _

  step-Answers :
      (op : Op) (o : Outbox)
      → Distinct o.flushing
      → Answers (asked (op ∷ [])) (displaced op o) o.flushing (step op o)
  unfolding step handle_agent_token handle_agent_connected_tokens file_xfer_flush_async reset_agent
  step-Answers (post ps) o d = let e = enqueue-flushing ps o in rw e (omega arith, d)
  step-Answers (grant n) o d =
      send-Answers (record o { agent_tokens = (o.agent_tokens + n) % 2 ^ 32 }) d
  step-Answers (connect ps n) o d =
      let o' = record o { agent_tokens = n } in
      let e = enqueue-flushing ps o' in
      let (count, d') = send-Answers (enqueue ps o') (rw e d) in
      (omega (arith, count, ap waits e), d')
  step-Answers send o d = send-Answers o d
  step-Answers (flush other) o d = elim (Option-cases (last_key o.agent_msg_queue)) [
    | inl e ↦ rw (e, displaced, file_xfer_flush_async) (omega arith, d)
    | inr (key, e) ↦
        let new = waits-insert key other o.flushing in
        rw (e, displaced, file_xfer_flush_async)
          (omega (arith, new), Distinct-insert key other o.flushing d)
  ]
  step-Answers disconnect o d =
      let all = answers-all_flushed false o.flushing in (omega (arith, all), tt)

  asked-cons : (op : Op) (ops : List Op) → asked (op ∷ ops) ≡ asked (op ∷ []) + asked ops
  asked-cons (post ps) ops = omega arith
  asked-cons (grant n) ops = omega arith
  asked-cons (connect ps n) ops = omega arith
  asked-cons send ops = omega arith
  asked-cons (flush other) ops = omega arith
  asked-cons disconnect ops = omega arith

  -- Between two resets each flush of the queue to the agent is answered or waits, as often as it was
  -- asked for or was waiting before, but for those whose place another flush takes, which is asked
  -- for before any packet has been queued behind that of the first; when the queue is empty none
  -- waits. At the start every flush waits for a packet of its own in the queue.
  pub run-answered :
      (ops : List Op) (o : Outbox)
      → IsValid o
      → Distinct o.flushing
      → let r = run ops o in
        (answers r.1 + waits r.0.flushing + dropped ops o ≡ waits o.flushing + asked ops)
        × (r.0.agent_msg_queue ≡ [] → r.0.flushing ≡ [])
  unfolding run
  run-answered [] o v d =
      (omega arith, λ e. empty_table o.flushing (subst (Covered o.flushing) e v))
  run-answered (op ∷ ops) o v d =
      let r = step op o in
      let (count, d') = step-Answers op o d in
      let (count', ends) = run-answered ops r.0 (step-IsValid op o v) d' in
      let both = answers-append r.1 (run ops r.0).1 in
      let more = asked-cons op ops in (omega (arith, count, count', both, more), ends)
