-- ===== src/Agent/Outgoing.antt =====
-- The queue of packets to the agent, `agent_send_msg_queue` in src/channel-main.c.
use spice_gtk.Base.Table.{Table, lookup, insert, remove}
use spice_gtk.Base.{
  ℕ, suc, ◌+◌, ◌-◌, ◌%◌, ◌^◌, Bool, true, false, not, ◌&&◌, Option, none, some, List, [], ◌∷◌, ◌++◌,
  ltb, if◌then◌else◌,
}
use spice_gtk.Agent.{Bytes}

-- A queued packet with its identity, the key of `flushing`.
pub record Packet : Type 0 where
  pub key : ℕ
  pub bytes : Bytes

-- The part of `SpiceMainChannelPrivate` that the queue needs. `agent_tokens` is the bit pattern of
-- an `int`; `flushing` maps packets to tasks.
pub record Outbox : Type 0 where
  pub agent_tokens : ℕ
  pub agent_msg_queue : List Packet
  pub flushing : Table ℕ
  pub fresh : ℕ

-- What a call makes happen: a packet to the server, or a flush task that returns.
pub data Event : Type 0 where
  sent : (packet : Packet) → Event
  flushed : (task : ℕ) (success : Bool) → Event

abbrev pub has_token : ℕ → Bool
has_token tokens = ltb 0 tokens && ltb tokens (2 ^ 31)

abbrev pub all_flushed : Bool → Table ℕ → List Event
all_flushed success [] = []
all_flushed success ((key, task) ∷ rest) = flushed task success ∷ all_flushed success rest

unfoldable pub file_xfer_flushed : Bool → Outbox → Outbox × List Event
file_xfer_flushed success o = (record o { flushing = [] }, all_flushed success o.flushing)

abbrev pub finish_flush : Option ℕ → List Event
finish_flush none = []
finish_flush (some task) = flushed task true ∷ []

-- The `while` loop of `agent_send_msg_queue`
unfoldable pub send_loop : List Packet → ℕ → Table ℕ → Outbox → Outbox × List Event
send_loop [] tokens flushing o =
    (record o { agent_msg_queue = []; agent_tokens = tokens; flushing = flushing }, [])
send_loop (m ∷ q) tokens flushing o =
    let rest = send_loop q (tokens - 1) (remove m.key flushing) o in
    if has_token tokens
    then (rest.0, sent m ∷ (finish_flush (lookup m.key flushing) ++ rest.1))
    else (record o { agent_msg_queue = m ∷ q; agent_tokens = tokens; flushing = flushing }, [])

abbrev pub is_empty {ℓ} : {A : Type ℓ} → List A → Bool
is_empty [] = true
is_empty (a ∷ as') = false

unfoldable pub agent_send_msg_queue : Outbox → Outbox × List Event
unfolding send_loop file_xfer_flushed
agent_send_msg_queue o =
    let (o1, es) = send_loop o.agent_msg_queue o.agent_tokens o.flushing o in
    let (o2, fs) = file_xfer_flushed true o1 in
    if is_empty o1.agent_msg_queue && not (is_empty o1.flushing) then (o2, es ++ fs) else (o1, es)

abbrev pub last_key : List Packet → Option ℕ
last_key [] = none
last_key (m ∷ []) = some m.key
last_key (m ∷ (n ∷ q)) = last_key (n ∷ q)

-- A flush waits for the last packet that is in the queue.
unfoldable pub file_xfer_flush_async : ℕ → Outbox → Outbox × List Event
file_xfer_flush_async task o = elim (last_key o.agent_msg_queue) [
  | none ↦ (o, flushed task true ∷ [])
  | some key ↦ (record o { flushing = insert key task o.flushing }, [])
]

-- The packets of one message go to the queue, each a new object.
unfoldable pub enqueue : List Bytes → Outbox → Outbox
enqueue [] o = o
enqueue (bytes ∷ rest) o = enqueue rest (record o {
  agent_msg_queue = o.agent_msg_queue ++ (record { key = o.fresh; bytes = bytes } ∷ []);
  fresh = suc o.fresh;
})

unfoldable pub handle_agent_token : ℕ → Outbox → Outbox × List Event
unfolding agent_send_msg_queue
handle_agent_token num_tokens o =
    agent_send_msg_queue (record o { agent_tokens = (o.agent_tokens + num_tokens) % 2 ^ 32 })

-- The queue's part of `main_handle_agent_connected_tokens` and of `main_handle_init` with an agent,
-- which writes over the tokens: `agent_start` posts the packets `announced` that say what the client
-- can do, and sends the queue.
unfoldable pub handle_agent_connected_tokens : List Bytes → ℕ → Outbox → Outbox × List Event
unfolding enqueue agent_send_msg_queue
handle_agent_connected_tokens announced num_tokens o =
    agent_send_msg_queue (enqueue announced (record o { agent_tokens = num_tokens }))

-- The queue's part of `spice_main_channel_reset_agent`: flushes fail, but the packets stay, since the
-- server waits for the rest of a message.
unfoldable pub reset_agent : Outbox → Outbox × List Event
unfolding file_xfer_flushed
reset_agent o = file_xfer_flushed false o

-- The queue's part of `spice_main_channel_reset`, in its order: the tokens and the packets go, and
-- then every flush fails.
unfoldable pub reset_outbox : Outbox → Outbox × List Event
unfolding reset_agent
reset_outbox o = reset_agent (record o { agent_tokens = 0; agent_msg_queue = [] })
