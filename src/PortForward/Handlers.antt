-- ===== src/PortForward/Handlers.antt =====
-- src/port-forward.c: the callbacks of GIO and the handlers of the agent's messages. A result of
-- GIO is an argument: `none` is an error.
use spice_gtk.Base.Table.{lookup}
use spice_gtk.Base.{
  ℕ, ◌+◌, ◌-◌, ◌/◌, ◌%◌, ◌^◌, Bool, true, false, ◌&&◌, Option, none, some, List, [], ◌∷◌, ◌++◌, ltb,
  leb, ◌==◌, if◌then◌else◌, length, drop,
}
use spice_gtk.PortForward.{
  Bytes, AddressPort, Connection, connect, data_to_agent, ack_to_agent, start_read, start_write,
  start_connect, accept_next, World, no_stream, no_address, no_chunk, Outcome, ok, fault, ◌>>>◌,
  emit, put, access, window_size, new_connection, unref_connection, close_agent_connection,
  close_connection_no_notify, close_connection, insert_connection, generate_connection_id,
}

-- The client listens for `host`, and accepts a connection of a program.
unfoldable pub listener_accept_callback : Option AddressPort → World → Outcome
unfolding generate_connection_id new_connection
listener_accept_callback none w = ok w
listener_accept_callback (some host) w =
    let (id, w1) = generate_connection_id w in
    let (h, w2) = new_connection id (window_size / 2) true w1 in
    insert_connection id h (emit (connect id (window_size / 2) host.port host.address) w2) >>> λ w3.
    ok (emit accept_next w3)

abbrev pub read_stream : ℕ → Connection → World → Outcome
read_stream h c w = if c.is_open then ok (emit (start_read h) w) else fault no_stream

unfoldable pub program_read : ℕ → World → Outcome
program_read h w = access (lookup h w.heap) λ c. read_stream h c w

-- `data_sent += size` on `guint32`
abbrev pub add_32 : ℕ → ℕ → ℕ
add_32 a b = (a + b) % 2 ^ 32

abbrev pub sub_32 : ℕ → ℕ → ℕ
sub_32 a b = (a + 2 ^ 32 - b % 2 ^ 32) % 2 ^ 32

unfoldable pub connection_read_callback : ℕ → Option Bytes → World → Outcome
unfolding unref_connection close_connection program_read
connection_read_callback h res w = access (lookup h w.heap) λ c.
    if c.cancelled then unref_connection h w else elim res [
      | none ↦ close_connection h w >>> unref_connection h
      | some [] ↦ close_connection h w >>> unref_connection h
      | some (b ∷ bs) ↦
          let c' = record c { data_sent = add_32 c.data_sent (length (b ∷ bs)) } in
          let w' = put h c' (emit (data_to_agent c.id (b ∷ bs)) w) in
          if ltb c'.data_sent window_size then program_read h w' else unref_connection h w'
    ]

-- The rest of a chunk goes back to the head of the queue.
abbrev pub requeue : Bytes → List Bytes → List Bytes
requeue [] q = q
requeue (b ∷ bs) q = (b ∷ bs) ∷ q

abbrev pub write_next : ℕ → List Bytes → World → Outcome
write_next h [] w = unref_connection h w
write_next h (chunk ∷ q) w = ok (emit (start_write h chunk) w)

-- The counts are updated after the reference to the connection may be gone.
unfoldable pub count_written : ℕ → ℕ → World → Outcome
count_written h n w = access (lookup h w.heap) λ c.
    let received = add_32 c.data_received n in
    if leb c.ack_interval received
    then ok (emit (ack_to_agent c.id received) (put h (record c { data_received = 0 }) w))
    else ok (put h (record c { data_received = received }) w)

unfoldable pub connection_write_callback : ℕ → Option ℕ → World → Outcome
unfolding unref_connection close_connection count_written
connection_write_callback h none w = close_connection h w >>> unref_connection h
connection_write_callback h (some n) w = access (lookup h w.heap) λ c. elim c.write_buffer [
  | [] ↦ fault no_chunk
  | chunk ∷ q ↦
      let q' = requeue (drop n chunk) q in
      write_next h q' (put h (record c { write_buffer = q' }) w) >>> count_written h n
]

unfoldable pub connection_connect_callback : ℕ → Bool → World → Outcome
unfolding unref_connection close_connection program_read
connection_connect_callback h connected w = access (lookup h w.heap) λ c.
    if c.cancelled
    then unref_connection h w
    else if connected
    then (program_read h (put h (record c { is_open = true; connecting = false }) w) >>> λ w'.
        ok (emit (ack_to_agent c.id (window_size / 2)) w'))
    else (close_connection h w >>> unref_connection h)

-- The debug message reads the association before the test that it is there. GLib gives a socket
-- client or stops the process, so the branch without one is left out.
unfoldable pub handle_accepted : Bool → ℕ → ℕ → ℕ → World → Outcome
unfolding close_connection_no_notify new_connection
handle_accepted debug id port ack_interval w =
    let closed : Outcome = elim (lookup id w.connections) [
      | none ↦ ok w
      | some h ↦ close_connection_no_notify h w
    ] in
    closed >>> λ w1. elim (lookup port w1.remote_assocs) [
      | none ↦ if debug then fault no_address else ok (close_agent_connection id w1)
      | some address ↦
          let (h, w2) = new_connection id ack_interval false w1 in
          insert_connection id h w2 >>> λ w3.
          access (lookup h w3.heap)
            λ c. ok (emit (start_connect h address) (put h (record c { refs = c.refs + 1 }) w3))
    ]

-- Pushes a chunk, and starts to write where it is alone in the queue.
unfoldable pub push_chunk : ℕ → Bytes → Connection → World → Outcome
push_chunk h bytes c w =
    let q = c.write_buffer ++ (bytes ∷ []) in
    if length q == 1
    then (if c.is_open
        then ok (
            emit (start_write h bytes) (put h (record c { write_buffer = q; refs = c.refs + 1 }) w))
        else fault no_stream)
    else ok (put h (record c { write_buffer = q }) w)

unfoldable pub handle_data : ℕ → Bytes → World → Outcome
unfolding push_chunk
handle_data id bytes w = elim (lookup id w.connections) [
  | none ↦ ok w
  | some h ↦ access (lookup h w.heap) λ c. if c.connecting then ok w else push_chunk h bytes c w
]

unfoldable pub handle_close : ℕ → World → Outcome
unfolding close_connection_no_notify
handle_close id w = elim (lookup id w.connections) [
  | none ↦ ok (close_agent_connection id w)
  | some h ↦ close_connection_no_notify h w
]

unfoldable pub handle_ack : ℕ → ℕ → World → Outcome
unfolding program_read
handle_ack id size w = elim (lookup id w.connections) [
  | none ↦ ok w
  | some h ↦ access (lookup h w.heap) λ c.
      if c.connecting
      then program_read h
          (put h (record c { connecting = false; ack_interval = size; refs = c.refs + 1 }) w)
      else let sent = sub_32 c.data_sent size in
        let w' = put h (record c { data_sent = sent }) w in
        if ltb sent window_size && leb window_size c.data_sent
        then program_read h (put h (record c { data_sent = sent; refs = c.refs + 1 }) w)
        else ok w'
]

-- The agent's messages
pub data Message : Type 0 where
  accepted : (id port ack_interval : ℕ) → Message
  data_msg : (id : ℕ) (bytes : Bytes) → Message
  close_msg : (id : ℕ) → Message
  ack_msg : (id size : ℕ) → Message
  other : Message

unfoldable pub handle_message : Bool → Message → World → Outcome
handle_message debug (accepted id port n) w = handle_accepted debug id port n w
handle_message debug (data_msg id bytes) w = handle_data id bytes w
handle_message debug (close_msg id) w = handle_close id w
handle_message debug (ack_msg id size) w = handle_ack id size w
handle_message debug other w = ok w
