-- ===== src/Tests/AgentTests.antt =====
-- The agent's messages at concrete inputs, with a layout of one cell for each field of the header.
use spice_gtk.Base.Table.{lookup, insert}
use spice_gtk.Base.{ℕ, ◌+◌, ◌≡◌, refl, Option, none, some, List, [], ◌∷◌, ◌++◌, length, arith}
use spice_gtk.Agent.{Bytes, Header, IsHeader, Layout, IsLayout}
use spice_gtk.Agent.Cutting.{header_for, agent_msg_queue_many}
use spice_gtk.Agent.Outgoing.{
  Outbox, file_xfer_flush_async, enqueue, agent_send_msg_queue, handle_agent_token,
}
use spice_gtk.Agent.Receiving.{Partial, idle, handle_agent_data_msg}
use spice_gtk.Agent.Reassembly.{feed_all, feed_all-idle}
use spice_gtk.Agent.Chunks.{queue_many-feed_all}
use spice_gtk.Agent.Sending.{
  Op, post, grant, connect, discarded, send, flush, disconnects, step, run, IsValid, sent_bytes,
  bytes_of, failures,
}
use spice_gtk.Agent.Tokens.{run-in_order}
use spice_gtk.Agent.Flushing.{waits, answers, dropped, run-answered}

abbrev read_cells : Bytes → Header
read_cells (p ∷ (k ∷ (o ∷ (s ∷ rest)))) = record { protocol = p; kind = k; opaque = o; size = s }
read_cells _ = record { protocol = 0; kind = 0; opaque = 0; size = 0 }

abbrev pub cells : Layout
cells = record {
  head_size = 4;
  max_data = 6;
  write = λ h. h.protocol ∷ (h.kind ∷ (h.opaque ∷ (h.size ∷ [])));
  read = read_cells;
}

pub cells-IsLayout : IsLayout cells
cells-IsLayout = record {
  nonempty = omega arith;
  fits = omega arith;
  int_fits = omega arith;
  write_length = λ h. refl;
  read_write = λ h v. refl;
}

-- Nine bytes in two buffers make three packets.
three_packets :
    (agent_msg_queue_many cells 1 4
      ((10 ∷ (11 ∷ (12 ∷ []))) ∷ ((13 ∷ (14 ∷ (15 ∷ (16 ∷ (17 ∷ (18 ∷ [])))))) ∷ []))).queued
    ≡ (1 ∷ (4 ∷ (0 ∷ (9 ∷ (10 ∷ (11 ∷ []))))))
      ∷ ((12 ∷ (13 ∷ (14 ∷ (15 ∷ (16 ∷ (17 ∷ [])))))) ∷ ((18 ∷ []) ∷ []))
unfolding agent_msg_queue_many
three_packets = refl

abbrev buffers : List Bytes
buffers = (10 ∷ (11 ∷ (12 ∷ []))) ∷ ((13 ∷ (14 ∷ [])) ∷ [])

queue_many-feed_all_example :
    feed_all cells idle (agent_msg_queue_many cells 1 4 buffers).queued
    ≡ some (idle, (header_for 1 4 buffers, 10 ∷ (11 ∷ (12 ∷ (13 ∷ (14 ∷ []))))) ∷ [])
queue_many-feed_all_example =
    queue_many-feed_all cells 1 4 buffers cells-IsLayout (omega arith) (omega arith) (omega arith)

abbrev two_bytes : Header
two_bytes = record { protocol = 1; kind = 6; opaque = 0; size = 2 }

two_bytes-IsHeader : IsHeader two_bytes
two_bytes-IsHeader = record {
  protocol_fits = omega arith;
  kind_fits = omega arith;
  opaque_fits = omega arith;
  size_fits = omega arith;
}

-- The data comes in a second packet.
feed_all-idle_example :
    feed_all cells idle ((1 ∷ (6 ∷ (0 ∷ (2 ∷ [])))) ∷ ((40 ∷ (41 ∷ [])) ∷ []))
    ≡ some (idle, (two_bytes, 40 ∷ (41 ∷ [])) ∷ [])
feed_all-idle_example =
    feed_all-idle cells two_bytes (1 ∷ (6 ∷ (0 ∷ (2 ∷ [])))) ((40 ∷ (41 ∷ [])) ∷ [])
      (40 ∷ (41 ∷ [])) cells-IsLayout two_bytes-IsHeader (omega arith) refl refl (omega arith)
      (omega arith, tt) (omega arith, (omega arith, tt))

abbrev no_packets : Outbox
no_packets = record { agent_tokens = 1; agent_msg_queue = []; flushing = []; fresh = 0 }

abbrev session : List Op
session =
    post ((10 ∷ []) ∷ ((11 ∷ []) ∷ []))
    ∷ (flush 7 ∷ (send ∷ (connect ((12 ∷ []) ∷ []) 5 ∷ (grant 3 ∷ (send ∷ [])))))

none_pending : IsValid no_packets
unfolding lookup
none_pending k t e = let h : ◌≡◌ {A = Option ℕ} none (some t) = e in absurd (cc h)

run-in_order_example :
    let r = run session no_packets in
    (sent_bytes r.1 ++ bytes_of r.0.agent_msg_queue ≡ (10 ∷ []) ∷ ((11 ∷ []) ∷ ((12 ∷ []) ∷ [])))
    × (r.0.agent_tokens + length (sent_bytes r.1) + discarded session no_packets ≡ 9)
    × (disconnects session ≡ 0 → failures r.1 ≡ 0)
    × IsValid r.0
run-in_order_example = run-in_order session no_packets none_pending (omega arith)

-- The third flush is asked for while the second waits for the same packet.
abbrev flushes : List Op
flushes =
    post ((10 ∷ []) ∷ [])
    ∷ (flush 7 ∷ (post ((11 ∷ []) ∷ []) ∷ (flush 8 ∷ (flush 9 ∷ (grant 3 ∷ (send ∷ []))))))

second_dropped : dropped 8 flushes no_packets ≡ 1
unfolding step file_xfer_flush_async enqueue agent_send_msg_queue handle_agent_token lookup insert
second_dropped = refl

run-answered_example :
    let r = run flushes no_packets in
    (answers 7 r.1 + waits 7 r.0.flushing + dropped 7 flushes no_packets ≡ 1)
    × (r.0.agent_msg_queue ≡ [] → r.0.flushing ≡ [])
run-answered_example = run-answered 7 flushes no_packets none_pending tt

-- A message whose length with the header passes 2 ^ 32 is not complete when its last byte comes: the
-- position has wrapped around.
abbrev last_byte_missing : Partial
last_byte_missing = record {
  agent_msg = 1 ∷ (6 ∷ (0 ∷ (4294967292 ∷ [])));
  agent_msg_data = some [];
  agent_msg_pos = 4294967295;
}

position_wraps :
    let f = handle_agent_data_msg cells last_byte_missing (7 ∷ []) in
    (f.handled ≡ []) × (f.state.agent_msg_pos ≡ 0) × (f.left ≡ [])
unfolding handle_agent_data_msg
position_wraps = (refl, refl, refl)
