-- ===== src/Agent/Cutting.antt =====
-- Cutting a message to the agent into packets, `agent_msg_queue_many` in src/channel-main.c.
use spice_gtk.Base.{
  ℕ, zero, suc, ◌+◌, ◌-◌, ◌%◌, ◌^◌, min, Option, none, some, List, [], ◌∷◌, ◌++◌, ◌==◌,
  if◌then◌else◌, length, take, drop,
}
use spice_gtk.Agent.{Bytes, Header, Layout, written}

-- The message under construction: its bytes so far (`out`), and the room that is left in it.
pub record Packer : Type 0 where
  pub out : Option Bytes
  pub paysize : ℕ
  pub size : ℕ
  pub queued : List Bytes

abbrev pub push : Bytes → Packer → Packer
push bytes p = record p { out = none; queued = p.queued ++ (bytes ∷ []) }

-- A message that is full goes to the queue.
abbrev pub push_full : Bytes → Packer → Packer
push_full bytes p = if p.paysize == 0 then push bytes p else record p { out = some bytes }

abbrev pub total : List Bytes → ℕ
total [] = 0
total (d ∷ ds) = length d + total ds

abbrev pub header_for : ℕ → ℕ → List Bytes → Header
header_for protocol kind ds = record {
  protocol = protocol;
  kind = kind;
  opaque = 0;
  size = total ds % 2 ^ 32;
}

module _ (l : Layout) where
  -- `if (out == NULL)`
  abbrev pub next_out : Packer → Packer
  next_out p = elim p.out [
    | none ↦ record p { out = some []; paysize = min l.max_data p.size }
    | some bytes ↦ p
  ]

  -- One round of `while (s > 0)`, for the buffer `d` of the `s` bytes that are left.
  abbrev pub pack_some : Bytes → Packer → Packer
  pack_some d p =
      let q = next_out p in
      let n = min q.paysize (length d) in
      push_full (written q.out ++ take n d)
        (record q { paysize = q.paysize - n; size = q.size - n })

  abbrev pub packed : Bytes → Packer → Bytes
  packed d p = let q = next_out p in drop (min q.paysize (length d)) d

  unfoldable pub pack_buffer : ℕ → Bytes → Packer → Packer
  pack_buffer zero d p = p
  pack_buffer (suc fuel) d p =
      let rest = pack_buffer fuel (packed d p) (pack_some d p) in if length d == 0 then p else rest

  -- `for (d = data; size > 0; ...)`
  unfoldable pub pack_buffers : List Bytes → Packer → Packer
  unfolding pack_buffer
  pack_buffers [] p = p
  pack_buffers (d ∷ ds) p =
      let rest = pack_buffers ds (pack_buffer (length d) d p) in if p.size == 0 then p else rest

  -- The packer behind the header of the first message.
  abbrev pub first_out : Header → ℕ → Packer
  first_out h size = push_full (l.write h) (record {
    out = none;
    paysize = min l.max_data (size + l.head_size) - l.head_size;
    size = size;
    queued = [];
  })

  -- The packets of a message, in order.
  unfoldable pub agent_msg_queue_many : ℕ → ℕ → List Bytes → Packer
  unfolding pack_buffers
  agent_msg_queue_many protocol kind ds =
      pack_buffers ds (first_out (header_for protocol kind ds) (total ds))
