-- ===== src/Agent.antt =====
-- src/channel-main.c: the transport of agent messages. A message to the agent is cut into packets of
-- at most VD_AGENT_MAX_DATA_SIZE bytes, which wait in a queue for tokens; packets from the agent are
-- put together again. The layout of the header is spice-protocol's, a parameter.
pub mod Chunks
pub mod Cutting
pub mod Feed
pub mod Flushing
pub mod Outgoing
pub mod Packets
pub mod Packing
pub mod Reassembly
pub mod Receiving
pub mod Rounds
pub mod Sending
pub mod Tokens
use spice_gtk.Base.{
  ℕ, zero, suc, ◌+◌, ◌-◌, ◌*◌, ◌%◌, ◌^◌, ◌≤◌, ◌<◌, ◌≡◌, min, Bool, true, false, not, ◌&&◌, Option,
  none, some, List, [], ◌∷◌, ◌++◌, map, ltb, leb, ◌==◌, if◌then◌else◌, length, take, drop,
}

abbrev pub Bytes : Type 0
Bytes = List ℕ

-- `VDAgentMessage`, without its data
pub record Header : Type 0 where
  pub protocol : ℕ
  pub kind : ℕ
  pub opaque : ℕ
  pub size : ℕ

-- The fields are 32 bits wide, `opaque` 64.
pub record IsHeader (h : Header) : Type 0 where
  pub protocol_fits : h.protocol < 2 ^ 32
  pub kind_fits : h.kind < 2 ^ 32
  pub opaque_fits : h.opaque < 2 ^ 64
  pub size_fits : h.size < 2 ^ 32

-- How spice-protocol lays a header out: `sizeof(VDAgentMessage)`, VD_AGENT_MAX_DATA_SIZE, and the
-- bytes of a header in memory.
pub record Layout : Type 0 where
  pub head_size : ℕ
  pub max_data : ℕ
  pub write : Header → Bytes
  pub read : Bytes → Header

-- The static assertion of `agent_msg_queue_many`, that the length of a packet is an `int`, and that a
-- packed structure is its bytes.
pub record IsLayout (l : Layout) : Type 0 where
  pub nonempty : 0 < l.head_size
  pub fits : l.head_size < l.max_data
  pub int_fits : l.max_data < 2 ^ 31
  pub write_length : (h : Header) → length (l.write h) ≡ l.head_size
  pub read_write : (h : Header) → IsHeader h → l.read (l.write h) ≡ h

abbrev pub written : Option Bytes → Bytes
written none = []
written (some bytes) = bytes
