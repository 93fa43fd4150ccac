-- ===== src/Agent/Receiving.antt =====
-- Putting the packets from the agent together, `main_handle_agent_data` in src/channel-main.c.
use spice_gtk.Base.{
  ℕ, zero, suc, ◌+◌, ◌-◌, ◌%◌, ◌^◌, min, Bool, true, false, not, ◌&&◌, Option, none, some, List, [],
  ◌∷◌, ◌++◌, ltb, leb, ◌==◌, if◌then◌else◌, length, take, drop,
}
use spice_gtk.Agent.{Bytes, Header, Layout, written}

-- The partial message from the agent. `agent_msg` and `agent_msg_data` are the bytes in front of
-- `agent_msg_pos`, which is a `guint` and wraps around; what the source leaves behind it is not read.
pub record Partial : Type 0 where
  pub agent_msg : Bytes
  pub agent_msg_data : Option Bytes
  pub agent_msg_pos : ℕ

abbrev pub is_none {ℓ} : {A : Type ℓ} → Option A → Bool
is_none none = true
is_none (some a) = false

abbrev pub idle : Partial
idle = record { agent_msg = []; agent_msg_data = none; agent_msg_pos = 0 }

-- The messages handed to `main_agent_handle_msg`.
abbrev pub Handled : Type 0
Handled = List (Header × Bytes)

-- The step that the bytes take: what is kept, what is left of them, what is handled.
pub record Fed : Type 0 where
  pub state : Partial
  pub left : Bytes
  pub handled : Handled

module _ (l : Layout) where
  -- The bytes of the header.
  unfoldable pub feed_head : Partial → Bytes → Partial × Bytes
  feed_head p bytes =
      let n = min (l.head_size - p.agent_msg_pos) (length bytes) in
      let p' = record p {
        agent_msg = take p.agent_msg_pos p.agent_msg ++ take n bytes;
        agent_msg_pos = (p.agent_msg_pos + n) % 2 ^ 32;
      } in
      if ltb p.agent_msg_pos l.head_size
      then (if p'.agent_msg_pos == l.head_size && is_none p.agent_msg_data
          then (record p' { agent_msg_data = some [] }, drop n bytes)
          else (p', drop n bytes))
      else (p, bytes)

  -- `g_return_if_fail(c->agent_msg_data == NULL)`, where the header is complete.
  unfoldable pub head_fails : Partial → Partial → Bool
  head_fails p p' =
      ltb p.agent_msg_pos l.head_size
      && p'.agent_msg_pos == l.head_size
      && not (is_none p.agent_msg_data)

  -- The bytes of the data.
  unfoldable pub feed_body : Partial → Bytes → Partial × Bytes
  feed_body p bytes =
      let size = (l.read p.agent_msg).size in
      let n = min (l.head_size + size - p.agent_msg_pos) (length bytes) in
      if leb l.head_size p.agent_msg_pos
      then (
        record p {
          agent_msg_data =
              some
                (take (p.agent_msg_pos - l.head_size) (written p.agent_msg_data) ++ take n bytes);
          agent_msg_pos = (p.agent_msg_pos + n) % 2 ^ 32;
        },
        drop n bytes,
      )
      else (p, bytes)

  -- A complete message is handled. The sum on the right is a `size_t` and does not wrap around.
  unfoldable pub complete : Partial → Bytes → Fed
  complete p left =
      let h = l.read p.agent_msg in
      if p.agent_msg_pos == l.head_size + h.size
      then record { state = idle; left = left; handled = (h, written p.agent_msg_data) ∷ [] }
      else record { state = p; left = left; handled = [] }

  unfoldable pub handle_agent_data_msg : Partial → Bytes → Fed
  unfolding feed_head head_fails feed_body complete
  handle_agent_data_msg p bytes =
      let (p1, b1) = feed_head p bytes in
      let (p2, b2) = feed_body p1 b1 in
      if head_fails p p1 then record { state = p1; left = b1; handled = [] } else complete p2 b2

  -- `while (len > 0)`
  unfoldable pub feed_loop : ℕ → Partial → Bytes → Partial × Handled
  unfolding handle_agent_data_msg
  feed_loop zero p bytes = (p, [])
  feed_loop (suc fuel) p bytes =
      let f = handle_agent_data_msg p bytes in
      let rest = feed_loop fuel f.state f.left in
      if length bytes == 0 then (p, []) else (rest.0, f.handled ++ rest.1)

  -- `none` is a read behind a packet that is too short to hold a header. The length of a packet is an
  -- `int`: from 2 ^ 31 on it is negative, and neither equal to that of a message nor positive.
  unfoldable pub handle_agent_data : Partial → Bytes → Option (Partial × Handled)
  unfolding feed_loop
  handle_agent_data p bytes =
      let loop = feed_loop (length bytes) p bytes in
      let looped = if ltb (length bytes) (2 ^ 31) then loop else (p, []) in
      let h = l.read (take l.head_size bytes) in
      if p.agent_msg_pos == 0
      then (if ltb (length bytes) l.head_size
          then none
          else (if h.size + l.head_size == length bytes && ltb (length bytes) (2 ^ 31)
              then some (p, (h, drop l.head_size bytes) ∷ [])
              else some looped))
      else some looped
