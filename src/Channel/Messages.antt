-- ===== src/Channel/Messages.antt =====
-- src/spice-channel.c: making and writing a message, and receiving one with its sub-messages and
-- acknowledgements. The marshallers, the parsers and the numbers of the protocol are parameters.
pub mod Encoding
pub mod Receiving
pub mod Sequence
pub mod Single
pub mod Acks
pub mod Delivery
use spice_gtk.Base.{
  ℕ, zero, suc, ◌+◌, ◌-◌, ◌*◌, ◌%◌, ◌^◌, ◌<◌, ◌≡◌, Bool, true, false, not, ◌&&◌, ◌||◌, Option, none,
  some, List, [], ◌∷◌, ◌++◌, length, take, drop, replicate, ◌==◌, ltb, leb, if◌then◌else◌,
}
use spice_gtk.Channel.{
  Bytes, Layout, IsLayout, get_field, set_msg_type, set_msg_size, get_msg_type, get_msg_size,
  get_header_size, set_msg_serial, reset_msg_sub_list, get_in_msg_serial, get_msg_sub_list,
}
use spice_gtk.Channel.Wire.{
  Arrival, Read, filled, stopped, waiting, read, Room, Flush, flushed, has_error, suspended,
  Flushed, flush_wire,
}

-- Numbers of the protocol, the layout of its headers, and what bytes that a marshaller reserves hold.
pub record Protocol : Type 0 where
  pub layout : Layout
  pub channel_main : ℕ
  pub channel_display : ℕ
  pub main_client_info : ℕ
  pub main_migrate_connected : ℕ
  pub main_migrate_connect_error : ℕ
  pub main_attach_channels : ℕ
  pub main_migrate_end : ℕ
  pub msg_list : ℕ
  pub msgc_ack : ℕ
  pub reserved : ℕ → Bytes

pub record IsProtocol (pr : Protocol) : Type 0 where
  pub is_layout : IsLayout pr.layout
  pub length-reserved : (n : ℕ) → length (pr.reserved n) ≡ n
  pub ack_is_common : pr.msgc_ack < 100

-- The fields of `SpiceChannelPrivate` for messages, and `wire` for all that has been written. What
-- the socket brings and takes is the environment's. `read_only` is the session's.
pub record Channel : Type 0 where
  pub channel_type : ℕ
  pub read_only : Bool
  pub tls : Bool
  pub use_mini_header : Bool
  pub error : Bool
  pub out_serial : ℕ
  pub in_serial : ℕ
  pub last_message_serial : ℕ
  pub message_ack_count : ℕ
  pub message_ack_window : ℕ
  pub wire : Bytes
  pub arrivals : List Arrival
  pub rooms : List Room

-- How a step in the coroutine ends. It crashes where it reads outside the message or asks for
-- 2^31 bytes or more.
pub data Run {ℓ} (A : Type ℓ) : Type ℓ where
  done : A → Run A
  waits : Run A
  crashes : Run A

abbrev pub bind {ℓ ℓ'} : {A : Type ℓ} {B : Type ℓ'} → Run A → (A → Run B) → Run B
bind (done a) k = k a
bind waits k = waits
bind crashes k = crashes

-- `SpiceMsgOut`: the marshaller has the header and then the body.
pub record MsgOut : Type 0 where
  pub ro_check : Bool
  pub header : Bytes
  pub body : Bytes

-- `SpiceMsgIn`
pub record MsgIn : Type 0 where
  pub header : Bytes
  pub data' : Bytes

module _ (pr : Protocol) where
  unfoldable pub msg_check_read_only : (channel_type msg_type : ℕ) → Bool
  msg_check_read_only channel_type msg_type =
      if ltb msg_type 100
      then false
      else (if channel_type == pr.channel_main
          then not (
              msg_type == pr.main_client_info
              || msg_type == pr.main_migrate_connected
              || msg_type == pr.main_migrate_connect_error
              || msg_type == pr.main_attach_channels
              || msg_type == pr.main_migrate_end)
          else not (channel_type == pr.channel_display))

  -- The header of a new message, but for the size.
  abbrev pub new_header : (mini : Bool) (type serial : ℕ) → Bytes
  new_header mini type serial = reset_msg_sub_list pr.layout mini (
      set_msg_serial pr.layout mini serial
        (set_msg_type pr.layout mini type (pr.reserved (get_header_size pr.layout mini))))

  -- `body` is what the caller goes on to marshal.
  unfoldable pub msg_out_new : (type : ℕ) (body : Bytes) → Channel → MsgOut × Channel
  unfolding msg_check_read_only
  msg_out_new type body c = (
    record {
      ro_check = msg_check_read_only c.channel_type type;
      header = new_header c.use_mini_header type c.out_serial;
      body = body;
    },
    record c { out_serial = (c.out_serial + 1) % 2 ^ 64 },
  )

  abbrev pub finish_write : Channel → Flushed → Run Channel
  finish_write c (bytes, flushed, rooms) = done (record c { wire = c.wire ++ bytes; rooms = rooms })
  finish_write c (bytes, has_error, rooms) =
      done (record c { wire = c.wire ++ bytes; rooms = rooms; error = true })
  finish_write c (bytes, suspended, rooms) = waits

  unfoldable pub write : Bytes → Channel → Run Channel
  write bytes c = finish_write c (flush_wire c.tls c.error bytes c.rooms)

  -- The bytes of a message: its size is that of what has been marshalled, less the header.
  unfoldable pub linearize : (mini : Bool) → MsgOut → Bytes
  linearize mini out =
      set_msg_size pr.layout mini
        (length out.header + length out.body - get_header_size pr.layout mini) out.header
      ++ out.body

  unfoldable pub write_msg : MsgOut → Channel → Run Channel
  unfolding linearize write
  write_msg out c =
      if out.ro_check && c.read_only then done c else write (linearize c.use_mini_header out) c

  -- A new message that is sent at once, by `spice_msg_out_send_internal`.
  unfoldable pub send_internal : (type : ℕ) (body : Bytes) → Channel → Run Channel
  unfolding msg_out_new write_msg
  send_internal type body c = let (out, c') = msg_out_new type body c in write_msg out c'

  -- The acknowledgement of every message that makes the count 0.
  unfoldable pub ack_message : Channel → Run Channel
  unfolding send_internal
  ack_message c =
      let n = c.message_ack_count in
      if n == 0
      then done c
      else (if n == 1
          then bind (send_internal pr.msgc_ack [] (record c { message_ack_count = 0 }))
              (λ c'. done (record c' { message_ack_count = c'.message_ack_window }))
          else done (record c { message_ack_count = n - 1 }))

  -- The sub-message at `offset`, unless it is not within the message.
  unfoldable pub msg_in_sub : (mini : Bool) (offset : ℕ) → Bytes → Option MsgIn
  msg_in_sub mini offset bytes =
      let l = pr.layout in
      let size = get_field (offset + l.sub_msg_size) 4 bytes in
      let type = get_field (offset + l.sub_type) 2 bytes in
      if leb (offset + l.sub_size) (length bytes) && leb (offset + l.sub_size + size) (length bytes)
      then some (record {
        header =
            set_msg_size l mini size
              (set_msg_type l mini type (replicate (get_header_size l mini) 0));
        data' = take size (drop (offset + l.sub_size) bytes);
      })
      else none

  -- Where the `i`-th sub-message is, unless the list is not within the message.
  unfoldable pub sub_offset : (sub_list i : ℕ) → Bytes → Option ℕ
  sub_offset sub_list i bytes =
      let at = sub_list + pr.layout.list_offsets + 4 * i in
      if leb (at + 4) (length bytes) then some (get_field at 4 bytes) else none

  unfoldable pub sub_count : (sub_list : ℕ) → Bytes → Option ℕ
  sub_count sub_list bytes =
      let at = sub_list + pr.layout.list_count in
      if leb (at + 2) (length bytes) then some (get_field at 2 bytes) else none

abbrev pub or_crash {ℓ ℓ'} : {A : Type ℓ} {B : Type ℓ'} → Option A → (A → Run B) → Run B
or_crash none k = crashes
or_crash (some a) k = k a

-- The header's bytes that have come before the error, in a message that is made of zeros.
abbrev pub partial_header : ℕ → Bytes → Bytes
partial_header n part = part ++ replicate (n - length part) 0

-- `P` is what a parser makes of a message, and `S` what the handlers work on beside the channel.
module _ (pr : Protocol) {P S : Type 0} (parser : Bytes → (type : ℕ) → Option P)
    (handler : MsgIn → P → Channel × S → Run (Channel × S)) where
  abbrev State : Type 0
  State = Channel × S

  -- A failure to parse leaves the rest of the message alone.
  abbrev pub handle_parsed :
      MsgIn → Option P → State → (State → Run (Bool × State)) → Run (Bool × State)
  handle_parsed m none st k = done (false, st)
  handle_parsed m (some p) st k = bind (handler m p st) k

  abbrev type_of : State → MsgIn → ℕ
  type_of (c, s) m = get_msg_type pr.layout c.use_mini_header m.header

  -- `count` sub-messages from the `i`-th on; whether all of them have been parsed.
  unfoldable pub handle_subs : (sub_list count i : ℕ) → Bytes → State → Run (Bool × State)
  unfolding msg_in_sub sub_offset
  handle_subs sub_list zero i bytes st = done (true, st)
  handle_subs sub_list (suc count) i bytes st = or_crash (sub_offset pr sub_list i bytes) λ offset.
      or_crash (msg_in_sub pr st.0.use_mini_header offset bytes) λ sub.
        handle_parsed sub (parser sub.data' (type_of st sub)) st
          λ st'. handle_subs sub_list count (suc i) bytes st'

  abbrev pub handle_list : (type sub_list : ℕ) → Bytes → State → Run (Bool × State)
  handle_list type sub_list bytes st =
      if type == pr.msg_list || not (sub_list == 0)
      then or_crash (sub_count pr sub_list bytes) (λ count. handle_subs sub_list count 0 bytes st)
      else done (true, st)

  -- The message itself; a list has only its sub-messages.
  abbrev pub handle_main : (type : ℕ) → MsgIn → State → Run State
  handle_main type m st =
      if type == pr.msg_list
      then done st
      else bind (handle_parsed m (parser m.data' type) st λ st'. done (true, st')) λ r. done r.1

  abbrev pub ack_and_main : (type : ℕ) → MsgIn → Bool × State → Run State
  ack_and_main type m (false, st) = done st
  ack_and_main type m (true, (c, s)) = bind (ack_message pr c) λ c'. handle_main type m (c', s)

  -- What is done for every message, received or not.
  unfoldable pub end_msg : (header : Bytes) → State → State
  end_msg header (c, s) = (
    record c {
      last_message_serial = get_in_msg_serial pr.layout c.use_mini_header c.in_serial header;
      in_serial = (c.in_serial + 1) % 2 ^ 64;
    },
    s,
  )

  -- The whole message is there.
  unfoldable pub process_msg : MsgIn → State → Run State
  unfolding handle_subs sub_count ack_message end_msg
  process_msg m (c, s) =
      let mini = c.use_mini_header in
      let type = get_msg_type pr.layout mini m.header in
      bind
        (bind (handle_list type (get_msg_sub_list pr.layout mini m.header) m.data' (c, s))
          (ack_and_main type m))
        λ st. done (end_msg m.header st)

  -- The read of the body. Nothing is read any more where `error` is set.
  abbrev pub after_body : (header : Bytes) → Read → State → Run State
  after_body header (filled bytes rest) (c, s) =
      process_msg (record { header = header; data' = bytes }) (record c { arrivals = rest }, s)
  after_body header (stopped part failed) (c, s) =
      done (end_msg header (record c { error = true; arrivals = [] }, s))
  after_body header waiting st = waits

  abbrev pub read_body : (header : Bytes) → State → Run State
  read_body header (c, s) =
      let size = get_msg_size pr.layout c.use_mini_header header in
      if ltb size (2 ^ 31)
      then after_body header (read c.tls c.error size c.arrivals) (c, s)
      else crashes

  -- The read of the header.
  abbrev pub after_header : Read → State → Run State
  after_header (filled header rest) (c, s) = read_body header (record c { arrivals = rest }, s)
  after_header (stopped part failed) (c, s) =
      let n = get_header_size pr.layout c.use_mini_header in
      done (end_msg (partial_header n part) (record c { error = true; arrivals = [] }, s))
  after_header waiting st = waits

  unfoldable pub recv_msg : State → Run State
  unfolding read process_msg end_msg
  recv_msg (c, s) =
      after_header (read c.tls c.error (get_header_size pr.layout c.use_mini_header) c.arrivals)
        (c, s)

  -- `n` messages, one after the other.
  unfoldable pub recv_msgs : ℕ → State → Run State
  unfolding recv_msg
  recv_msgs zero st = done st
  recv_msgs (suc n) st = bind (recv_msg st) (recv_msgs n)
