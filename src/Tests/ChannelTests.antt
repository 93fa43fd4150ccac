-- ===== src/Tests/ChannelTests.antt =====
-- Messages of a channel at concrete inputs.
use spice_gtk.Base.{
  length, ◌==◌, ◌||◌, ℕ, zero, suc, ◌≡◌, refl, true, false, some, List, [], ◌∷◌, ◌++◌, replicate,
  length-replicate, arith,
}
use spice_gtk.Channel.{
  Bytes, Layout, to_le, set_field, set_msg_type, set_msg_size, set_msg_serial, reset_msg_sub_list,
}
use spice_gtk.Channel.Wire.{Trouble, Arrival, got, filled, read, Room, takes, flush_wire}
use spice_gtk.Channel.Wire.Reads.{Brings, read-Brings}
use spice_gtk.Channel.Wire.Filling.{bytes_of}
use spice_gtk.Channel.Wire.Writes.{Splits, flush_wire-Splits}
use spice_gtk.Channel.Messages.{Protocol, IsProtocol, Channel, MsgIn, linearize}
use spice_gtk.Channel.Messages.Sequence.{Message, Ready, stream_of}
use spice_gtk.Channel.Messages.Delivery.{Delivered, recv_msgs-delivers}
use spice_gtk.Channel.Caps.{test_capability, set_capability, put_caps, store_caps}
use spice_gtk.Channel.Caps.Sending.{store_caps-set_capability}

-- The protocol's own layout.
abbrev layout : Layout
layout = record {
  mini_size = 6;
  mini_type = 0;
  mini_msg_size = 2;
  full_size = 18;
  serial = 0;
  type = 8;
  msg_size = 10;
  sub_list = 14;
  list_count = 0;
  list_offsets = 2;
  sub_size = 6;
  sub_type = 0;
  sub_msg_size = 2;
}

abbrev protocol : Protocol
protocol = record {
  layout = layout;
  channel_main = 1;
  channel_display = 2;
  main_client_info = 101;
  main_migrate_connected = 102;
  main_migrate_connect_error = 103;
  main_attach_channels = 104;
  main_migrate_end = 109;
  msg_list = 8;
  msgc_ack = 2;
  reserved = λ n. replicate n 0;
}

protocol-IsProtocol : IsProtocol protocol
protocol-IsProtocol = record {
  is_layout = record {
    mini_order = omega arith;
    mini_end = omega arith;
    serial_order = omega arith;
    type_order = omega arith;
    size_order = omega arith;
    full_end = omega arith;
  };
  length-reserved = λ n. length-replicate n 0;
  ack_is_common = omega arith;
}

-- Three messages, of which the second is empty.
abbrev messages : List Message
messages =
    record { type = 50; serial = 7; body = 1 ∷ (2 ∷ []) }
    ∷ (record { type = 51; serial = 8; body = [] }
        ∷ (record { type = 300; serial = 9; body = 3 ∷ [] } ∷ []))

-- They come in three portions that do not go by messages, with a wait between them.
abbrev arrivals : List Arrival
arrivals =
    got (50 ∷ (0 ∷ (2 ∷ (0 ∷ []))))
    ∷ (Arrival.trouble Trouble.would_block false
        ∷ (got (0 ∷ (0 ∷ (1 ∷ (2 ∷ (51 ∷ [])))))
            ∷ (got (0 ∷ (0 ∷ (0 ∷ (0 ∷ (0 ∷ (44 ∷ (1 ∷ (1 ∷ (0 ∷ (0 ∷ (0 ∷ (3 ∷ []))))))))))))
                ∷ [])))

abbrev byte_rooms : ℕ → List Room
byte_rooms zero = []
byte_rooms (suc n) = takes 1 ∷ byte_rooms n

abbrev channel : Channel
channel = record {
  channel_type = 3;
  read_only = false;
  tls = false;
  use_mini_header = true;
  error = false;
  out_serial = 5;
  in_serial = 1;
  last_message_serial = 0;
  message_ack_count = 2;
  message_ack_window = 2;
  wire = [];
  arrivals = arrivals;
  rooms = byte_rooms 18;
}

three_arrive : bytes_of arrivals ≡ stream_of protocol true messages ++ []
unfolding linearize set_msg_type set_msg_size set_msg_serial reset_msg_sub_list set_field to_le
    replicate
three_arrive = refl

channel-Ready : Ready protocol channel messages 0 []
channel-Ready = record {
  no_error = refl;
  within_window = omega arith;
  arriving = three_arrive;
  brings = (refl, refl, tt);
  takes_acks = tt;
}

abbrev parse_type : Bytes → ℕ → ℕ
parse_type body type = type

abbrev log_type : MsgIn → ℕ → List ℕ → List ℕ
log_type m p s = s ++ (p ∷ [])

recv_msgs-delivers_example :
    Delivered protocol protocol-IsProtocol parse_type log_type channel [] messages 0 []
recv_msgs-delivers_example =
    recv_msgs-delivers protocol protocol-IsProtocol parse_type log_type messages channel [] 0 []
      (
        record {
          type_fits = omega arith;
          serial_fits = omega arith;
          body_fits = omega arith;
          plain = λ e. omega arith;
        },
        (
          record {
            type_fits = omega arith;
            serial_fits = omega arith;
            body_fits = omega arith;
            plain = λ e. omega arith;
          },
          (
            record {
              type_fits = omega arith;
              serial_fits = omega arith;
              body_fits = omega arith;
              plain = λ e. omega arith;
            },
            tt,
          ),
        ),
      )
      channel-Ready

-- The first message's header.
read-Brings_example :
    (rest : List Arrival) × (read false false 6 arrivals
      ≡ filled (50 ∷ (0 ∷ (2 ∷ (0 ∷ (0 ∷ (0 ∷ [])))))) rest)
    × (bytes_of rest
        ≡ 1
          ∷ (2
              ∷ (51 ∷ (0 ∷ (0 ∷ (0 ∷ (0 ∷ (0 ∷ (44 ∷ (1 ∷ (1 ∷ (0 ∷ (0 ∷ (0 ∷ (3 ∷ [])))))))))))))))
    × Brings false 15 rest
read-Brings_example = read-Brings false 6 21 arrivals (omega arith) (refl, refl, tt)

-- A stream that takes two bytes, blocks, and is closed.
flush_wire-Splits_example : Splits (1 ∷ (2 ∷ (3 ∷ []))) (
    flush_wire true false
      (1 ∷ (2 ∷ (3 ∷ [])))
      (takes 2 ∷ (Room.trouble Trouble.want_write false ∷ (takes 0 ∷ []))))
flush_wire-Splits_example =
    flush_wire-Splits true false (1 ∷ (2 ∷ (3 ∷ [])))
      (takes 2 ∷ (Room.trouble Trouble.want_write false ∷ (takes 0 ∷ [])))

-- A capability in a second word.
store_caps-set_capability_example :
    (received : List ℕ) × (store_caps
        (length (set_capability 33 (9 ∷ [])))
        (put_caps (set_capability 33 (9 ∷ [])) ++ (7 ∷ []))
      ≡ some received)
    × ((other : ℕ)
        → test_capability received other ≡ ((other == 33) || test_capability (9 ∷ []) other))
store_caps-set_capability_example = store_caps-set_capability 33 (9 ∷ []) (7 ∷ []) (omega arith, tt)
