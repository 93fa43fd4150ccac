-- ===== src/PortForward.antt =====
-- src/port-forward.c: the connections forwarded between this machine and the guest. Connections are
-- objects of a heap that several callbacks share, so a world maps addresses to them; the log has
-- what the code asks of GIO and of the agent, in order.
pub mod Handlers
pub mod Window
pub mod WriteSteps
pub mod Writing
pub mod Assoc
pub mod Closing
use spice_gtk.Base.Table.{Table, lookup, insert, remove}
use spice_gtk.Base.{
  ℕ, suc, ◌+◌, ◌-◌, ◌*◌, ◌%◌, ◌^◌, Bool, true, false, Option, none, some, List, [], ◌∷◌, ◌++◌, ◌==◌,
  if◌then◌else◌,
}

abbrev pub Bytes : Type 0
Bytes = List ℕ

-- `AddressPort`
pub record AddressPort : Type 0 where
  pub port : ℕ
  pub address : Bytes

-- `Connection`; `is_open` says whether the stream `conn` is there.
pub record Connection : Type 0 where
  pub is_open : Bool
  pub cancelled : Bool
  pub write_buffer : List Bytes
  pub data_sent : ℕ
  pub data_received : ℕ
  pub ack_interval : ℕ
  pub connecting : Bool
  pub refs : ℕ
  pub id : ℕ

-- Commands to the agent, and the operations of GIO that the code starts or asks for.
pub data Effect : Type 0 where
  listen : (port : ℕ) (bind_address : Bytes) → Effect
  shutdown : (port : ℕ) → Effect
  connect : (id ack_interval port : ℕ) (host : Bytes) → Effect
  data_to_agent : (id : ℕ) (bytes : Bytes) → Effect
  ack_to_agent : (id size : ℕ) → Effect
  close_agent : (id : ℕ) → Effect
  start_read close_stream : (address : ℕ) → Effect
  start_write : (address : ℕ) (chunk : Bytes) → Effect
  start_connect : (address : ℕ) (host : AddressPort) → Effect
  accept_next : Effect

-- `PortForwarder` with the heap, its first free address, and the static `seq` of the ids.
pub record World : Type 0 where
  pub remote_assocs : Table AddressPort
  pub connections : Table ℕ
  pub heap : Table Connection
  pub free : ℕ
  pub seq : ℕ
  pub out : List Effect

-- A use of freed memory, of a stream or an address that is null, or of an empty queue's head.
pub data Fault : Type 0 where
  freed no_stream no_address no_chunk : Fault

pub data Outcome : Type 0 where
  ok : World → Outcome
  fault : Fault → Outcome

infixl 40 ◌>>>◌
abbrev pub ◌>>>◌ : Outcome → (World → Outcome) → Outcome
ok w >>> f = f w
fault e >>> f = fault e

abbrev pub emit : Effect → World → World
emit e w = record w { out = w.out ++ (e ∷ []) }

abbrev pub put : ℕ → Connection → World → World
put h c w = record w { heap = insert h c w.heap }

abbrev pub access : Option Connection → (Connection → Outcome) → Outcome
access none f = fault freed
access (some c) f = f c

-- `10*1024*1024`
abbrev pub window_size : ℕ
window_size = 10 * 1024 * 1024

-- `new_connection`: the address of the object and the world with it.
unfoldable pub new_connection : ℕ → ℕ → Bool → World → ℕ × World
new_connection id ack_int is_open w = (
  w.free,
  record w {
    heap =
        insert w.free
          (record {
            is_open = is_open;
            cancelled = false;
            write_buffer = [];
            data_sent = 0;
            data_received = 0;
            ack_interval = ack_int;
            connecting = true;
            refs = 1;
            id = id;
          })
          w.heap;
    free = suc w.free;
  },
)

unfoldable pub unref_connection : ℕ → World → Outcome
unref_connection h w = access (lookup h w.heap) λ c.
    if c.refs == 1
    then (let w' = record w { heap = remove h w.heap } in
        ok (if c.is_open then emit (close_stream h) w' else w'))
    else ok (put h (record c { refs = c.refs - 1 }) w)

abbrev pub close_agent_connection : ℕ → World → World
close_agent_connection id w = emit (close_agent id) w

abbrev pub unref_found : Option ℕ → World → Outcome
unref_found none w = ok w
unref_found (some h) w = unref_connection h w

unfoldable pub close_connection_no_notify : ℕ → World → Outcome
close_connection_no_notify h w = access (lookup h w.heap) λ c.
    unref_found (lookup c.id w.connections) (record w {
      heap = insert h (record c { cancelled = true }) w.heap;
      connections = remove c.id w.connections;
    })

unfoldable pub close_connection : ℕ → World → Outcome
unfolding close_connection_no_notify
close_connection h w =
    access (lookup h w.heap) λ c. close_connection_no_notify h (close_agent_connection c.id w)

-- `g_hash_table_insert`, which drops the value that was there
abbrev pub insert_connection : ℕ → ℕ → World → Outcome
insert_connection id h w =
    unref_found (lookup id w.connections) (record w { connections = insert id h w.connections })

abbrev pub unref_all : Table ℕ → World → Outcome
unref_all [] w = ok w
unref_all ((id, h) ∷ m) w = unref_connection h w >>> unref_all m

unfoldable pub agent_disconnected : World → Outcome
agent_disconnected w = unref_all w.connections (record w { remote_assocs = []; connections = [] })

-- `false` where the port has no association.
unfoldable pub disassociate_remote : ℕ → World → Bool × World
disassociate_remote rport w = elim (lookup rport w.remote_assocs) [
  | none ↦ (false, w)
  | some a ↦
      (true, emit (shutdown rport) (record w { remote_assocs = remove rport w.remote_assocs }))
]

abbrev pub localhost : Bytes
localhost = 108 ∷ 111 ∷ 99 ∷ 97 ∷ 108 ∷ 104 ∷ 111 ∷ 115 ∷ 116 ∷ []

abbrev pub bound_address : Option Bytes → Bytes
bound_address none = localhost
bound_address (some a) = a

unfoldable pub associate_remote : Option Bytes → ℕ → Bytes → ℕ → World → World
unfolding disassociate_remote
associate_remote bind_address rport host lport w =
    let w' : World = elim (lookup rport w.remote_assocs) [
      | none ↦ w
      | some a ↦ (disassociate_remote rport w).1
    ] in
    emit (listen rport (bound_address bind_address)) (record w' {
      remote_assocs = insert rport (record { port = lport; address = host }) w'.remote_assocs;
    })

-- `--seq` on `guint32`
unfoldable pub generate_connection_id : World → ℕ × World
generate_connection_id w = let id = (w.seq + 2 ^ 32 - 1) % 2 ^ 32 in (id, record w { seq = id })
