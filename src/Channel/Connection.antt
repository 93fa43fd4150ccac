-- ===== src/Channel/Connection.antt =====
-- src/spice-channel.c: the connection of a channel, from `spice_channel_connect` to the end of its
-- coroutine, without SASL. What the session, OpenSSL, the server and the handlers of signals answer
-- is the environment's; a coroutine whose answers end is still waiting.
pub mod Reconnecting
pub mod Unopened
pub mod Attempt
pub mod Coroutine
pub mod Events
use spice_gtk.Base.{
  ℕ, zero, suc, ◌≡◌, Bool, true, false, not, ◌&&◌, ◌||◌, Option, none, some, List, [], ◌∷◌, ◌++◌,
  ◌==◌, leb, if◌then◌else◌,
}

pub data State : Type 0 where
  unconnected reconnecting connecting ready switching migrating migration_handshake : State

-- `SpiceChannelEvent`, without NONE.
pub data ChannelEvent : Type 0 where
  opened switching closed error_connect error_tls error_link error_auth error_io : ChannelEvent

abbrev pub rank : State → ℕ
rank unconnected = 0
rank reconnecting = 1
rank connecting = 2
rank ready = 3
rank switching = 4
rank migrating = 5
rank migration_handshake = 6

-- The flags of `spice_session_get_verify`.
pub record Verify : Type 0 where
  pub pubkey : Bool
  pub hostname : Bool
  pub subject : Bool

-- A channel and what of its session it reads. `fd` is `none` for -1; `link_major` is the major version
-- of the header that is sent. `refs` counts the references that
-- the connection has taken, `emitted` is the channel's events and `fd_requests` the signals that ask
-- for a socket; `aborted` is whether a migration was given up.
pub record Connection : Type 0 where
  pub state : State
  pub event : Option ChannelEvent
  pub has_error : Bool
  pub tls : Bool
  pub fd : Option ℕ
  pub sock : Bool
  pub blocked : Bool
  pub use_mini_header : Bool
  pub connect_delayed : Bool
  pub delayed_unref : Bool
  pub refs : ℕ
  pub client_provided_socket : Bool
  pub protocol : ℕ
  pub link_major : ℕ
  pub for_migration : Bool
  pub aborted : Bool
  pub verified_with : Option Verify
  pub emitted : List ChannelEvent
  pub fd_requests : ℕ
  pub ups : ℕ

abbrev pub emit : ChannelEvent → Connection → Connection
emit e c = record c { emitted = c.emitted ++ (e ∷ []) }

abbrev pub start_connect : (has_sock : Bool) → Connection → Connection × Bool
start_connect true c = (record c { blocked = false }, false)
start_connect false c =
    (record c { blocked = false; refs = suc c.refs; connect_delayed = true }, true)

abbrev pub connect_by : (provided : Bool) → Option ℕ → Connection → Connection × Bool
connect_by true none c = (record c { fd_requests = suc c.fd_requests }, true)
connect_by true (some fd) c = start_connect c.sock c
connect_by false fd c = start_connect c.sock c

-- The channel's properties are taken to be set.
unfoldable pub channel_connect : (tls : Bool) → Connection → Connection × Bool
channel_connect tls c =
    connect_by c.client_provided_socket c.fd (record c { state = connecting; tls = tls })

abbrev pub is_none {ℓ} : {A : Type ℓ} → Option A → Bool
is_none none = true
is_none (some a) = false

unfoldable pub connect : Connection → Connection × Bool
unfolding channel_connect
connect c =
    if leb (rank connecting) (rank c.state)
    then (c, true)
    else (if is_none c.fd then channel_connect false c else (c, false))

unfoldable pub open_fd : (fd : Option ℕ) → Connection → Connection × Bool
unfolding channel_connect
open_fd fd c =
    if not (is_none c.fd)
    then (c, false)
    else (if leb (rank ready) (rank c.state)
        then (c, true)
        else channel_connect false (record c { fd = fd }))

-- The part of `channel_reset` for the connection.
unfoldable pub channel_reset : Connection → Connection
channel_reset c = record c { connect_delayed = false; sock = false; fd = none; blocked = true }

-- What `spice_session_channel_open_host` gives: a connection or not, an error or not, and whether
-- it turns TLS on.
pub record Opened : Type 0 where
  pub conn : Bool
  pub failed : Bool
  pub sets_tls : Bool

-- What OpenSSL gives; `loaded` counts certificates, and `handshake` is whether `SSL_connect` succeeds
-- at last.
pub record TlsReplies : Type 0 where
  pub has_ctx : Bool
  pub verify : Verify
  pub loaded : ℕ
  pub has_ssl : Bool
  pub handshake : Bool

pub data LinkError : Type 0 where
  ok need_secured other_error : LinkError

-- The server's header: incomplete, or with its magic, its major version and whether its size is 0.
pub data HeaderReply : Type 0 where
  incomplete_header : HeaderReply
  header : (magic : Bool) → (major : ℕ) → (no_size : Bool) → HeaderReply

-- The server's message: incomplete, or an error and the common capabilities that are tested.
pub data LinkReply : Type 0 where
  incomplete_reply : LinkReply
  reply : LinkError → (auth_selection auth_spice mini_header : Bool) → LinkReply

-- The ticket is sent, or its password is too long, or the server's key is not valid.
pub data Ticket : Type 0 where
  sent too_long bad_key : Ticket

-- The server's verdict on the ticket.
pub data AuthReply : Type 0 where
  incomplete_result : AuthReply
  result : (accepted : Bool) → AuthReply

-- One round of `spice_channel_iterate`: the state and the error after its reads and writes, and
-- then the socket, if there is one, and its condition.
pub record Iteration : Type 0 where
  pub state_after : State
  pub error : Bool
  pub has_sock : Bool
  pub io_err : Bool

-- All the answers to one coroutine; the server may see whether TLS is used. `after_opened` is the state that handlers of the signal OPENED
-- leave, and `handshake_state` what a class's own migration handshake leaves, if it has one.
pub record Replies : Type 0 where
  pub fd_socket : Bool
  pub opens : List Opened
  pub tls_replies : TlsReplies
  pub link_header : HeaderReply
  pub link_reply : (tls : Bool) → LinkReply
  pub ticket : Ticket
  pub auth : AuthReply
  pub after_opened : State
  pub handshake_state : Option State
  pub iterations : List Iteration

-- A coroutine that has come this far, waits, or is at its label `cleanup`.
pub data Progress : Type 0 where
  goes_on : Connection → Progress
  waiting : Connection → Progress
  cleanup : Connection → Progress

abbrev pub and_then : Progress → (Connection → Progress) → Progress
and_then (goes_on c) k = k c
and_then (waiting c) k = waiting c
and_then (cleanup c) k = cleanup c

abbrev pub fail_with : ChannelEvent → Connection → Progress
fail_with e c = cleanup (record c { event = some e })
