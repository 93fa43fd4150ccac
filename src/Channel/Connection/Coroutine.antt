-- ===== src/Channel/Connection/Coroutine.antt =====
-- src/spice-channel.c: the coroutine of a channel, from the label `reconnect` to its exit.
use spice_gtk.Base.{
  ℕ, suc, ◌-◌, Bool, true, false, not, ◌&&◌, ◌||◌, Option, none, some, List, [], ◌∷◌, ◌==◌, ltb,
  if◌then◌else◌,
}
use spice_gtk.Channel.Connection.{
  State, unconnected, reconnecting, connecting, ready, switching, migrating, migration_handshake,
  ChannelEvent, opened, closed, error_connect, error_tls, error_link, error_auth, error_io, rank,
  Verify, Connection, emit, channel_connect, is_none, channel_reset, Opened, TlsReplies, LinkError,
  ok, need_secured, other_error, HeaderReply, header, incomplete_header, incomplete_reply,
  incomplete_result, LinkReply, reply, Ticket, sent, too_long, bad_key, AuthReply, result,
  Iteration, Replies, Progress, goes_on, waiting, cleanup, and_then, fail_with,
}

-- The host is opened again with TLS where it was not opened and there is no error.
unfoldable pub open_host : List Opened → Connection → Progress
open_host [] c = waiting c
open_host (o ∷ opens) c =
    let again = open_host opens (record c { tls = true }) in
    let c' : Connection = record c { tls = c.tls || o.sets_tls } in
    if o.conn
    then goes_on (record c' { sock = true })
    else (if not o.failed && not c'.tls then again else fail_with error_connect c')

abbrev pub only_pubkey : Verify
only_pubkey = record { pubkey = true; hostname = false; subject = false }

-- What is to be verified, if a certificate was loaded, or that can do without one.
unfoldable pub choose_verify : TlsReplies → Option Verify
choose_verify t =
    if (t.verify.subject || t.verify.hostname) && t.loaded == 0
    then (if t.verify.pubkey then some only_pubkey else none)
    else some t.verify

abbrev pub verify_by : Option Verify → TlsReplies → Connection → Progress
verify_by none t c = fail_with error_tls c
verify_by (some v) t c =
    if not t.has_ssl
    then fail_with error_tls c
    else (let c' : Connection = record c { verified_with = some v } in
        if t.handshake then goes_on c' else fail_with error_tls c')

unfoldable pub start_tls : TlsReplies → Connection → Progress
unfolding choose_verify
start_tls t c =
    if not c.tls
    then goes_on c
    else (if t.has_ctx then verify_by (choose_verify t) t c else fail_with error_tls c)

-- The socket that the client has provided, or one that is opened.
unfoldable pub get_connected : Replies → Connection → Progress
unfolding open_host start_tls
get_connected r c =
    if c.client_provided_socket
    then (if is_none c.fd || not r.fd_socket
        then fail_with error_connect c
        else goes_on (record c { sock = true }))
    else and_then (open_host r.opens c) (start_tls r.tls_replies)

-- Versions 1 and `version_major` are known; with another one nothing is sent.
unfoldable pub send_link : (version_major : ℕ) → Connection → Connection
send_link version_major c =
    if c.protocol == 1 || c.protocol == version_major
    then record c { link_major = c.protocol }
    else c

-- An older protocol is tried, once.
abbrev pub header_error : Connection → Progress
header_error c =
    if not (c.link_major == 1)
    then cleanup (record c { state = reconnecting; protocol = 1 })
    else fail_with error_link c

unfoldable pub recv_link_hdr : HeaderReply → Connection → Progress
recv_link_hdr incomplete_header c = header_error (record c { has_error = true })
recv_link_hdr (header magic major no_size) c =
    if not magic || not (major == c.link_major) || no_size then header_error c else goes_on c

abbrev pub link_error : ChannelEvent → Connection → Progress
link_error e c = fail_with e (record c { has_error = true })

abbrev pub send_ticket : Ticket → Connection → Progress
send_ticket sent c = goes_on c
send_ticket too_long c = link_error error_auth c
send_ticket bad_key c = link_error error_link c

abbrev pub link_by :
    LinkError → (auth_selection auth_spice mini_header : Bool) → Ticket → Connection → Progress
link_by ok selection spice mini ticket c =
    and_then (if not selection || spice then send_ticket ticket c else link_error error_link c)
      λ c'. goes_on (record c' { use_mini_header = mini })
link_by need_secured selection spice mini ticket c =
    cleanup (record c { state = reconnecting; tls = true })
link_by other_error selection spice mini ticket c = link_error error_link c

unfoldable pub recv_link_msg : LinkReply → Ticket → Connection → Progress
recv_link_msg incomplete_reply ticket c = link_error error_link c
recv_link_msg (reply e selection spice mini) ticket c = link_by e selection spice mini ticket c

abbrev pub is_state : State → State → Bool
is_state s t = rank s == rank t

-- The class's own handshake, or the state that waits for the migration.
abbrev pub handshake : Option State → Connection → Connection
handshake none c = record c { state = migrating }
handshake (some s) c = record c { state = s }

abbrev pub channel_up : Connection → Connection
channel_up c = if is_state c.state migrating then c else record c { ups = suc c.ups }

abbrev pub after_signal : Replies → Connection → Connection
after_signal r c =
    channel_up (if is_state c.state migration_handshake then handshake r.handshake_state c else c)

unfoldable pub recv_auth : Replies → AuthReply → Connection → Progress
recv_auth r incomplete_result c = link_error error_link c
recv_auth r (result false) c = link_error error_auth c
recv_auth r (result true) c =
    goes_on (
      after_signal r (record (emit opened (record c { state = ready })) { state = r.after_opened }))

-- The end of the loop, for an error on the socket.
abbrev pub io_failure : Iteration → Connection → Connection
io_failure i c =
    if i.has_sock && i.io_err && ltb (rank connecting) (rank c.state)
    then record c { event = some (if is_state c.state ready then error_io else error_link) }
    else c

unfoldable pub iterate : List Iteration → Connection → Progress
iterate [] c = waiting c
iterate (i ∷ iterations) c =
    let c' : Connection = record c { state = i.state_after; has_error = i.error } in
    let rest = iterate iterations c' in if i.error then cleanup (io_failure i c') else rest

unfoldable pub link_up : (version_major : ℕ) → Replies → Connection → Progress
unfolding send_link recv_link_hdr recv_link_msg recv_auth
link_up version_major r c =
    and_then
      (recv_link_hdr r.link_header (send_link version_major (record c { has_error = false })))
      λ c1. and_then (recv_link_msg (r.link_reply c1.tls) r.ticket c1) λ c2. recv_auth r r.auth c2

unfoldable pub run_coroutine : (version_major : ℕ) → Replies → Connection → Progress
unfolding get_connected link_up iterate
run_coroutine version_major r c =
    and_then (get_connected r c) λ c1. and_then (link_up version_major r c1) (iterate r.iterations)

abbrev pub reconnects : Connection → Bool
reconnects c = is_state c.state reconnecting || is_state c.state switching

-- The exit: another connection, which takes a reference of its own, or the idle function.
unfoldable pub exit : Connection → Connection
unfolding channel_reset channel_connect
exit c =
    let c' = channel_reset c in
    if reconnects c'
    then (let d = (channel_connect c'.tls c').0 in record d { refs = d.refs - 1 })
    else record c' { delayed_unref = true }

abbrev pub finished : Progress → Connection
finished (goes_on c) = c
finished (waiting c) = c
finished (cleanup c) = exit c

unfoldable pub connect_delayed : (version_major : ℕ) → Replies → Connection → Connection
unfolding run_coroutine exit
connect_delayed version_major r c =
    finished (run_coroutine version_major r (record c { connect_delayed = false }))

abbrev pub emit_event : Option ChannelEvent → Connection → Connection
emit_event none c = c
emit_event (some e) c = record (emit e c) { event = none }

-- `spice_channel_delayed_unref`, where it waits.
unfoldable pub unref_delayed : Connection → Connection
unref_delayed c =
    let was_ready = is_state c.state ready in
    let c' : Connection = record c { state = unconnected; delayed_unref = false } in
    if c.for_migration
    then record c' { aborted = true }
    else (let d = emit_event c.event c' in
        record (if was_ready then emit closed d else d) { refs = d.refs - 1 })

-- Each coroutine that waits to be started gets the next answers.
unfoldable pub attempts : (version_major : ℕ) → List Replies → Connection → Connection
unfolding connect_delayed
attempts version_major [] c = c
attempts version_major (r ∷ replies) c =
    let rest = attempts version_major replies (connect_delayed version_major r c) in
    if c.connect_delayed then rest else c
