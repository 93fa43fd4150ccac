-- ===== src/Tests/ConnectionTests.antt =====
-- The queue and the connection of a channel at concrete inputs.
use spice_gtk.Base.{
  ℕ, ◌*◌, ◌≡◌, ◌⊎◌, inr, refl, Bool, true, false, none, some, List, [], ◌∷◌, ◌++◌, arith,
}
use spice_gtk.Channel.Queue.{
  Out, Queue, Place, spice_channel_init, Event, sends, wakes, round, reads, begins, flushes, resets,
  connects, becomes, run, iterate_write,
}
use spice_gtk.Channel.Queue.Invariant.{IsValid, run-IsValid}
use spice_gtk.Channel.Queue.Order.{accepted, drained, run-accepted, iterate_write-drains}
use spice_gtk.Channel.Queue.Flushes.{flush_count, out_count, run-count}
use spice_gtk.Channel.Connection.{
  State, ChannelEvent, opened, closed, error_io, Connection, TlsReplies, LinkReply, reply,
  LinkError, header, incomplete_header, Ticket, result, Replies, cleanup,
}
use spice_gtk.Channel.Connection.Coroutine.{
  open_host, choose_verify, start_tls, get_connected, send_link, recv_link_hdr, recv_link_msg,
  recv_auth, iterate, link_up, run_coroutine, attempts, exit, unref_delayed,
}
use spice_gtk.Channel.Connection.Attempt.{Settled}
use spice_gtk.Channel.Connection.Reconnecting.{attempts-end}
use spice_gtk.Channel.Connection.Events.{run_coroutine-events}
use spice_gtk.Channel.Connection.Unopened.{IsError}

abbrev out : ℕ → Out
out n = record { id = n; size = 10 * n }

-- Two messages and a flush, a wakeup, the loop of writes with a message between its rounds, and a reset.
abbrev events : List Event
events =
    becomes true
    ∷ (begins
        ∷ (round
            ∷ (sends (out 1)
                ∷ (flushes 1
                    ∷ (sends (out 2)
                        ∷ (wakes
                            ∷ (round
                                ∷ (sends (out 3)
                                    ∷ (round
                                        ∷ (round
                                            ∷ (round ∷ (reads ∷ (sends (out 4) ∷ [])))))))))))))

run-IsValid_example :
    IsValid (run (events ++ (resets ∷ (sends (out 5) ∷ (connects ∷ [])))) spice_channel_init)
run-IsValid_example = run-IsValid (events ++ (resets ∷ (sends (out 5) ∷ (connects ∷ []))))

run-accepted_example :
    accepted (run events spice_channel_init) ≡ out 1 ∷ (out 2 ∷ (out 3 ∷ (out 4 ∷ [])))
run-accepted_example = run-accepted events spice_channel_init refl tt

run-count_example :
    let q = run (events ++ (resets ∷ (sends (out 5) ∷ []))) spice_channel_init in
    (flush_count 1 q ≡ 1) × (out_count 4 q ≡ 1)
run-count_example = run-count (events ++ (resets ∷ (sends (out 5) ∷ []))) 1 4

abbrev two_queued : Queue
two_queued = record spice_channel_init {
  place = Place.in_write;
  xmit_queue = out 1 ∷ (out 2 ∷ []);
  xmit_queue_size = 30;
  flushing = 7 ∷ [];
}

iterate_write-drains_example : iterate_write 3 two_queued ≡ drained two_queued
iterate_write-drains_example = iterate_write-drains 3 two_queued (omega arith)

abbrev starting : Connection
starting = record {
  state = State.connecting;
  event = none;
  has_error = false;
  tls = false;
  fd = none;
  sock = false;
  blocked = false;
  use_mini_header = false;
  connect_delayed = true;
  delayed_unref = false;
  refs = 1;
  client_provided_socket = false;
  protocol = 2;
  link_major = 0;
  for_migration = false;
  aborted = false;
  verified_with = none;
  emitted = [];
  fd_requests = 0;
  ups = 0;
}

abbrev tls_works : TlsReplies
tls_works = record {
  has_ctx = true;
  verify = record { pubkey = false; hostname = true; subject = false };
  loaded = 1;
  has_ssl = true;
  handshake = true;
}

-- A server that wants TLS, accepts the ticket and fails while the channel is open.
abbrev secured : (tls : Bool) → LinkReply
secured true = reply LinkError.ok true true true
secured false = reply LinkError.need_secured false false false

abbrev replies : Replies
replies = record {
  fd_socket = false;
  opens = record { conn = true; failed = false; sets_tls = false } ∷ [];
  tls_replies = tls_works;
  link_header = header true 2 false;
  link_reply = secured;
  ticket = Ticket.sent;
  auth = result true;
  after_opened = State.ready;
  handshake_state = none;
  iterations =
      record { state_after = State.ready; error = true; has_sock = true; io_err = true } ∷ [];
}

abbrev no_header : Replies
no_header = record replies { link_header = incomplete_header }

replies-Settled : Settled replies
replies-Settled = record {
  honest = tt;
  opened_stays = refl;
  handshake_stays = tt;
  iterations_stay = (refl, tt);
}

no_header-Settled : Settled no_header
no_header-Settled = record {
  honest = tt;
  opened_stays = refl;
  handshake_stays = tt;
  iterations_stay = (refl, tt);
}

attempts-end_example :
    (attempts 2 (no_header ∷ (replies ∷ (replies ∷ []))) starting).connect_delayed ≡ false
attempts-end_example =
    attempts-end 2 (no_header ∷ (replies ∷ (replies ∷ []))) starting
      (no_header-Settled, (replies-Settled, (replies-Settled, tt))) (inr refl) refl (omega arith)

-- With TLS it runs until the error.
abbrev with_tls : Connection
with_tls = record starting { tls = true; connect_delayed = false }

abbrev failed_open : Connection
failed_open = record with_tls {
  state = State.ready;
  event = some error_io;
  has_error = true;
  sock = true;
  use_mini_header = true;
  link_major = 2;
  verified_with = some tls_works.verify;
  emitted = opened ∷ [];
  ups = 1;
}

failed_open-ends : run_coroutine 2 replies with_tls ≡ cleanup failed_open
unfolding run_coroutine get_connected open_host start_tls choose_verify link_up send_link
    recv_link_hdr recv_link_msg recv_auth iterate
failed_open-ends = refl

run_coroutine-events_example :
    ((e : ChannelEvent) × IsError e × ((unref_delayed (exit failed_open)).emitted ≡ e ∷ []))
    ⊎ ((unref_delayed (exit failed_open)).emitted ≡ opened ∷ (error_io ∷ (closed ∷ [])))
run_coroutine-events_example =
    run_coroutine-events 2 replies with_tls failed_open refl failed_open-ends refl refl
