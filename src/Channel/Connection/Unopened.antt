-- ===== src/Channel/Connection/Unopened.antt =====
-- The coroutine of src/spice-channel.c before the channel is open: it ends for a reason.
use spice_gtk.Base.{
  ℕ, ◌≡◌, ◌⊎◌, refl, sym, subst, Bool, true, false, not, ◌&&◌, ◌||◌, Option, none, some, List, [],
  ◌∷◌, ◌==◌, inl, inr, if◌then◌else◌, Bool-cases, if_true, if_false,
}
use spice_gtk.Channel.Connection.{
  State, ChannelEvent, opened, closed, error_connect, error_tls, error_link, error_auth, Connection,
  is_none, Opened, TlsReplies, Verify, ok, need_secured, other_error, HeaderReply,
  incomplete_header, header, LinkReply, incomplete_reply, reply, Ticket, sent, too_long, bad_key,
  Replies, Progress, goes_on, waiting, cleanup, and_then, fail_with,
}
use spice_gtk.Channel.Connection.Coroutine.{
  open_host, choose_verify, verify_by, start_tls, get_connected, send_link, header_error,
  recv_link_hdr, link_error, send_ticket, recv_link_msg, is_state, reconnects,
}

abbrev pub IsError : ChannelEvent → Type 0
IsError opened = ⊥
IsError ChannelEvent.switching = ⊥
IsError closed = ⊥
IsError e = Unit {0}

-- The reason for an end before the channel is open: it will connect again, or there is an error.
abbrev pub Reason : Connection → Type 0
Reason c = (reconnects c ≡ true) ⊎ ((e : ChannelEvent) × IsError e × (c.event ≡ some e))

-- Before the event OPENED, with `emitted` the events up to now.
abbrev pub Unopened : List ChannelEvent → Connection → Type 0
Unopened emitted c = (c.emitted ≡ emitted) × (is_state c.state State.ready ≡ false)

abbrev pub Before : List ChannelEvent → Progress → Type 0
Before emitted (goes_on c) = Unopened emitted c
Before emitted (waiting c) = Unit {0}
Before emitted (cleanup c) = Unopened emitted c × Reason c

module _ (es : List ChannelEvent) where
  Before-bind :
      (p : Progress) (k : Connection → Progress)
      → Before es p
      → ((c : Connection) → Unopened es c → Before es (k c))
      → Before es (and_then p k)
  Before-bind (goes_on c) k f h = h c f
  Before-bind (waiting c) k f h = f
  Before-bind (cleanup c) k f h = f

  Before-if :
      (b : Bool) (x y : Progress) → Before es x → Before es y → Before es (if b then x else y)
  Before-if true x y p q = p
  Before-if false x y p q = q

  pub failed :
      (e : ChannelEvent) (c : Connection) → IsError e → Unopened es c → Before es (fail_with e c)
  failed e c is f = (f, inr (e, is, refl))

  open_host-Before :
      (opens : List Opened) (c : Connection) → Unopened es c → Before es (open_host opens c)
  unfolding open_host
  open_host-Before [] c f = tt
  open_host-Before (o ∷ opens) c f = Before-if o.conn _ _ f (
      Before-if (not o.failed && not (c.tls || o.sets_tls)) _ _
        (open_host-Before opens (record c { tls = true }) f)
        (failed error_connect (record c { tls = c.tls || o.sets_tls }) tt f))

  verify_by-Before :
      (v : Option Verify) (t : TlsReplies) (c : Connection)
      → Unopened es c
      → Before es (verify_by v t c)
  verify_by-Before none t c f = failed error_tls c tt f
  verify_by-Before (some v) t c f =
      Before-if (not t.has_ssl) _ _ (failed error_tls c tt f)
        (Before-if t.handshake _ _ f (failed error_tls (record c { verified_with = some v }) tt f))

  start_tls-Before : (t : TlsReplies) (c : Connection) → Unopened es c → Before es (start_tls t c)
  unfolding start_tls
  start_tls-Before t c f =
      Before-if (not c.tls) _ _ f (
        Before-if t.has_ctx _ _ (verify_by-Before (choose_verify t) t c f)
          (failed error_tls c tt f))

  pub get_connected-Before :
      (r : Replies) (c : Connection) → Unopened es c → Before es (get_connected r c)
  unfolding get_connected
  get_connected-Before r c f =
      Before-if c.client_provided_socket _ _
        (Before-if (is_none c.fd || not r.fd_socket) _ _ (failed error_connect c tt f) f)
        (Before-bind (open_host r.opens c) (start_tls r.tls_replies) (open_host-Before r.opens c f)
          (λ c' f'. start_tls-Before r.tls_replies c' f'))

  header_error-Before : (c : Connection) → Unopened es c → Before es (header_error c)
  header_error-Before c f =
      Before-if (not (c.link_major == 1)) _ _ ((f.0, refl), inl refl) (failed error_link c tt f)

  pub recv_link_hdr-Before :
      (h : HeaderReply) (c : Connection) → Unopened es c → Before es (recv_link_hdr h c)
  unfolding recv_link_hdr
  recv_link_hdr-Before incomplete_header c f = header_error-Before (record c { has_error = true }) f
  recv_link_hdr-Before (header magic major no_size) c f =
      Before-if (not magic || not (major == c.link_major) || no_size) _ _ (header_error-Before c f)
        f

  send_ticket-Before : (t : Ticket) (c : Connection) → Unopened es c → Before es (send_ticket t c)
  send_ticket-Before sent c f = f
  send_ticket-Before too_long c f = failed error_auth (record c { has_error = true }) tt f
  send_ticket-Before bad_key c f = failed error_link (record c { has_error = true }) tt f

  pub recv_link_msg-Before :
      (l : LinkReply) (t : Ticket) (c : Connection)
      → Unopened es c
      → Before es (recv_link_msg l t c)
  unfolding recv_link_msg
  recv_link_msg-Before incomplete_reply t c f =
      failed error_link (record c { has_error = true }) tt f
  recv_link_msg-Before (reply ok selection spice mini) t c f =
      Before-bind (if not selection || spice then send_ticket t c else link_error error_link c) _
        (Before-if (not selection || spice) _ _ (send_ticket-Before t c f)
          (failed error_link (record c { has_error = true }) tt f))
        (λ c' f'. f')
  recv_link_msg-Before (reply need_secured selection spice mini) t c f = ((f.0, refl), inl refl)
  recv_link_msg-Before (reply other_error selection spice mini) t c f =
      failed error_link (record c { has_error = true }) tt f

  pub send_link-Before :
      (version_major : ℕ) (c : Connection) → Unopened es c → Unopened es (send_link version_major c)
  unfolding send_link
  send_link-Before version_major c f =
      elim (Bool-cases (c.protocol == 1 || c.protocol == version_major)) [
        | inl e ↦ subst (Unopened es) (sym (if_true _ _ e)) f
        | inr e ↦ subst (Unopened es) (sym (if_false _ _ e)) f
      ]
