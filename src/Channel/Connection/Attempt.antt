-- ===== src/Channel/Connection/Attempt.antt =====
-- What one coroutine of src/spice-channel.c leaves to be tried by another.
use spice_gtk.Base.{
  ℕ, suc, ◌+◌, ◌≤◌, ◌<◌, ◌≡◌, ◌⊎◌, refl, ap, sym, ◌∙◌, subst, Bool, true, false, not, ◌&&◌, ◌||◌,
  Option, none, some, List, [], ◌∷◌, arith, ◌==◌, inl, inr, if◌then◌else◌, Bool-cases, if_true,
  if_false, ltb,
}
use spice_gtk.Channel.Connection.{
  State, rank, Connection, is_none, Opened, TlsReplies, Verify, ok, need_secured, other_error,
  HeaderReply, incomplete_header, header, LinkReply, incomplete_reply, reply, Ticket, sent,
  too_long, bad_key, AuthReply, incomplete_result, result, Iteration, Replies, emit, opened,
  Progress, goes_on, waiting, cleanup, and_then,
}
use spice_gtk.Channel.Connection.Coroutine.{
  open_host, choose_verify, verify_by, start_tls, get_connected, send_link, header_error,
  recv_link_hdr, send_ticket, recv_link_msg, is_state, handshake, channel_up, after_signal,
  recv_auth, io_failure, iterate, link_up, run_coroutine, reconnects,
}

-- What can still be changed: the protocol to the oldest, and the connection to TLS.
abbrev pub left_to_try : Connection → ℕ
left_to_try c = (if c.protocol == 1 then 0 else 1) + (if c.tls then 0 else 1)

abbrev pub Known : ℕ → Connection → Type 0
Known version_major c = (c.protocol ≡ 1) ⊎ (c.protocol ≡ version_major)

abbrev pub connects_again : State → Bool
connects_again s = is_state s State.reconnecting || is_state s State.switching

abbrev pub NoSwitch : List Iteration → Type 0
NoSwitch [] = Unit {0}
NoSwitch (i ∷ iterations) = (connects_again i.state_after ≡ false) × NoSwitch iterations

abbrev pub IsHonest : LinkReply → Type 0
IsHonest (reply need_secured selection spice mini) = ⊥
IsHonest l = Unit {0}

abbrev pub StaysUp : Option State → Type 0
StaysUp none = Unit {0}
StaysUp (some s) = connects_again s ≡ false

-- A server that does not ask for TLS where it is used, and handlers that do not switch hosts.
pub record Settled (r : Replies) : Type 0 where
  pub honest : IsHonest (r.link_reply true)
  pub opened_stays : connects_again r.after_opened ≡ false
  pub handshake_stays : StaysUp r.handshake_state
  pub iterations_stay : NoSwitch r.iterations

module _ (version_major m : ℕ) where
  -- With at most `m` changes left, a coroutine that connects again has fewer.
  abbrev pub Fine : Progress → Type 0
  Fine (goes_on c) =
      (reconnects c ≡ false)
      × (c.connect_delayed ≡ false)
      × Known version_major c
      × (left_to_try c ≤ m)
  Fine (waiting c) = c.connect_delayed ≡ false
  Fine (cleanup c) = (reconnects c ≡ false) ⊎ (Known version_major c × (left_to_try c < m))

  and_then-Fine :
      (p : Progress) (k : Connection → Progress)
      → Fine p
      → ((c : Connection) → Fine (goes_on c) → Fine (k c))
      → Fine (and_then p k)
  and_then-Fine (goes_on c) k f h = h c f
  and_then-Fine (waiting c) k f h = f
  and_then-Fine (cleanup c) k f h = f

  Fine-if :
      (b : Bool) (x y : Progress)
      → (b ≡ true → Fine x)
      → (b ≡ false → Fine y)
      → Fine (if b then x else y)
  Fine-if true x y p q = p refl
  Fine-if false x y p q = q refl

  Goes-if :
      (b : Bool) (x y : Connection)
      → Fine (goes_on x)
      → Fine (goes_on y)
      → Fine (goes_on (if b then x else y))
  Goes-if true x y p q = p
  Goes-if false x y p q = q

  tls_on :
      (c : Connection) (t : Bool)
      → left_to_try c ≤ m
      → left_to_try (record c { tls = c.tls || t }) ≤ m
  tls_on c t h = ground arith

  open_host-Fine :
      (opens : List Opened) (c : Connection) → Fine (goes_on c) → Fine (open_host opens c)
  unfolding open_host
  open_host-Fine [] c (s, d, k, l) = d
  open_host-Fine (o ∷ opens) c (s, d, k, l) =
      let on : left_to_try (record c { tls = c.tls || o.sets_tls }) ≤ m = tls_on c o.sets_tls l in
      let retry : left_to_try (record c { tls = true }) ≤ m = ground arith in
      Fine-if o.conn _ _ (λ e. (s, d, k, on))
        λ e.
          Fine-if (not o.failed && not (c.tls || o.sets_tls)) _ _
            (λ t. open_host-Fine opens (record c { tls = true }) (s, d, k, retry)) (λ f. inl s)

  verify_by-Fine :
      (v : Option Verify) (t : TlsReplies) (c : Connection)
      → Fine (goes_on c)
      → Fine (verify_by v t c)
  verify_by-Fine none t c f = inl f.0
  verify_by-Fine (some v) t c f =
      Fine-if (not t.has_ssl) _ _ (λ e. inl f.0)
        λ e. Fine-if t.handshake _ _ (λ e'. f) (λ e'. inl f.0)

  start_tls-Fine : (t : TlsReplies) (c : Connection) → Fine (goes_on c) → Fine (start_tls t c)
  unfolding start_tls
  start_tls-Fine t c f =
      Fine-if (not c.tls) _ _ (λ e. f)
        λ e. Fine-if t.has_ctx _ _ (λ e'. verify_by-Fine (choose_verify t) t c f) (λ e'. inl f.0)

  get_connected-Fine : (r : Replies) (c : Connection) → Fine (goes_on c) → Fine (get_connected r c)
  unfolding get_connected
  get_connected-Fine r c f =
      Fine-if c.client_provided_socket _ _
        (λ e. Fine-if (is_none c.fd || not r.fd_socket) _ _ (λ e'. inl f.0) (λ e'. f))
        (λ e.
          and_then-Fine (open_host r.opens c) (start_tls r.tls_replies) (open_host-Fine r.opens c f)
            (λ c' f'. start_tls-Fine r.tls_replies c' f'))

  header_error-Fine :
      (c : Connection) → c.link_major ≡ c.protocol → Fine (goes_on c) → Fine (header_error c)
  header_error-Fine c sent_as (s, d, k, l) =
      Fine-if (not (c.link_major == 1)) _ _ (λ e. inr (inl refl, ground arith)) (λ e. inl s)

  recv_link_hdr-Fine :
      (h : HeaderReply) (c : Connection)
      → c.link_major ≡ c.protocol
      → Fine (goes_on c)
      → Fine (recv_link_hdr h c)
  unfolding recv_link_hdr
  recv_link_hdr-Fine incomplete_header c e f = header_error-Fine (record c { has_error = true }) e f
  recv_link_hdr-Fine (header magic major no_size) c e f =
      Fine-if (not magic || not (major == c.link_major) || no_size) _ _
        (λ t. header_error-Fine c e f) (λ t. f)

  send_link-sent :
      (c : Connection) → Known version_major c → (send_link version_major c).link_major ≡ c.protocol
  unfolding send_link
  send_link-sent c k = ap (λ (d : Connection). d.link_major) (if_true _ _ (known k))
    where
      known : Known version_major c → (c.protocol == 1 || c.protocol == version_major) ≡ true
      known (inl e) = ground arith
      known (inr e) = ground arith

  send_link-Fine : (c : Connection) → Fine (goes_on c) → Fine (goes_on (send_link version_major c))
  unfolding send_link
  send_link-Fine c f = Goes-if _ (record c { link_major = c.protocol }) c f f

  send_link-protocol : (c : Connection) → (send_link version_major c).protocol ≡ c.protocol
  unfolding send_link
  send_link-protocol c = elim (Bool-cases (c.protocol == 1 || c.protocol == version_major)) [
    | inl e ↦ ap (λ (d : Connection). d.protocol) (if_true _ _ e)
    | inr e ↦ ap (λ (d : Connection). d.protocol) (if_false _ _ e)
  ]

  send_ticket-Fine : (t : Ticket) (c : Connection) → Fine (goes_on c) → Fine (send_ticket t c)
  send_ticket-Fine sent c f = f
  send_ticket-Fine too_long c f = inl f.0
  send_ticket-Fine bad_key c f = inl f.0

  -- The server asks for TLS only where it is not used.
  recv_link_msg-Fine :
      (l : LinkReply) (t : Ticket) (c : Connection)
      → (c.tls ≡ true → IsHonest l)
      → Fine (goes_on c)
      → Fine (recv_link_msg l t c)
  unfolding recv_link_msg
  recv_link_msg-Fine incomplete_reply t c honest f = inl f.0
  recv_link_msg-Fine (reply ok selection spice mini) t c honest f =
      and_then-Fine _ _
        (Fine-if (not selection || spice) _ _ (λ e. send_ticket-Fine t c f) (λ e. inl f.0))
        (λ c' f'. f')
  recv_link_msg-Fine (reply need_secured selection spice mini) t c honest (s, d, k, l) =
      elim (Bool-cases c.tls) [ inl e ↦ absurd (honest e) | inr e ↦ inr (k, ground arith) ]
  recv_link_msg-Fine (reply other_error selection spice mini) t c honest f = inl f.0

  -- Of a state, only these two matter.
  with_state :
      (s : State) (c : Connection)
      → connects_again s ≡ false
      → Fine (goes_on c)
      → Fine (goes_on (record c { state = s }))
  with_state s c e (s', d, k, l) = (e, d, k, l)

  channel_up-Fine : (c : Connection) → Fine (goes_on c) → Fine (goes_on (channel_up c))
  channel_up-Fine c f = Goes-if _ c (record c { ups = suc c.ups }) f f

  handshake-Fine :
      (h : Option State) (c : Connection)
      → StaysUp h
      → Fine (goes_on c)
      → Fine (goes_on (handshake h c))
  handshake-Fine none c stays f = with_state State.migrating c refl f
  handshake-Fine (some s) c stays f = with_state s c stays f

  after_signal-Fine :
      (r : Replies) (c : Connection)
      → Settled r
      → Fine (goes_on c)
      → Fine (goes_on (after_signal r c))
  after_signal-Fine r c v f =
      channel_up-Fine
        (if is_state c.state State.migration_handshake then handshake r.handshake_state c else c)
        (Goes-if _ (handshake r.handshake_state c) c
          (handshake-Fine r.handshake_state c v.handshake_stays f) f)

  recv_auth-Fine :
      (r : Replies) (a : AuthReply) (c : Connection)
      → Settled r
      → Fine (goes_on c)
      → Fine (recv_auth r a c)
  unfolding recv_auth
  recv_auth-Fine r incomplete_result c v f = inl f.0
  recv_auth-Fine r (result false) c v f = inl f.0
  recv_auth-Fine r (result true) c v f =
      let c' : Connection = record (emit opened (record c { state = State.ready })) {
        state = r.after_opened;
      } in
      after_signal-Fine r c' v (v.opened_stays, f.1, f.2, f.3)

  io_failure-Fine :
      (i : Iteration) (c : Connection) → reconnects c ≡ false → reconnects (io_failure i c) ≡ false
  io_failure-Fine i c s =
      elim (Bool-cases (i.has_sock && i.io_err && ltb (rank State.connecting) (rank c.state))) [
        | inl e ↦ ap reconnects (if_true _ _ e) ∙ s
        | inr e ↦ ap reconnects (if_false _ _ e) ∙ s
      ]

  iterate-Fine :
      (is' : List Iteration) (c : Connection)
      → NoSwitch is'
      → Fine (goes_on c)
      → Fine (iterate is' c)
  unfolding iterate
  iterate-Fine [] c stay f = f.1
  iterate-Fine (i ∷ is') c (stay, stays) (s, d, k, l) =
      let c' : Connection = record c { state = i.state_after; has_error = i.error } in
      Fine-if i.error _ _ (λ e. inl (io_failure-Fine i c' stay))
        (λ e. iterate-Fine is' c' stays (stay, d, k, l))

  link_up-Fine :
      (r : Replies) (c : Connection)
      → Settled r
      → Fine (goes_on c)
      → Fine (link_up version_major r c)
  unfolding link_up
  link_up-Fine r c v f =
      let c0 : Connection = record c { has_error = false } in
      let sent_as = send_link-sent c0 f.2 ∙ sym (send_link-protocol c0) in
      and_then-Fine (recv_link_hdr r.link_header (send_link version_major c0)) _
        (recv_link_hdr-Fine r.link_header (send_link version_major c0) sent_as
          (send_link-Fine c0 f))
        λ c1 f1.
          and_then-Fine (recv_link_msg (r.link_reply c1.tls) r.ticket c1) _
            (recv_link_msg-Fine (r.link_reply c1.tls) r.ticket c1
              (λ e. subst (λ b. IsHonest (r.link_reply b)) (sym e) v.honest) f1)
            (λ c2 f2. recv_auth-Fine r r.auth c2 v f2)

  pub run_coroutine-Fine :
      (r : Replies) (c : Connection)
      → Settled r
      → Fine (goes_on c)
      → Fine (run_coroutine version_major r c)
  unfolding run_coroutine
  run_coroutine-Fine r c v f =
      and_then-Fine (get_connected r c) _ (get_connected-Fine r c f) λ c1 f1.
        and_then-Fine (link_up version_major r c1) (iterate r.iterations) (link_up-Fine r c1 v f1)
          (λ c2 f2. iterate-Fine r.iterations c2 v.iterations_stay f2)
