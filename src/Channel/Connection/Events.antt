-- ===== src/Channel/Connection/Events.antt =====
-- The events that a connection of src/spice-channel.c ends with.
use spice_gtk.Base.{
  ℕ, suc, ◌≡◌, ◌⊎◌, refl, ap, ap₂, sym, ◌∙◌, subst, Bool, true, false, ◌&&◌, Option, none, some,
  List, [], ◌∷◌, ◌++◌, append-nil, ltb, inl, inr, if◌then◌else◌, Bool-cases, if_true, if_false,
}
use spice_gtk.Channel.Connection.{
  State, rank, ChannelEvent, opened, closed, error_link, error_auth, Connection, channel_reset,
  AuthReply, incomplete_result, result, Iteration, Replies, Progress, goes_on, waiting, cleanup,
  and_then, fail_with, emit,
}
use spice_gtk.Channel.Connection.Coroutine.{
  get_connected, send_link, recv_link_hdr, recv_link_msg, is_state, handshake, after_signal,
  recv_auth, io_failure, iterate, link_up, run_coroutine, reconnects, exit, emit_event,
  unref_delayed,
}
use spice_gtk.Channel.Connection.Unopened.{
  IsError, Reason, Unopened, Before, failed, get_connected-Before, recv_link_hdr-Before,
  recv_link_msg-Before, send_link-Before,
}

-- Behind it.
abbrev After : List ChannelEvent → Progress → Type 0
After emitted (goes_on c) = c.emitted ≡ emitted ++ (opened ∷ [])
After emitted (waiting c) = Unit {0}
After emitted (cleanup c) = c.emitted ≡ emitted ++ (opened ∷ [])

module _ (es : List ChannelEvent) where
  -- The rounds of the loop emit nothing.
  io_failure-emitted : (i : Iteration) (c : Connection) → (io_failure i c).emitted ≡ c.emitted
  io_failure-emitted i c =
      elim (Bool-cases (i.has_sock && i.io_err && ltb (rank State.connecting) (rank c.state))) [
        | inl e ↦ ap (λ (d : Connection). d.emitted) (if_true _ _ e)
        | inr e ↦ ap (λ (d : Connection). d.emitted) (if_false _ _ e)
      ]

  After-if : (b : Bool) (x y : Progress) → After es x → After es y → After es (if b then x else y)
  After-if true x y p q = p
  After-if false x y p q = q

  iterate-After :
      (is' : List Iteration) (c : Connection) → After es (goes_on c) → After es (iterate is' c)
  unfolding iterate
  iterate-After [] c f = tt
  iterate-After (i ∷ is') c f =
      let c' : Connection = record c { state = i.state_after; has_error = i.error } in
      After-if i.error _ _ (io_failure-emitted i c' ∙ f) (iterate-After is' c' f)

  emitted-if :
      (b : Bool) (x y : Connection) (xs : List ChannelEvent)
      → x.emitted ≡ xs
      → y.emitted ≡ xs
      → (if b then x else y).emitted ≡ xs
  emitted-if true x y xs p q = p
  emitted-if false x y xs p q = q

  handshake-emitted : (h : Option State) (c : Connection) → (handshake h c).emitted ≡ c.emitted
  handshake-emitted none c = refl
  handshake-emitted (some s) c = refl

  after_signal-emitted : (r : Replies) (c : Connection) → (after_signal r c).emitted ≡ c.emitted
  after_signal-emitted r c =
      let d =
        if is_state c.state State.migration_handshake then handshake r.handshake_state c else c in
      let same =
        emitted-if (is_state c.state State.migration_handshake) (handshake r.handshake_state c) c
          c.emitted (handshake-emitted r.handshake_state c) refl in
      emitted-if (is_state d.state State.migrating) d (record d { ups = suc d.ups }) c.emitted same
        same

  -- Open where it goes on; at its end open, or not and then for a reason.
  abbrev Told : Progress → Type 0
  Told (goes_on c) = c.emitted ≡ es ++ (opened ∷ [])
  Told (waiting c) = Unit {0}
  Told (cleanup c) = (Unopened es c × Reason c) ⊎ (c.emitted ≡ es ++ (opened ∷ []))

  before_opening-Told :
      (p : Progress) (k : Connection → Progress)
      → Before es p
      → ((c : Connection) → Unopened es c → Told (k c))
      → Told (and_then p k)
  before_opening-Told (goes_on c) k f h = h c f
  before_opening-Told (waiting c) k f h = f
  before_opening-Told (cleanup c) k f h = inl f

  After-Told : (p : Progress) → After es p → Told p
  After-Told (goes_on c) f = f
  After-Told (waiting c) f = f
  After-Told (cleanup c) f = inr f

  and_then-Told :
      (p : Progress) (k : Connection → Progress)
      → Told p
      → ((c : Connection) → After es (goes_on c) → After es (k c))
      → Told (and_then p k)
  and_then-Told (goes_on c) k f h = After-Told (k c) (h c f)
  and_then-Told (waiting c) k f h = f
  and_then-Told (cleanup c) k f h = f

  failed-Told :
      (e : ChannelEvent) (c : Connection) → IsError e → Unopened es c → Told (fail_with e c)
  failed-Told e c is f = inl (failed es e c is f)

  recv_auth-Told :
      (r : Replies) (a : AuthReply) (c : Connection) → Unopened es c → Told (recv_auth r a c)
  unfolding recv_auth
  recv_auth-Told r incomplete_result c f =
      failed-Told error_link (record c { has_error = true }) tt f
  recv_auth-Told r (result false) c f = failed-Told error_auth (record c { has_error = true }) tt f
  recv_auth-Told r (result true) c f =
      after_signal-emitted r
        (record (emit opened (record c { state = State.ready })) { state = r.after_opened })
      ∙ ap (λ xs. xs ++ (opened ∷ [])) f.0

  link_up-Told :
      (version_major : ℕ) (r : Replies) (c : Connection)
      → Unopened es c
      → Told (link_up version_major r c)
  unfolding link_up
  link_up-Told version_major r c f =
      let c0 : Connection = record c { has_error = false } in
      let d = send_link version_major c0 in
      before_opening-Told (recv_link_hdr r.link_header d) _
        (recv_link_hdr-Before es r.link_header d (send_link-Before es version_major c0 f))
        λ c1 f1.
          before_opening-Told (recv_link_msg (r.link_reply c1.tls) r.ticket c1) _
            (recv_link_msg-Before es (r.link_reply c1.tls) r.ticket c1 f1)
            (λ c2 f2. recv_auth-Told r r.auth c2 f2)

  pub run_coroutine-Told :
      (version_major : ℕ) (r : Replies) (c : Connection)
      → Unopened es c
      → Told (run_coroutine version_major r c)
  unfolding run_coroutine
  run_coroutine-Told version_major r c f =
      before_opening-Told (get_connected r c) _ (get_connected-Before es r c f) λ c1 f1.
        and_then-Told (link_up version_major r c1) (iterate r.iterations)
          (link_up-Told version_major r c1 f1) (λ c2 f2. iterate-After r.iterations c2 f2)

abbrev pub to_list : Option ChannelEvent → List ChannelEvent
to_list none = []
to_list (some e) = e ∷ []

-- What the idle function emits behind the end of a coroutine.
unref_delayed-emitted :
    (c : Connection)
    → c.for_migration ≡ false
    → (unref_delayed c).emitted
      ≡ (c.emitted ++ to_list c.event) ++ (if is_state c.state State.ready then closed ∷ [] else [])
unfolding unref_delayed
unref_delayed-emitted c not_migration =
    ap (λ (d : Connection). d.emitted) (if_false _ _ not_migration)
    ∙ closes (is_state c.state State.ready)
        (emit_event c.event (record c { state = State.unconnected; delayed_unref = false }))
    ∙ ap (λ xs. xs ++ (if is_state c.state State.ready then closed ∷ [] else []))
        (emits c.event (record c { state = State.unconnected; delayed_unref = false }))
  where
    emits :
        (e : Option ChannelEvent) (d : Connection)
        → (emit_event e d).emitted ≡ d.emitted ++ to_list e
    emits none d = sym (append-nil d.emitted)
    emits (some e) d = refl

    closes :
        (b : Bool) (d : Connection)
        → (if b then emit closed d else d).emitted ≡ d.emitted ++ (if b then closed ∷ [] else [])
    closes true d = refl
    closes false d = sym (append-nil d.emitted)

exit-same :
    (c : Connection)
    → reconnects c ≡ false
    → exit c ≡ record c {
      connect_delayed = false;
      sock = false;
      fd = none;
      blocked = true;
      delayed_unref = true;
    }
unfolding exit channel_reset
exit-same c e = if_false _ _ e

-- A coroutine that ends without another connection, in a session that is not for a migration: either
-- the channel was not opened, and then one error is its only event; or it was, and then its
-- events are OPENED, the error that it ended with, if any, and CLOSED if its state was still READY.
pub run_coroutine-events :
    (version_major : ℕ) (r : Replies) (c d : Connection)
    → is_state c.state State.ready ≡ false
    → run_coroutine version_major r c ≡ cleanup d
    → reconnects d ≡ false
    → d.for_migration ≡ false
    → ((e : ChannelEvent) × IsError e × ((unref_delayed (exit d)).emitted ≡ c.emitted ++ (e ∷ [])))
      ⊎ ((unref_delayed (exit d)).emitted
          ≡ ((c.emitted ++ (opened ∷ [])) ++ to_list d.event)
            ++ (if is_state d.state State.ready then closed ∷ [] else []))
run_coroutine-events version_major r c d unready ends no_more not_migration =
    let d' : Connection = record d {
      connect_delayed = false;
      sock = false;
      fd = none;
      blocked = true;
      delayed_unref = true;
    } in
    let final : (unref_delayed (exit d)).emitted
        ≡ (d.emitted ++ to_list d.event)
          ++ (if is_state d.state State.ready then closed ∷ [] else []) =
      ap (λ x. (unref_delayed x).emitted) (exit-same d no_more)
      ∙ unref_delayed-emitted d' not_migration in
    elim (subst (Told c.emitted) ends
      (run_coroutine-Told c.emitted version_major r c (refl, unready))) [
        | inl (unopened, inl again) ↦ absurd (let t : true ≡ false = sym again ∙ no_more in cc t)
        | inl ((same, not_ready), inr (e, is, event)) ↦ inl (
          e,
          is,
          final
              ∙ (ap (λ xs. xs ++ (if is_state d.state State.ready then closed ∷ [] else []))
                    (ap₂ (λ xs o. xs ++ to_list o) same event)
                  ∙ (ap (λ b. (c.emitted ++ (e ∷ [])) ++ (if b then closed ∷ [] else [])) not_ready
                      ∙ append-nil (c.emitted ++ (e ∷ [])))),
        )
        | inr same ↦ inr (
            final
            ∙ ap
                (λ xs.
                  (xs ++ to_list d.event)
                  ++ (if is_state d.state State.ready then closed ∷ [] else []))
                same)
      ]
