-- ===== src/Channel/Messages/Delivery.antt =====
-- Sequences of messages through `spice_channel_recv_msg` of src/spice-channel.c, with the
-- acknowledgements that go back.
use native.Mathlib.Nat.{suc-mul}
use spice_gtk.Channel.Messages.Sequence.{
  Message, Ready, Fits, AllFit, stream_of, stream_size, next_serial, serial_after, acks_from,
  last_serial, Acknowledged, Acknowledged-nil, Acknowledged-none, Acknowledged-later,
  Acknowledged-now, received, count-cases,
}
use spice_gtk.Base.{
  ℕ, suc, ◌+◌, ◌*◌, ◌≤◌, ◌<◌, ◌≡◌, ap, sym, ◌∙◌, subst, List, [], ◌∷◌, ◌++◌, append-nil,
  append_assoc, arith, length, inl, inr,
}
use spice_gtk.Channel.{Bytes, get_header_size}
use spice_gtk.Channel.Wire.{Arrival, Room}
use spice_gtk.Channel.Wire.Reads.{Brings}
use spice_gtk.Channel.Wire.Filling.{bytes_of}
use spice_gtk.Channel.Wire.Writes.{Open, Open-le}
use spice_gtk.Channel.Messages.{
  Protocol, IsProtocol, Channel, done, bind, MsgIn, ack_message, recv_msg, recv_msgs,
}
use spice_gtk.Channel.Messages.Acks.{
  encoded, ack_of, ack_message-none, ack_message-later, ack_message-now, rooms_after,
}
use spice_gtk.Channel.Messages.Encoding.{length-ack_of}
use spice_gtk.Channel.Messages.Single.{logs, parses, handled, answered, behind, recv_one}

module _ (pr : Protocol) (v : IsProtocol pr) {P S : Type 0} (parse : Bytes → (type : ℕ) → P)
    (log : MsgIn → P → S → S) where
  -- `ms` have come, in order, and `acks` acknowledgements are on the wire.
  abbrev pub Delivered : Channel → S → List Message → ℕ → Bytes → Type 0
  Delivered c s ms n more =
      let mini = c.use_mini_header in
      (acks : ℕ) × (count : ℕ) × (rest : List Arrival) × (rooms : List Room) × (recv_msgs pr
          (parses parse log) (logs parse log) (length ms) (c, s)
        ≡ done (
          received (length ms) (last_serial mini ms c.in_serial c.last_message_serial) count
              (serial_after acks c.out_serial) (c.wire ++ acks_from pr mini acks c.out_serial) rest
              rooms c,
          handled pr v parse log mini ms s,
        ))
      × Acknowledged c.message_ack_window c.message_ack_count (length ms) acks count
      × (bytes_of rest ≡ more)
      × Brings c.tls n rest

  -- Where one message has come, and the others are delivered behind it.
  deliver_on :
      (c c1 : Channel) (s s1 : S) (k : ℕ) (st : Channel × S)
      → recv_msg pr (parses parse log) (logs parse log) (c, s) ≡ done (c1, s1)
      → recv_msgs pr (parses parse log) (logs parse log) k (c1, s1) ≡ done st
      → recv_msgs pr (parses parse log) (logs parse log) (suc k) (c, s) ≡ done st
  unfolding recv_msgs
  deliver_on c c1 s s1 k st first others =
      ap (λ r. bind r (recv_msgs pr (parses parse log) (logs parse log) k)) first ∙ others

  -- One message, and the others by `ih`.
  recv_next :
      (c : Channel) (count serial : ℕ) (wire : Bytes) (rooms : List Room) (s : S) (m : Message)
      (ms : List Message) (n : ℕ) (more : Bytes)
      → Fits pr m
      → Ready pr c (m ∷ ms) n more
      → count ≤ c.message_ack_window
      → Open c.tls (length ms * get_header_size pr.layout c.use_mini_header) rooms
      → ((rest : List Arrival)
          → ack_message pr (record c { arrivals = rest })
            ≡ done (answered count serial wire rest rooms c))
      → ((c1 : Channel) (s1 : S) → Ready pr c1 ms n more → Delivered c1 s1 ms n more)
      → (rest : List Arrival) × (recv_msg pr (parses parse log) (logs parse log) (c, s)
          ≡ done (
            behind count serial wire rest rooms m c,
            handled pr v parse log c.use_mini_header (m ∷ []) s,
          ))
        × Delivered
            (behind count serial wire rest rooms m c)
            (handled pr v parse log c.use_mini_header (m ∷ []) s)
            ms
            n
            more
  recv_next c count serial wire rooms s m ms n more f r within open' acked ih =
      let mini = c.use_mini_header in
      let hs = get_header_size pr.layout mini in
      let later = stream_of pr mini ms ++ more in
      let code = encoded pr mini m.type m.serial m.body in
      let size : hs + length m.body + stream_size pr mini ms + n
          ≡ hs + length m.body + (stream_size pr mini ms + n) =
        omega arith in
      let (rest, first, left, brings1) =
        recv_one pr v parse log c count serial wire rooms s m (stream_size pr mini ms + n) later f
          r.no_error (r.arriving ∙ append_assoc code (stream_of pr mini ms) more)
          (subst (λ k. Brings c.tls k c.arrivals) size r.brings) acked in
      (
        rest,
        first,
        ih _ _ (record {
          no_error = r.no_error;
          within_window = within;
          arriving = left;
          brings = brings1;
          takes_acks = open';
        }),
      )

  -- A message that is not acknowledged yet.
  recv_unacked :
      (c : Channel) (count : ℕ) (s : S) (m : Message) (ms : List Message) (n : ℕ) (more : Bytes)
      → Fits pr m
      → Ready pr c (m ∷ ms) n more
      → count ≤ c.message_ack_window
      → Open c.tls (length ms * get_header_size pr.layout c.use_mini_header) c.rooms
      → ((rest : List Arrival)
          → ack_message pr (record c { arrivals = rest })
            ≡ done (answered count c.out_serial c.wire rest c.rooms c))
      → ((acks count' : ℕ)
          → Acknowledged c.message_ack_window count (length ms) acks count'
          → Acknowledged c.message_ack_window c.message_ack_count (suc (length ms)) acks count')
      → ((c1 : Channel) (s1 : S) → Ready pr c1 ms n more → Delivered c1 s1 ms n more)
      → Delivered c s (m ∷ ms) n more
  recv_unacked c count s m ms n more f r within open' acked step ih =
      let (rest, first, (acks, count', rest1, rooms, others, due, left, brings)) =
        recv_next c count c.out_serial c.wire c.rooms s m ms n more f r within open' acked ih in
      (
        acks,
        count',
        rest1,
        rooms,
        deliver_on c _ s _ (length ms) _ first others,
        step acks count' due,
        left,
        brings,
      )

  -- A message whose acknowledgement is sent.
  recv_acked :
      (c : Channel) (s : S) (m : Message) (ms : List Message) (n : ℕ) (more : Bytes)
      → Fits pr m
      → Ready pr c (m ∷ ms) n more
      → c.message_ack_count ≡ 1
      → ((c1 : Channel) (s1 : S) → Ready pr c1 ms n more → Delivered c1 s1 ms n more)
      → Delivered c s (m ∷ ms) n more
  recv_acked c s m ms n more f r e ih =
      let mini = c.use_mini_header in
      let hs = get_header_size pr.layout mini in
      let w = r.within_window in
      let pos : 0 < c.message_ack_window = omega arith in
      let rounds : suc (length ms) * hs ≡ length ms * hs + hs = suc-mul (length ms) hs in
      let ack_size = length-ack_of pr v c in
      let enough : suc (length ms) * hs ≡ length (ack_of pr c) + length ms * hs =
        omega (arith, rounds, ack_size) in
      let open' = subst (λ k. Open c.tls k c.rooms) enough r.takes_acks in
      let rooms0 = rooms_after c (ack_of pr c) in
      let acked : (rest : List Arrival)
          → ack_message pr (record c { arrivals = rest })
            ≡ done (
                answered c.message_ack_window (next_serial c.out_serial) (c.wire ++ ack_of pr c)
                  rest rooms0 c) =
        λ rest.
          (ack_message-now pr (record c { arrivals = rest }) (length ms * hs) v e r.no_error
            open').0 in
      let reset_fits : c.message_ack_window ≤ c.message_ack_window = omega arith in
      let left_open = (ack_message-now pr c (length ms * hs) v e r.no_error open').1 in
      let (rest, first, (acks, count, rest1, rooms, others, due, left, brings)) =
        recv_next c c.message_ack_window (next_serial c.out_serial) (c.wire ++ ack_of pr c) rooms0 s
          m ms n more f r reset_fits left_open acked ih in
      (
        suc acks,
        count,
        rest1,
        rooms,
        deliver_on c _ s _ (length ms) _ first others
            ∙ ap
                (λ b. done (
                  received (suc (length ms))
                      (last_serial mini (m ∷ ms) c.in_serial c.last_message_serial) count
                      (serial_after (suc acks) c.out_serial) b rest1 rooms c,
                  handled pr v parse log mini (m ∷ ms) s,
                ))
                (append_assoc c.wire (ack_of pr c)
                  (acks_from pr mini acks (next_serial c.out_serial))),
        subst (λ k. Acknowledged c.message_ack_window k (suc (length ms)) (suc acks) count) (sym e)
            (Acknowledged-now c.message_ack_window (length ms) acks count pos due),
        left,
        brings,
      )

  -- Messages with headers of either kind, none of them a list, that come in portions of any size and
  -- with any waits between them, to handlers that leave the channel alone, while the socket takes the
  -- acknowledgements and the bodies are shorter than 2 ^ 31 bytes: each is handled once, in order, with the type and the body that it was sent with; the serials go on by one for
  -- each; one acknowledgement for each window of messages is on the wire, in order; and what comes
  -- behind them is still there to be read.
  pub recv_msgs-delivers :
      (ms : List Message) (c : Channel) (s : S) (n : ℕ) (more : Bytes)
      → AllFit pr ms
      → Ready pr c ms n more
      → Delivered c s ms n more
  unfolding recv_msgs
  recv_msgs-delivers [] c s n more fits r =
      let e : 0 + n ≡ n = omega arith in
      (
        0,
        c.message_ack_count,
        c.arrivals,
        c.rooms,
        ap (λ w. done (record c { wire = w }, s)) (sym (append-nil c.wire)),
        Acknowledged-nil c.message_ack_window c.message_ack_count r.within_window,
        r.arriving,
        subst (λ k. Brings c.tls k c.arrivals) e r.brings,
      )
  recv_msgs-delivers (m ∷ ms) c s n more (f, fits) r =
      let mini = c.use_mini_header in
      let hs = get_header_size pr.layout mini in
      let rounds : suc (length ms) * hs ≡ length ms * hs + hs = suc-mul (length ms) hs in
      let fewer =
        Open-le c.tls (length ms * hs) (suc (length ms) * hs) c.rooms (omega (arith, rounds))
          r.takes_acks in
      let ih : (c1 : Channel) (s1 : S) → Ready pr c1 ms n more → Delivered c1 s1 ms n more =
        λ c1 s1 r1. recv_msgs-delivers ms c1 s1 n more fits r1 in
      elim (count-cases c.message_ack_count) [
        | inl e ↦
            recv_unacked c c.message_ack_count s m ms n more f r r.within_window fewer
              (λ rest. ack_message-none pr (record c { arrivals = rest }) e)
              (λ acks count' due.
                Acknowledged-none c.message_ack_window c.message_ack_count (length ms) acks count' e
                  due)
              ih
        | inr (inl e) ↦ recv_acked c s m ms n more f r e ih
        | inr (inr (k, e)) ↦
            let w = r.within_window in
            recv_unacked c (suc k) s m ms n more f r (omega arith) fewer
              (λ rest. ack_message-later pr (record c { arrivals = rest }) k e)
              (λ acks count' due.
                subst (λ j. Acknowledged c.message_ack_window j (suc (length ms)) acks count')
                  (sym e) (Acknowledged-later c.message_ack_window k (length ms) acks count' due))
              ih
      ]
