-- ===== src/Channel/Messages/Single.antt =====
-- One message through `spice_channel_recv_msg` of src/spice-channel.c, to handlers that leave the
-- channel alone.
use spice_gtk.Channel.Messages.Sequence.{Message, Fits, next_serial}
use spice_gtk.Base.{
  ℕ, ◌+◌, ◌≡◌, refl, ap, sym, ◌∙◌, Bool, false, Option, some, List, [], ◌∷◌, ◌++◌, arith, length,
  if◌then◌else◌,
}
use spice_gtk.Channel.{Bytes, get_header_size}
use spice_gtk.Channel.Wire.{Arrival, Room}
use spice_gtk.Channel.Wire.Reads.{Brings}
use spice_gtk.Channel.Wire.Filling.{bytes_of}
use spice_gtk.Channel.Messages.{
  Protocol, IsProtocol, Channel, Run, done, MsgIn, ack_message, end_msg, recv_msg,
}
use spice_gtk.Channel.Messages.Acks.{encoded}
use spice_gtk.Channel.Messages.Receiving.{msg_in, recv_msg-encoded, process_msg-plain}
use spice_gtk.Channel.Messages.Encoding.{header_of-Tells}

-- The channel when one message has been acknowledged, or not yet.
abbrev pub answered :
    (count serial : ℕ) (wire : Bytes) → List Arrival → List Room → Channel → Channel
answered count serial wire rest rooms c = record c {
  message_ack_count = count;
  out_serial = serial;
  wire = wire;
  rooms = rooms;
  arrivals = rest;
}

-- The channel behind one message.
abbrev pub behind :
    (count serial : ℕ) → Bytes → List Arrival → List Room → Message → Channel → Channel
behind count serial wire rest rooms m c = record (answered count serial wire rest rooms c) {
  last_message_serial = if c.use_mini_header then c.in_serial else m.serial;
  in_serial = next_serial c.in_serial;
}

module _ {P S : Type 0} (parse : Bytes → (type : ℕ) → P) (log : MsgIn → P → S → S) where
  -- Handlers that leave the channel alone.
  abbrev pub logs : MsgIn → P → Channel × S → Run (Channel × S)
  logs m p st = done (st.0, log m p st.1)

  abbrev pub parses : Bytes → (type : ℕ) → Option P
  parses body type = some (parse body type)

module _ (pr : Protocol) (v : IsProtocol pr) {P S : Type 0} (parse : Bytes → (type : ℕ) → P)
    (log : MsgIn → P → S → S) where
  -- What handling all the messages in order makes of `s`.
  abbrev pub handled : (mini : Bool) → List Message → S → S
  handled mini [] s = s
  handled mini (m ∷ ms) s =
      handled mini ms (log (msg_in pr mini m.type m.serial m.body) (parse m.body m.type) s)

  pub recv_one :
      (c : Channel) (count serial : ℕ) (wire : Bytes) (rooms : List Room) (s : S) (m : Message)
      (n : ℕ) (more : Bytes)
      → Fits pr m
      → c.error ≡ false
      → bytes_of c.arrivals ≡ encoded pr c.use_mini_header m.type m.serial m.body ++ more
      → Brings c.tls (get_header_size pr.layout c.use_mini_header + length m.body + n) c.arrivals
      → ((rest : List Arrival)
          → ack_message pr (record c { arrivals = rest })
            ≡ done (answered count serial wire rest rooms c))
      → (rest : List Arrival) × (recv_msg pr (parses parse log) (logs parse log) (c, s)
          ≡ done (
            record (answered count serial wire rest rooms c) {
              last_message_serial = if c.use_mini_header then c.in_serial else m.serial;
              in_serial = next_serial c.in_serial;
            },
            log (msg_in pr c.use_mini_header m.type m.serial m.body) (parse m.body m.type) s,
          ))
        × (bytes_of rest ≡ more)
        × Brings c.tls n rest
  unfolding end_msg
  recv_one c count serial wire rooms s m n more f ok same brings acked =
      let mini = c.use_mini_header in
      let (rest, all, left, brings') =
        recv_msg-encoded pr v (parses parse log) (logs parse log) c s m.type m.serial n m.body more
          f.type_fits f.serial_fits f.body_fits ok same brings in
      let small = f.body_fits in
      let t =
        header_of-Tells pr v m.type m.serial (length m.body) f.type_fits f.serial_fits (omega arith)
          mini in
      let msg = msg_in pr mini m.type m.serial m.body in
      let s' = log msg (parse m.body m.type) s in
      let c0 : Channel = record c { arrivals = rest } in
      let c1 : Channel = answered count serial wire rest rooms c in
      let processed =
        process_msg-plain pr v (parses parse log) (logs parse log) c0 c1 c1 s s' msg
          (parse m.body m.type) (λ e. f.plain (sym t.tells_type ∙ e)) t.tells_sub_list
          (ap (λ k. some (parse m.body k)) t.tells_type) (acked rest) refl in
      (
        rest,
        all
            ∙ (processed
                ∙ ap
                    (λ k. done (
                      record c1 { last_message_serial = k; in_serial = next_serial c.in_serial },
                      s',
                    ))
                    (t.tells_serial c.in_serial)),
        left,
        brings',
      )
