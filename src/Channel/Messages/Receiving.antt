-- ===== src/Channel/Messages/Receiving.antt =====
-- What `spice_channel_recv_msg` of src/spice-channel.c makes of what `spice_channel_write_msg` writes.
use spice_gtk.Base.{
  ℕ, ◌+◌, ◌-◌, ◌^◌, ◌<◌, ◌≡◌, ◌≢◌, refl, ap, ap₂, sym, ◌∙◌, subst, Bool, true, false, not, ◌||◌,
  Option, some, List, ◌++◌, append_assoc, arith, length, take, drop, ◌==◌, ltb, lt→ltb, if_true,
  if_false,
}
use spice_gtk.Channel.{Bytes, limit, get_msg_type, get_msg_size, get_header_size, get_msg_sub_list}
use spice_gtk.Channel.Header.{take-prefix, drop_front}
use spice_gtk.Channel.Wire.{Arrival, filled, read}
use spice_gtk.Channel.Wire.Reads.{Brings, read-Brings}
use spice_gtk.Channel.Wire.Filling.{bytes_of}
use spice_gtk.Channel.Messages.Acks.{encoded}
use spice_gtk.Channel.Messages.{
  Protocol, IsProtocol, Channel, Run, done, MsgIn, process_msg, recv_msg, after_body, after_header,
  bind, handle_list, handle_main, handle_parsed, ack_and_main, ack_message, end_msg,
}
use spice_gtk.Channel.Messages.Encoding.{header_of, header_of-Tells, encoded-parts}

-- A message as it comes in.
abbrev pub msg_in : Protocol → (mini : Bool) → (type serial : ℕ) → Bytes → MsgIn
msg_in pr mini type serial body = record {
  header = header_of pr mini type serial (length body);
  data' = body;
}

module _ (pr : Protocol) (v : IsProtocol pr) {P S : Type 0} (parser : Bytes → (type : ℕ) → Option P)
    (handler : MsgIn → P → Channel × S → Run (Channel × S)) where
  -- Both reads of a message end, and what has been received is what was written.
  pub recv_msg-encoded :
      (c : Channel) (s : S) (type serial n : ℕ) (body more : Bytes)
      → type < limit 2
      → serial < limit 8
      → length body < 2 ^ 31
      → c.error ≡ false
      → bytes_of c.arrivals ≡ encoded pr c.use_mini_header type serial body ++ more
      → Brings c.tls (get_header_size pr.layout c.use_mini_header + length body + n) c.arrivals
      → (rest : List Arrival) × (recv_msg pr parser handler (c, s)
          ≡ process_msg pr parser handler
              (msg_in pr c.use_mini_header type serial body)
              (record c { arrivals = rest }, s))
        × (bytes_of rest ≡ more)
        × Brings c.tls n rest
  unfolding recv_msg
  recv_msg-encoded c s type serial n body more type_fits serial_fits size_fits ok same brings =
      let mini = c.use_mini_header in
      let hs = get_header_size pr.layout mini in
      let t =
        header_of-Tells pr v type serial (length body) type_fits serial_fits (omega arith) mini in
      let h = header_of pr mini type serial (length body) in
      let all : bytes_of c.arrivals ≡ h ++ (body ++ more) =
        same
        ∙ (ap (λ b. b ++ more) (encoded-parts pr v mini type serial body)
            ∙ append_assoc h body more) in
      let (rest, read1, left1, brings1) =
        read-Brings c.tls hs (hs + length body + n) c.arrivals (omega arith) brings in
      let left1' : bytes_of rest ≡ body ++ more =
        left1 ∙ (ap (drop hs) all ∙ drop_front h (body ++ more) hs t.tells_length) in
      let (rest2, read2, left2, brings2) =
        read-Brings c.tls (length body) (hs + length body + n - hs) rest (omega arith) brings1 in
      let size : ltb (get_msg_size pr.layout mini h) (2 ^ 31) ≡ true =
        lt→ltb _ _ (subst (λ k. k < 2 ^ 31) (sym t.tells_size) size_fits) in
      let first : read c.tls c.error hs c.arrivals ≡ filled h rest =
        ap (λ e. read c.tls e hs c.arrivals) ok
        ∙ (read1
            ∙ ap (λ b. filled b rest)
                (ap (take hs) all ∙ take-prefix h (body ++ more) hs t.tells_length)) in
      let second : read c.tls c.error (get_msg_size pr.layout mini h) rest ≡ filled body rest2 =
        ap (λ e. read c.tls e (get_msg_size pr.layout mini h) rest) ok
        ∙ (ap (λ k. read c.tls false k rest) t.tells_size
            ∙ (read2
                ∙ ap (λ b. filled b rest2)
                    (ap (take (length body)) left1' ∙ take-prefix body more (length body) refl))) in
      let c' : Channel = record c { arrivals = rest } in
      (
        rest2,
        ap (λ r. after_header pr parser handler r (c, s)) first
            ∙ (if_true _ _ size ∙ ap (λ r. after_body pr parser handler h r (c', s)) second),
        left2 ∙ (ap (drop (length body)) left1' ∙ drop_front body more (length body) refl),
        subst (λ k. Brings c.tls k rest2)
            (let e : hs + length body + n - hs - length body ≡ n = omega arith in e) brings2,
      )

  -- A message that is not a list, has no sub-messages and parses goes to its handler, after
  -- the acknowledgement.
  pub process_msg-plain :
      (c c' c'' : Channel) (s s' : S) (m : MsgIn) (p : P)
      → get_msg_type pr.layout c.use_mini_header m.header ≢ pr.msg_list
      → get_msg_sub_list pr.layout c.use_mini_header m.header ≡ 0
      → parser m.data' (get_msg_type pr.layout c.use_mini_header m.header) ≡ some p
      → ack_message pr c ≡ done c'
      → handler m p (c', s) ≡ done (c'', s')
      → process_msg pr parser handler m (c, s) ≡ done (end_msg pr parser handler m.header (c'', s'))
  unfolding process_msg
  process_msg-plain c c' c'' s s' m p plain no_subs parsed acked handled =
      let type = get_msg_type pr.layout c.use_mini_header m.header in
      let e : (type == pr.msg_list) ≡ false = ground arith in
      let z : (get_msg_sub_list pr.layout c.use_mini_header m.header == 0) ≡ true = ground arith in
      let no_list : handle_list pr parser handler type
            (get_msg_sub_list pr.layout c.use_mini_header m.header) m.data' (c, s)
          ≡ done (true, (c, s)) =
        if_false _ _ (ap₂ (λ a b. a || not b) e z) in
      let parsed_one : Run (Channel × S) → Run (Bool × (Channel × S)) =
        λ r. bind r λ st'. done (true, st') in
      let without_flag : Run (Bool × (Channel × S)) → Run (Channel × S) =
        λ r. bind r λ q. done q.1 in
      let finish : Run (Channel × S) → Run (Channel × S) =
        λ r. bind r λ st. done (end_msg pr parser handler m.header st) in
      let acks : Run Channel → Run (Channel × S) =
        λ r. bind r λ c1. handle_main pr parser handler type m (c1, s) in
      let goes_on : Run (Bool × (Channel × S)) → Run (Channel × S) =
        λ r. bind r (ack_and_main pr parser handler type m) in
      let main : handle_main pr parser handler type m (c', s) ≡ done (c'', s') =
        if_false _ _ e
        ∙ (ap
              (λ o.
                without_flag (handle_parsed pr parser handler m o (c', s) λ st'. done (true, st')))
              parsed
            ∙ ap (λ r. without_flag (parsed_one r)) handled) in
      ap (λ r. finish (goes_on r)) no_list ∙ ap finish (ap acks acked ∙ main)
