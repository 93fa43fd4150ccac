-- ===== src/Channel/Messages/Acks.antt =====
-- The acknowledgements of src/spice-channel.c: `ack_message` on each side of its tests.
use spice_gtk.Base.{
  ℕ, suc, ◌+◌, ◌%◌, ◌^◌, ◌<◌, ◌≡◌, ap, ◌∙◌, Bool, true, false, ◌&&◌, List, [], ◌++◌, arith, length,
  ◌==◌, lt→ltb, if_true, if_false,
}
use spice_gtk.Channel.{Bytes}
use spice_gtk.Channel.Wire.{Room, flush_wire, Flushed, flushed, has_error, suspended}
use spice_gtk.Channel.Wire.Writes.{Open, flush_wire-Open}
use spice_gtk.Channel.Messages.{
  Protocol, IsProtocol, Channel, Run, done, bind, new_header, linearize, msg_check_read_only,
  msg_out_new, finish_write, write, write_msg, send_internal, ack_message,
}

-- The bytes of a message with this body.
abbrev pub encoded : Protocol → (mini : Bool) → (type serial : ℕ) → Bytes → Bytes
encoded pr mini type serial body =
    linearize pr mini
      (record { ro_check = false; header = new_header pr mini type serial; body = body })

-- One is expected when as many messages as the window have come.
abbrev pub ack_of : Protocol → Channel → Bytes
ack_of pr c = encoded pr c.use_mini_header pr.msgc_ack c.out_serial []

finish_write-flushed :
    (pr : Protocol) (c : Channel) (bytes : Bytes) (f : Flushed)
    → f.0 ≡ bytes
    → f.1 ≡ flushed
    → finish_write pr c f ≡ done (record c { wire = c.wire ++ bytes; rooms = f.2 })
finish_write-flushed pr c bytes (out, flushed, rooms) same e =
    ap (λ b. done (record c { wire = c.wire ++ b; rooms = rooms })) same
finish_write-flushed pr c bytes (out, has_error, rooms) same e = absurd (cc e)
finish_write-flushed pr c bytes (out, suspended, rooms) same e = absurd (cc e)

-- What the stream takes still, behind these bytes.
abbrev pub rooms_after : Channel → Bytes → List Room
rooms_after c bytes = (flush_wire c.tls false bytes c.rooms).2

-- A write goes through where the stream takes it.
pub write-Open :
    (pr : Protocol) (c : Channel) (bytes : Bytes) (n : ℕ)
    → c.error ≡ false
    → Open c.tls (length bytes + n) c.rooms
    → (write pr bytes c ≡ done (record c { wire = c.wire ++ bytes; rooms = rooms_after c bytes }))
      × Open c.tls n (rooms_after c bytes)
unfolding write
write-Open pr c bytes n ok open' =
    let (same, end, left) =
      flush_wire-Open c.tls bytes n (length bytes + n) c.rooms (omega arith) open' in
    let f = flush_wire c.tls false bytes c.rooms in
    (
      ap (λ error. finish_write pr c (flush_wire c.tls error bytes c.rooms)) ok
          ∙ finish_write-flushed pr c bytes f same end,
      left,
    )

-- A common message is written even where the session is read-only.
pub send_internal-common :
    (pr : Protocol) (c : Channel) (type : ℕ) (body : Bytes)
    → type < 100
    → send_internal pr type body c
      ≡ write pr
          (encoded pr c.use_mini_header type c.out_serial body)
          (record c { out_serial = (c.out_serial + 1) % 2 ^ 64 })
unfolding send_internal msg_out_new write_msg msg_check_read_only linearize
send_internal-common pr c type body common =
    if_false _ _ (ap (λ b. b && c.read_only) (if_true _ _ (lt→ltb _ _ common)))

module _ (pr : Protocol) (c : Channel) where
  pub ack_message-none : c.message_ack_count ≡ 0 → ack_message pr c ≡ done c
  unfolding ack_message
  ack_message-none e = if_true _ _ (ap (λ n. n == 0) e)

  pub ack_message-later :
      (n : ℕ)
      → c.message_ack_count ≡ suc (suc n)
      → ack_message pr c ≡ done (record c { message_ack_count = suc n })
  unfolding ack_message
  ack_message-later n e =
      let e0 : (c.message_ack_count == 0) ≡ false = ground arith in
      let e1 : (c.message_ack_count == 1) ≡ false = ground arith in
      if_false _ _ e0
      ∙ (if_false _ _ e1 ∙ ap (λ k. done (record c { message_ack_count = k })) (omega arith))

  -- Where the stream takes it.
  pub ack_message-now :
      (n : ℕ)
      → IsProtocol pr
      → c.message_ack_count ≡ 1
      → c.error ≡ false
      → Open c.tls (length (ack_of pr c) + n) c.rooms
      → (ack_message pr c
          ≡ done (record c {
            message_ack_count = c.message_ack_window;
            out_serial = (c.out_serial + 1) % 2 ^ 64;
            wire = c.wire ++ ack_of pr c;
            rooms = rooms_after c (ack_of pr c);
          }))
        × Open c.tls n (rooms_after c (ack_of pr c))
  unfolding ack_message
  ack_message-now n v e ok open' =
      let e0 : (c.message_ack_count == 0) ≡ false = ground arith in
      let e1 : (c.message_ack_count == 1) ≡ true = ground arith in
      let c0 : Channel = record c { message_ack_count = 0 } in
      let c1 : Channel = record c0 { out_serial = (c.out_serial + 1) % 2 ^ 64 } in
      let (wrote, left) = write-Open pr c1 (ack_of pr c) n ok open' in
      let reset : Channel → Run Channel =
        λ c'. done (record c' { message_ack_count = c'.message_ack_window }) in
      (
        if_false _ _ e0
            ∙ (if_true _ _ e1
                ∙ ap (λ r. bind r reset)
                    (send_internal-common pr c0 pr.msgc_ack [] v.ack_is_common ∙ wrote)),
        left,
      )
