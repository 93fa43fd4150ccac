-- ===== src/Agent/Chunks.antt =====
-- The packets of a message to the agent, of `agent_msg_queue_many` in src/channel-main.c.
use spice_gtk.Base.{
  ℕ, ◌+◌, ◌-◌, ◌%◌, ◌^◌, ◌≤◌, ◌<◌, ◌≡◌, refl, subst, min, ap, sym, ◌∙◌, none, some, List, [], ◌∷◌,
  ◌++◌, append-nil, arith, length,
}
use spice_gtk.Agent.{Bytes, IsHeader, Layout, IsLayout, written}
use spice_gtk.Agent.Cutting.{
  Packer, pack_buffers, total, header_for, first_out, agent_msg_queue_many,
}
use spice_gtk.Agent.Receiving.{idle}
use spice_gtk.Agent.Packets.{flatten, Nonempty, Short, Short-le, total-flatten, first_packet}
use spice_gtk.Agent.Reassembly.{feed_all, feed_all-idle}
use spice_gtk.Agent.Packing.{push_full-Packs, pack_buffers-Packs, all_pushed}

module _ (l : Layout) (v : IsLayout l) (protocol kind : ℕ) (ds : List Bytes) where
  -- The packets of a message are the header and then the buffers, in order; none is empty or longer
  -- than the limit, the first has the whole header, and no packet is left unfinished.
  pub agent_msg_queue_many-flatten :
      let p = agent_msg_queue_many l protocol kind ds in
      (flatten p.queued ≡ l.write (header_for protocol kind ds) ++ flatten ds)
      × Nonempty p.queued
      × Short l.max_data p.queued
      × (p.out ≡ none)
      × (l.head_size ≤ length (first_packet p.queued none))
  unfolding agent_msg_queue_many
  agent_msg_queue_many-flatten =
      let h = header_for protocol kind ds in
      let len = v.write_length h in
      let pos = v.nonempty in
      let fit = v.fits in
      let p0 : Packer = record {
        out = none;
        paysize = min l.max_data (total ds + l.head_size) - l.head_size;
        size = total ds;
        queued = [];
      } in
      let (g, e) =
        push_full-Packs l (l.write h) p0 (l.write h) refl (omega arith) (omega arith) (omega arith)
          tt tt (omega arith) in
      let (g', e') =
        pack_buffers-Packs l ds (first_out l h (total ds)) (l.write h) (omega arith) e g in
      let done =
        all_pushed l (pack_buffers l ds (first_out l h (total ds))) (l.write h ++ flatten ds) g'
          e' in
      (
        sym (append-nil _)
            ∙ (ap (λ o. flatten (pack_buffers l ds (first_out l h (total ds))).queued ++ written o)
                  (sym done)
                ∙ g'.0),
        g'.1,
        g'.2,
        done,
        subst
            (λ o.
              l.head_size
              ≤ length (first_packet (pack_buffers l ds (first_out l h (total ds))).queued o))
            done g'.4,
      )

-- What the client sends as a message of less than 2 ^ 32 bytes, its header counted, of a protocol and
-- a type within 32 bits, is what the far side of the same transport reads: put through the reading of
-- packets, the packets of a message give that message once, its header and its buffers joined, and
-- leave no part of a message behind.
pub queue_many-feed_all :
    (l : Layout) (protocol kind : ℕ) (ds : List Bytes)
    → IsLayout l
    → protocol < 2 ^ 32
    → kind < 2 ^ 32
    → l.head_size + total ds < 2 ^ 32
    → feed_all l idle (agent_msg_queue_many l protocol kind ds).queued
      ≡ some (idle, (header_for protocol kind ds, flatten ds) ∷ [])
queue_many-feed_all l protocol kind ds v protocol_fits kind_fits size_fits =
    let (same, n, s, done, first) = agent_msg_queue_many-flatten l v protocol kind ds in
    round_trip (agent_msg_queue_many l protocol kind ds).queued same n first
      (Short-le l.max_data (2 ^ 31 - 1) _ (let i = v.int_fits in omega arith) s)
  where
    round_trip :
        (cs : List Bytes)
        → flatten cs ≡ l.write (header_for protocol kind ds) ++ flatten ds
        → Nonempty cs
        → l.head_size ≤ length (first_packet cs none)
        → Short (2 ^ 31 - 1) cs
        → feed_all l idle cs ≡ some (idle, (header_for protocol kind ds, flatten ds) ∷ [])
    round_trip [] same n first ints = let pos = v.nonempty in absurd (omega arith)
    round_trip (c ∷ cs) same n first ints =
        let size : total ds % 2 ^ 32 ≡ total ds = ground arith in
        let valid : IsHeader (header_for protocol kind ds) = record {
          protocol_fits = protocol_fits;
          kind_fits = kind_fits;
          opaque_fits = omega arith;
          size_fits = omega (arith, size);
        } in
        feed_all-idle l (header_for protocol kind ds) c cs (flatten ds) v valid
          (omega (arith, size)) (total-flatten ds ∙ sym size) same first n.1 ints
