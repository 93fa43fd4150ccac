-- ===== src/PortForward/Writing.antt =====
-- What src/port-forward.c writes to a program: the agent's bytes in order, with acknowledgements.
use spice_gtk.Base.Table.{lookup, lookup-insert_self}
use spice_gtk.Base.{
  ℕ, ◌+◌, ◌^◌, ◌≤◌, ◌≡◌, refl, ap, sym, ◌∙◌, true, false, some, List, [], ◌∷◌, ◌++◌, ◌==◌, arith,
  length, take, drop, append_assoc, append-nil, length-append, length-drop, length-zero, subst,
  Bool-cases, if_false, inl, inr, List-cases, ◌↔◌, ==_iff,
}
use spice_gtk.PortForward.{
  Bytes, Connection, start_write, World, ok, fault, freed, ◌>>>◌, put, emit, unref_connection,
}
use spice_gtk.PortForward.Window.{quiet, ==_self}
use spice_gtk.PortForward.Handlers.{
  connection_write_callback, handle_data, push_chunk, write_next, count_written,
}
use spice_gtk.PortForward.WriteSteps.{
  concat, started, acked, needed, concat-append, ok-ne-fault, last_freed, last_kept,
}

-- Connection `h` is established; of the bytes `received` for it, `written` went to the program and
-- the queue has the rest; the head of the queue is being written, and nothing else; all that was
-- written is acknowledged or counted.
abbrev pub Flowing : ℕ → World → List Bytes → Bytes → Bytes → ℕ → Type 0
Flowing h w writing received written acks =
    (c : Connection) × (lookup h w.heap ≡ some c)
    × (lookup c.id w.connections ≡ some h)
    × (c.is_open ≡ true)
    × (c.connecting ≡ false)
    × (take 1 c.write_buffer ≡ writing)
    × (needed c.write_buffer ≤ c.refs)
    × (received ≡ written ++ concat c.write_buffer)
    × (length written ≡ acks + c.data_received)
    × (c.data_received ≤ c.ack_interval)
    × (c.ack_interval ≤ 2 ^ 31)

module _ (h : ℕ) (w : World) where
  -- Bytes of the agent for an established connection are queued behind the others, and written at
  -- once just where nothing is being written.
  pub handle_data-Flowing :
      (id : ℕ) (bytes : Bytes) (writing : List Bytes) (received written : Bytes) (acks : ℕ)
      → Flowing h w writing received written acks
      → lookup id w.connections ≡ some h
      → (w' : World) × (handle_data id bytes (quiet w) ≡ ok w')
        × Flowing h w'
            (writing ++ started h w'.out)
            (received ++ bytes)
            written
            (acks + acked w'.out)
  unfolding handle_data push_chunk
  handle_data-Flowing id bytes writing received written acks
        (c, found, listed, opened, up, head, held, all, count, under, small) named =
      elim (List-cases c.write_buffer) [
        | inl e ↦
            let c1 = record c { write_buffer = bytes ∷ []; refs = c.refs + 1 } in
            let held' = subst (λ b. needed b ≤ c.refs) e held in
            (
              emit (start_write h bytes) (put h c1 (quiet w)),
              rw (named, found, handle_data) (if_false _ _ up ∙ rw (e, opened) refl),
              (
                c1,
                lookup-insert_self h c1 w.heap,
                listed,
                opened,
                up,
                rw (← subst (λ b. take 1 b ≡ writing) e head, ==_self h) refl,
                omega arith,
                rw (subst (λ b. received ≡ written ++ concat b) e all) (
                    append_assoc written [] bytes
                    ∙ ap (λ r. written ++ r) (sym (append-nil bytes))),
                omega arith,
                under,
                small,
              ),
            )
        | inr (x, q, e) ↦
            let c1 = record c { write_buffer = x ∷ (q ++ (bytes ∷ [])) } in
            let l : (length (x ∷ (q ++ (bytes ∷ []))) == 1) ≡ false =
              let k = length-append q (bytes ∷ []) in ground arith in
            (
              put h c1 (quiet w),
              rw (named, found, handle_data) (if_false _ _ up ∙ rw (e, l) refl),
              (
                c1,
                lookup-insert_self h c1 w.heap,
                listed,
                opened,
                up,
                subst (λ b. take 1 b ≡ writing) e head ∙ sym (append-nil writing),
                subst (λ b. needed b ≤ c.refs) e held,
                rw (subst (λ b. received ≡ written ++ concat b) e all, concat-append q bytes)
                    (append_assoc written (x ++ concat q) bytes
                      ∙ ap (λ r. written ++ r) (append_assoc x (concat q) bytes)),
                omega arith,
                under,
                small,
              ),
            )
      ]

  -- If the write that completes the last chunk of the queue succeeds, the callback uses the freed
  -- connection just where its own reference was the last one.
  pub write_callback-freed :
      (c : Connection) (chunk : Bytes)
      → lookup h w.heap ≡ some c
      → c.write_buffer ≡ chunk ∷ []
      → (connection_write_callback h (some (length chunk)) w ≡ fault freed) ↔ (c.refs ≡ 1)
  unfolding connection_write_callback count_written unref_connection
  write_callback-freed c chunk found queue =
      let gone : drop (length chunk) chunk ≡ [] =
        length-zero _ (length-drop (length chunk) chunk ∙ omega arith) in
      let c1 = record c { write_buffer = [] } in
      let l = lookup-insert_self h c1 w.heap in
      elim (Bool-cases (c.refs == 1)) [
        | inl t ↦ (
          (λ e. (==_iff c.refs 1).0 t),
          λ e. rw found (
              rw (queue, gone, connection_write_callback)
                (last_freed h (length chunk) (put h c1 w) c1 l t)),
        )
        | inr t ↦
            let (w', k) = last_kept h (length chunk) (put h c1 w) c1 l t in
            ((λ f. absurd (ok-ne-fault w' freed (sym (kept w' k) ∙ f))), λ e. ground arith)
      ]
    where
      kept :
          (w' : World)
          → (write_next h [] (put h (record c { write_buffer = [] }) w)
              >>> count_written h (length chunk))
            ≡ ok w'
          → connection_write_callback h (some (length chunk)) w ≡ ok w'
      kept w' k =
          let gone : drop (length chunk) chunk ≡ [] =
            length-zero _ (length-drop (length chunk) chunk ∙ omega arith) in
          rw found (rw (queue, gone, connection_write_callback) k)
