-- ===== src/Agent/Packing.antt =====
-- What the loops of `agent_msg_queue_many` in src/channel-main.c keep.
use spice_gtk.Base.{
  ℕ, zero, suc, ◌+◌, ◌-◌, ◌≤◌, ◌<◌, ◌≡◌, refl, subst, min, ap, sym, ◌∙◌, Option, none, some, List,
  [], ◌∷◌, ◌++◌, append-nil, append_assoc, ◌==◌, arith, length, take, drop, length-append,
  length-take, length-drop, take-append-drop, length-zero, Bool-cases, Option-cases, inl, inr,
  ==_iff,
}
use spice_gtk.Agent.{Bytes, Layout, written}
use spice_gtk.Agent.Cutting.{
  Packer, push_full, next_out, pack_some, pack_buffer, pack_buffers, total,
}
use spice_gtk.Agent.Packets.{
  flatten, Nonempty, Short, flatten-append, Nonempty-append, Short-append, total-flatten,
  first_packet, first_packet-append, first_packet-grows, first_packet-none,
}

module _ (l : Layout) where
  -- The room of a message under construction: some, within the limit, and no more than is to come.
  abbrev pub Room : Option Bytes → ℕ → ℕ → Type 0
  Room none paysize size = Unit {0}
  Room (some b) paysize size = (0 < paysize) × (length b + paysize ≤ l.max_data) × (paysize ≤ size)

  -- `done` is packed so far, in packets that are neither empty nor too long; the first has the header.
  abbrev pub Packs : Packer → Bytes → Type 0
  Packs p done =
      (flatten p.queued ++ written p.out ≡ done)
      × Nonempty p.queued
      × Short l.max_data p.queued
      × Room p.out p.paysize p.size
      × (l.head_size ≤ length (first_packet p.queued p.out))

  pub push_full-Packs :
      (bytes : Bytes) (p : Packer) (done : Bytes)
      → flatten p.queued ++ bytes ≡ done
      → 0 < length bytes
      → length bytes + p.paysize ≤ l.max_data
      → p.paysize ≤ p.size
      → Nonempty p.queued
      → Short l.max_data p.queued
      → l.head_size ≤ length (first_packet p.queued (some bytes))
      → Packs (push_full bytes p) done × ((push_full bytes p).size ≡ p.size)
  push_full-Packs bytes p done same pos fits room n s first = elim (Bool-cases (p.paysize == 0)) [
    | inl t ↦ rw t (
      (
        append-nil _ ∙ (flatten-append p.queued bytes ∙ same),
        Nonempty-append p.queued bytes n pos,
        Short-append l.max_data p.queued bytes s (omega arith),
        tt,
        subst (λ c. l.head_size ≤ length c) (sym (first_packet-append p.queued bytes none)) first,
      ),
      refl,
    )
    | inr t ↦ rw t ((same, n, s, (ground arith, fits, room), first), refl)
  ]

  -- One round takes at least one byte.
  pack_from :
      (b : Bytes) (paysize size : ℕ) (queued : List Bytes) (d done : Bytes)
      → 0 < length d
      → length d ≤ size
      → Packs (record { out = some b; paysize = paysize; size = size; queued = queued }) done
      → let n = min paysize (length d) in
        let r =
          push_full
            (b ++ take n d)
            (record { out = some b; paysize = paysize - n; size = size - n; queued = queued }) in
        Packs r (done ++ take n d) × (r.size ≡ size - n) × (0 < n)
  pack_from b paysize size queued d done pos fits (same, n, s, (room, limit, within), first) =
      let k = min paysize (length d) in
      let lt = length-take k d in
      let la = length-append b (take k d) in
      let (g, e) =
        push_full-Packs (b ++ take k d)
          (record { out = some b; paysize = paysize - k; size = size - k; queued = queued })
          (done ++ take k d)
          (sym (append_assoc (flatten queued) b (take k d)) ∙ ap (λ t. t ++ take k d) same)
          (omega arith) (omega arith) (omega arith) n s
          (first_packet-grows queued b (take k d) l.head_size first) in
      (g, e, omega arith)

  abbrev taken : Bytes → Packer → ℕ
  taken d p = min (next_out l p).paysize (length d)

  pack_some-Packs :
      (out : Option Bytes) (paysize size : ℕ) (queued : List Bytes) (d done : Bytes)
      → 0 < l.max_data
      → 0 < length d
      → length d ≤ size
      → let p : Packer = record { out = out; paysize = paysize; size = size; queued = queued } in
        Packs p done
        → Packs (pack_some l d p) (done ++ take (taken d p) d)
          × ((pack_some l d p).size ≡ size - taken d p)
          × (0 < taken d p)
  pack_some-Packs none paysize size queued d done some_max pos fits (same, n, s, room, first) =
      pack_from [] (min l.max_data size) size queued d done pos fits (
        same,
        n,
        s,
        (omega arith, omega arith, omega arith),
        subst (λ c. l.head_size ≤ length c) (sym (first_packet-none queued)) first,
      )
  pack_some-Packs (some b) paysize size queued d done some_max pos fits g =
      pack_from b paysize size queued d done pos fits g

  pack_buffer-Packs :
      (fuel : ℕ) (d : Bytes) (p : Packer) (done : Bytes)
      → 0 < l.max_data
      → length d ≤ fuel
      → length d ≤ p.size
      → Packs p done
      → let r = pack_buffer l fuel d p in Packs r (done ++ d) × (r.size ≡ p.size - length d)
  unfolding pack_buffer
  pack_buffer-Packs zero [] p done m f fits g =
      (subst (Packs p) (sym (append-nil done)) g, omega arith)
  pack_buffer-Packs zero (x ∷ d) p done m f fits g = absurd (omega arith)
  pack_buffer-Packs (suc fuel) d p done m f fits g = elim (Bool-cases (length d == 0)) [
    | inl t ↦
        let nothing : d ≡ [] = length-zero d ((==_iff (length d) 0).0 t) in
        rw t (
          subst (λ b. Packs p (done ++ b)) (sym nothing)
              (subst (Packs p) (sym (append-nil done)) g),
          ground arith,
        )
    | inr t ↦
        let k = taken d p in
        let pos : 0 < length d = ground arith in
        let (g', e, one) = pack_some-Packs p.out p.paysize p.size p.queued d done m pos fits g in
        let left = length-drop k d in
        let (g'', e') =
          pack_buffer-Packs fuel (drop k d) (pack_some l d p) (done ++ take k d) m
            (omega (arith, left)) (omega (arith, left, e)) g' in
        let all : (done ++ take k d) ++ drop k d ≡ done ++ d =
          append_assoc done (take k d) (drop k d) ∙ ap (λ x. done ++ x) (take-append-drop k d) in
        rw t (
          subst (Packs (pack_buffer l fuel (drop k d) (pack_some l d p))) all g'',
          omega (arith, left, e, e'),
        )
  ]

  pub pack_buffers-Packs :
      (ds : List Bytes) (p : Packer) (done : Bytes)
      → 0 < l.max_data
      → p.size ≡ total ds
      → Packs p done
      → let r = pack_buffers l ds p in Packs r (done ++ flatten ds) × (r.size ≡ 0)
  unfolding pack_buffers
  pack_buffers-Packs [] p done m e g = (subst (Packs p) (sym (append-nil done)) g, e)
  pack_buffers-Packs (d ∷ ds) p done m e g = elim (Bool-cases (p.size == 0)) [
    | inl t ↦
        let nothing : length (flatten (d ∷ ds)) ≡ 0 = ground (arith, total-flatten (d ∷ ds)) in
        rw t (
          subst (λ b. Packs p (done ++ b)) (sym (length-zero (flatten (d ∷ ds)) nothing))
              (subst (Packs p) (sym (append-nil done)) g),
          ground arith,
        )
    | inr t ↦
        let (g', e') = pack_buffer-Packs (length d) d p done m (omega arith) (omega arith) g in
        let (g'', e'') =
          pack_buffers-Packs ds (pack_buffer l (length d) d p) (done ++ d) m (omega (arith, e'))
            g' in
        rw t (
          subst (Packs (pack_buffers l ds (pack_buffer l (length d) d p)))
              (append_assoc done d (flatten ds)) g'',
          e'',
        )
  ]

  -- Nothing is left under construction.
  pub all_pushed : (p : Packer) (done : Bytes) → Packs p done → p.size ≡ 0 → p.out ≡ none
  all_pushed p done (same, n, s, room, first) e = elim (Option-cases p.out) [
    | inl none_left ↦ none_left
    | inr (b, some_left) ↦
        let r : Room (some b) p.paysize p.size =
          subst (λ o. Room o p.paysize p.size) some_left room in
        absurd (omega (arith, r.0, r.2))
  ]
