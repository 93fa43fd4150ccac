-- ===== src/PortForward/WriteSteps.antt =====
-- The steps of the write callback of src/port-forward.c, and what its logs start and acknowledge.
use spice_gtk.Base.Table.{lookup, remove, lookup-insert_self, lookup-remove}
use spice_gtk.Base.{
  ℕ, ◌+◌, ◌-◌, ◌^◌, ◌≤◌, ◌<◌, ◌≡◌, refl, ap, sym, ◌∙◌, true, false, none, some, List, [], ◌∷◌, ◌++◌,
  leb, ◌==◌, if◌then◌else◌, arith, take, drop, take-append-drop, append_assoc, append-nil,
  Bool-cases, if_true, if_false, inl, inr, ◌≢◌,
}
use spice_gtk.PortForward.{
  Bytes, Connection, Effect, start_write, ack_to_agent, World, ok, fault, Fault, freed, ◌>>>◌, put,
  emit, unref_connection,
}
use spice_gtk.PortForward.Window.{unref_kept, add_32_small, ==_self}
use spice_gtk.PortForward.Handlers.{requeue, write_next, count_written, add_32}

abbrev pub concat : List Bytes → Bytes
concat [] = []
concat (b ∷ bs) = b ++ concat bs

-- The writes to connection `h` that a log starts, and the bytes that it acknowledges.
abbrev pub started : ℕ → List Effect → List Bytes
started h [] = []
started h (start_write a chunk ∷ es) = if a == h then chunk ∷ started h es else started h es
started h (_ ∷ es) = started h es

abbrev pub acked : List Effect → ℕ
acked [] = 0
acked (ack_to_agent id n ∷ es) = n + acked es
acked (_ ∷ es) = acked es

-- The references that a queue needs: the table's, and one of the write under way.
abbrev pub needed : List Bytes → ℕ
needed [] = 1
needed (chunk ∷ q) = 2

pub concat-append : (q : List Bytes) (b : Bytes) → concat (q ++ (b ∷ [])) ≡ concat q ++ b
concat-append [] b = append-nil b
concat-append (x ∷ q) b = ap (λ r. x ++ r) (concat-append q b) ∙ sym (append_assoc x (concat q) b)

concat-requeue : (rest : Bytes) (q : List Bytes) → concat (requeue rest q) ≡ rest ++ concat q
concat-requeue [] q = refl
concat-requeue (b ∷ bs) q = refl

pub concat-split :
    (n : ℕ) (chunk : Bytes) (q : List Bytes) (written : Bytes)
    → written ++ concat (chunk ∷ q) ≡ (written ++ take n chunk) ++ concat (requeue (drop n chunk) q)
concat-split n chunk q written = rw (concat-requeue (drop n chunk) q) (
    rw
      (
        append_assoc written (take n chunk) (drop n chunk ++ concat q),
        ← append_assoc (take n chunk) (drop n chunk) (concat q),
        take-append-drop n chunk,
      )
      refl)

-- A log of the write callback before it counts.
abbrev pub Uncounted : ℕ → List Effect → Type 0
Uncounted h es =
    (acked es ≡ 0)
    × ((id r : ℕ) → started h (es ++ (ack_to_agent id r ∷ [])) ≡ started h es)
    × ((id r : ℕ) → acked (es ++ (ack_to_agent id r ∷ [])) ≡ r)

pub write_next_lem :
    (h : ℕ) (q : List Bytes) (w : World) (c : Connection)
    → lookup h w.heap ≡ some c
    → 2 ≤ c.refs
    → w.out ≡ []
    → (w1 : World) × (r : ℕ) × (write_next h q w ≡ ok w1)
      × (lookup h w1.heap ≡ some (record c { refs = r }))
      × (w1.connections ≡ w.connections)
      × (take 1 q ≡ started h w1.out)
      × (needed q ≤ r)
      × Uncounted h w1.out
write_next_lem h [] w c e two out =
    let c1 = record c { refs = c.refs - 1 } in
    (
      put h c1 w,
      c.refs - 1,
      unref_kept h w c e two,
      lookup-insert_self h c1 w.heap,
      refl,
      rw out refl,
      omega arith,
      rw out (refl, (λ id r. refl), λ id r. omega arith),
    )
write_next_lem h (chunk ∷ q) w c e two out = (
  emit (start_write h chunk) w,
  c.refs,
  refl,
  e,
  refl,
  rw (out, ==_self h) refl,
  two,
  rw out (refl, (λ id r. rw (==_self h) refl), λ id r. omega arith),
)

pub count_written_lem :
    (h n : ℕ) (w : World) (c : Connection)
    → lookup h w.heap ≡ some c
    → c.data_received + n < 2 ^ 32
    → Uncounted h w.out
    → (w1 : World) × (r : ℕ) × (count_written h n w ≡ ok w1)
      × (lookup h w1.heap ≡ some (record c { data_received = r }))
      × (w1.connections ≡ w.connections)
      × (started h w1.out ≡ started h w.out)
      × (acked w1.out + r ≡ c.data_received + n)
      × (r ≤ c.ack_interval)
unfolding count_written
count_written_lem h n w c e small (none_yet, starts, acks) =
    let s = add_32 c.data_received n in
    let a : s ≡ c.data_received + n = add_32_small c.data_received n small in
    elim (Bool-cases (leb c.ack_interval s)) [
      | inl t ↦
          let c1 = record c { data_received = 0 } in
          (
            emit (ack_to_agent c.id s) (put h c1 w),
            0,
            rw e (if_true _ _ t),
            lookup-insert_self h c1 w.heap,
            refl,
            starts c.id s,
            omega (arith, acks c.id s),
            omega arith,
          )
      | inr t ↦
          let c1 = record c { data_received = s } in
          (
            put h c1 w,
            s,
            rw e (if_false _ _ t),
            lookup-insert_self h c1 w.heap,
            refl,
            refl,
            omega arith,
            ground arith,
          )
    ]

pub ok-ne-fault : (w : World) (e : Fault) → ok w ≢ fault e
ok-ne-fault w e p = cc

pub last_freed :
    (h n : ℕ) (w : World) (c : Connection)
    → lookup h w.heap ≡ some c
    → (c.refs == 1) ≡ true
    → (write_next h [] w >>> count_written h n) ≡ fault freed
unfolding count_written unref_connection
last_freed h n w c e t =
    let gone : lookup h (remove h w.heap) ≡ none =
      lookup-remove h h w.heap ∙ if_true _ _ (==_self h) in
    elim (Bool-cases c.is_open) [
      | inl o ↦ rw e (rw (t, o, gone) refl)
      | inr o ↦ rw e (rw (t, o, gone) refl)
    ]

pub last_kept :
    (h n : ℕ) (w : World) (c : Connection)
    → lookup h w.heap ≡ some c
    → (c.refs == 1) ≡ false
    → (w' : World) × ((write_next h [] w >>> count_written h n) ≡ ok w')
unfolding count_written unref_connection
last_kept h n w c e t =
    let c1 = record c { refs = c.refs - 1 } in
    let l = lookup-insert_self h c1 w.heap in
    elim (Bool-cases (leb c.ack_interval (add_32 c.data_received n))) [
      | inl o ↦ (
        emit (ack_to_agent c.id (add_32 c.data_received n))
            (put h (record c1 { data_received = 0 }) (put h c1 w)),
        rw e (rw (t, l, o) refl),
      )
      | inr o ↦ (
        put h (record c1 { data_received = add_32 c.data_received n }) (put h c1 w),
        rw e (rw (t, l, o) refl),
      )
    ]
