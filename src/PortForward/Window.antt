-- ===== src/PortForward/Window.antt =====
-- The window of src/port-forward.c: how much the client reads ahead of the agent's acknowledgements.
use spice_gtk.Base.Table.{lookup, lookup-insert_self}
use spice_gtk.Base.{
  ℕ, suc, ◌+◌, ◌-◌, ◌^◌, ◌≤◌, ◌<◌, ◌≡◌, refl, ◌∙◌, true, false, some, List, [], ◌∷◌, ltb, ◌==◌,
  if◌then◌else◌, arith, length, Bool-cases, if_true, if_false, inl, inr,
}
use spice_gtk.PortForward.{
  Bytes, Connection, Effect, start_read, data_to_agent, World, ok, put, emit, window_size,
  unref_connection,
}
use spice_gtk.PortForward.Handlers.{connection_read_callback, program_read, add_32, sub_32}

-- The world as the next call finds it, with an empty log.
abbrev pub quiet : World → World
quiet w = record w { out = [] }

-- The reads of connection `h` that a log starts.
abbrev pub reads : ℕ → List Effect → ℕ
reads h [] = 0
reads h (start_read a ∷ es) = if a == h then suc (reads h es) else reads h es
reads h (_ ∷ es) = reads h es

-- Connection `h` is established, and `n` reads of it are under way: one while the window is open,
-- none while it is closed. `buffer` is BUFFER_SIZE.
abbrev pub Steady : ℕ → ℕ → World → ℕ → Type 0
Steady buffer h w n =
    (c : Connection) × (lookup h w.heap ≡ some c)
    × (lookup c.id w.connections ≡ some h)
    × (c.is_open ≡ true)
    × (c.cancelled ≡ false)
    × (c.connecting ≡ false)
    × (c.data_sent < window_size + buffer)
    × (n ≡ (if ltb c.data_sent window_size then 1 else 0))
    × (1 + n ≤ c.refs)

pub ==_self : (n : ℕ) → (n == n) ≡ true
==_self n = ground arith

pub program_read_open :
    (h : ℕ) (w : World) (c : Connection)
    → lookup h w.heap ≡ some c
    → c.is_open ≡ true
    → program_read h w ≡ ok (emit (start_read h) w)
unfolding program_read
program_read_open h w c e o = rw (e, o) refl

pub unref_kept :
    (h : ℕ) (w : World) (c : Connection)
    → lookup h w.heap ≡ some c
    → 2 ≤ c.refs
    → unref_connection h w ≡ ok (put h (record c { refs = c.refs - 1 }) w)
unfolding unref_connection
unref_kept h w c e two = let n : (c.refs == 1) ≡ false = ground arith in rw (e, n) refl

-- A sum that fits 32 bits, and a difference of numbers that do.
pub add_32_small : (a b : ℕ) → a + b < 2 ^ 32 → add_32 a b ≡ a + b
add_32_small a b h = ground arith

pub sub_32_small : (a b : ℕ) → b ≤ a → a < 2 ^ 32 → sub_32 a b ≡ a - b
sub_32_small a b h k = ground arith

module _ (buffer : ℕ) (small : buffer ≤ 2 ^ 31) (h : ℕ) (w : World) where
  -- When bytes that fit the buffer arrive from the program, the callback does not fail, and reading
  -- goes on just where the window is still open: less than the window and one buffer is ever
  -- unacknowledged, and never two reads share the buffer.
  pub read-Steady :
      (n b : ℕ) (bs : Bytes)
      → Steady buffer h w (suc n)
      → length (b ∷ bs) ≤ buffer
      → (w' : World) × (connection_read_callback h (some (b ∷ bs)) (quiet w) ≡ ok w')
        × Steady buffer h w' (n + reads h w'.out)
  unfolding connection_read_callback program_read unref_connection
  read-Steady n b bs (c, found, listed, opened, live, up, under, count, held) fits =
      let s = add_32 c.data_sent (length (b ∷ bs)) in
      let c1 = record c { data_sent = s } in
      let w1 = put h c1 (emit (data_to_agent c.id (b ∷ bs)) (quiet w)) in
      let l = lookup-insert_self h c1 w.heap in
      let open_before : (c.data_sent < window_size) × (n ≡ 0) = ground arith in
      let a : s ≡ c.data_sent + length (b ∷ bs) =
        add_32_small c.data_sent (length (b ∷ bs)) (omega arith) in
      elim (Bool-cases (ltb s window_size)) [
        | inl e ↦ (
          emit (start_read h) w1,
          rw found (if_false _ _ live ∙ (if_true _ _ e ∙ program_read_open h w1 c1 l opened)),
          (
            c1,
            l,
            listed,
            opened,
            live,
            up,
            omega arith,
            rw (==_self h, e) (omega arith),
            rw (==_self h) (omega arith),
          ),
        )
        | inr e ↦
            let c2 = record c1 { refs = c.refs - 1 } in
            (
              put h c2 w1,
              rw found (if_false _ _ live ∙ (if_false _ _ e ∙ unref_kept h w1 c1 l (omega arith))),
              (
                c2,
                lookup-insert_self h c2 w1.heap,
                listed,
                opened,
                live,
                up,
                omega arith,
                rw e (omega arith),
                omega arith,
              ),
            )
      ]
