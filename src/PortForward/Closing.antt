-- ===== src/PortForward/Closing.antt =====
-- What src/port-forward.c does with a connection that the agent closed while callbacks hold it.
use spice_gtk.Base.Table.{lookup, insert, remove, lookup-insert_self, lookup-remove}
use spice_gtk.Base.{ℕ, ◌-◌, ◌≤◌, ◌≡◌, refl, ◌∙◌, true, Option, none, some, if_true}
use spice_gtk.PortForward.{
  Bytes, Connection, World, ok, put, close_agent_connection, unref_connection,
  close_connection_no_notify,
}
use spice_gtk.PortForward.Window.{unref_kept, ==_self}
use spice_gtk.PortForward.Handlers.{connection_read_callback, handle_close, handle_data, handle_ack}

-- Connection `c`, at address `h`, is listed under its id, and a callback under way holds it besides the table.
abbrev pub Held : ℕ → World → Connection → Type 0
Held h w c = (lookup c.id w.connections ≡ some h) × (lookup h w.heap ≡ some c) × (2 ≤ c.refs)

closed_world : ℕ → World → Connection → World
closed_world h w c =
    let c1 = record c { cancelled = true } in
    put h (record c1 { refs = c.refs - 1 })
      (record w { heap = insert h c1 w.heap; connections = remove c.id w.connections })

close-Held :
    (h : ℕ) (w : World) (c : Connection)
    → Held h w c
    → handle_close c.id w ≡ ok (closed_world h w c)
unfolding handle_close close_connection_no_notify closed_world
close-Held h w c (listed, found, held) =
    let c1 = record c { cancelled = true } in
    rw (listed, found, handle_close)
      (rw listed (
        unref_kept h
          (record w { heap = insert h c1 w.heap; connections = remove c.id w.connections }) c1
          (lookup-insert_self h c1 w.heap) held))

-- When the agent closes a connection that a callback still holds, the connection stays, cancelled,
-- with one reference less, and nothing is sent. From then on data and acknowledgements for its id
-- are ignored, another close is answered by a close, and a read that completes, however it does,
-- only drops its reference.
pub close-ignores :
    (h : ℕ) (w : World) (c : Connection) (bytes : Bytes) (size : ℕ) (res : Option Bytes)
    → Held h w c
    → (w' : World) × (handle_close c.id w ≡ ok w')
      × (w'.out ≡ w.out)
      × (lookup h w'.heap ≡ some (record c { cancelled = true; refs = c.refs - 1 }))
      × (handle_data c.id bytes w' ≡ ok w')
      × (handle_ack c.id size w' ≡ ok w')
      × (handle_close c.id w' ≡ ok (close_agent_connection c.id w'))
      × (connection_read_callback h res w' ≡ unref_connection h w')
unfolding handle_data handle_ack handle_close connection_read_callback closed_world
close-ignores h w c bytes size res k =
    let w' = closed_world h w c in
    let gone : lookup c.id w'.connections ≡ none =
      lookup-remove c.id c.id w.connections ∙ if_true _ _ (==_self c.id) in
    let kept : lookup h w'.heap ≡ some (record c { cancelled = true; refs = c.refs - 1 }) =
      lookup-insert_self h _ _ in
    (
      w',
      close-Held h w c k,
      refl,
      kept,
      rw (gone, handle_data) refl,
      rw (gone, handle_ack) refl,
      rw (gone, handle_close) refl,
      rw (kept, connection_read_callback) refl,
    )
