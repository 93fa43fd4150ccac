-- ===== src/Tests/PortForwardTests.antt =====
-- src/port-forward.c at one connection.
use spice_gtk.Base.Table.{lookup}
use spice_gtk.Base.{
  ℕ, ◌+◌, ◌-◌, ◌≡◌, ◌↔◌, refl, true, false, none, some, List, [], ◌∷◌, ◌++◌, arith,
}
use spice_gtk.PortForward.{
  close_agent_connection, unref_connection, Connection, World, ok, fault, freed, window_size,
}
use spice_gtk.PortForward.Handlers.{
  connection_read_callback, connection_write_callback, handle_ack, handle_close, handle_data,
}
use spice_gtk.PortForward.Window.{Steady, quiet}
use spice_gtk.PortForward.WriteSteps.{started, acked}
use spice_gtk.PortForward.Writing.{Flowing, handle_data-Flowing, write_callback-freed}
use spice_gtk.PortForward.Closing.{Held, close-ignores}

abbrev connection : ℕ → List (List ℕ) → ℕ → Connection
connection sent queue refs = record {
  is_open = true;
  cancelled = false;
  write_buffer = queue;
  data_sent = sent;
  data_received = 2;
  ack_interval = 4;
  connecting = false;
  refs = refs;
  id = 5;
}

-- Connection 5 at address 1, and an association of port 80.
abbrev world : Connection → World
world c = record {
  remote_assocs = (80, (record { port = 8080; address = 104 ∷ [] })) ∷ [];
  connections = (5, 1) ∷ [];
  heap = (1, c) ∷ [];
  free = 2;
  seq = 0;
  out = [];
}

nearly-Steady : Steady 100 1 (world (connection (window_size - 1) [] 3)) 1
unfolding lookup
nearly-Steady = (
  connection (window_size - 1) [] 3,
  refl,
  refl,
  refl,
  refl,
  refl,
  omega arith,
  refl,
  omega arith,
)

abbrev queued : List (List ℕ)
queued = (20 ∷ 21 ∷ 22 ∷ []) ∷ (30 ∷ []) ∷ []

queued-Flowing :
    Flowing 1
      (world (connection 0 queued 2))
      ((20 ∷ 21 ∷ 22 ∷ []) ∷ [])
      (9 ∷ 9 ∷ 20 ∷ 21 ∷ 22 ∷ 30 ∷ [])
      (9 ∷ 9 ∷ [])
      0
unfolding lookup
queued-Flowing = (
  connection 0 queued 2,
  refl,
  refl,
  refl,
  refl,
  refl,
  omega arith,
  refl,
  refl,
  omega arith,
  omega arith,
)

listed_5 : lookup 5 (world (connection 0 queued 2)).connections ≡ some 1
unfolding lookup
listed_5 = refl

handle_data-Flowing_example :
    let w = world (connection 0 queued 2) in
    (w' : World) × (handle_data 5 (40 ∷ []) (quiet w) ≡ ok w')
    × Flowing 1 w'
        (((20 ∷ 21 ∷ 22 ∷ []) ∷ []) ++ started 1 w'.out)
        ((9 ∷ 9 ∷ 20 ∷ 21 ∷ 22 ∷ 30 ∷ []) ++ (40 ∷ []))
        (9 ∷ 9 ∷ [])
        (0 + acked w'.out)
handle_data-Flowing_example =
    handle_data-Flowing 1 (world (connection 0 queued 2)) 5 (40 ∷ []) ((20 ∷ 21 ∷ 22 ∷ []) ∷ [])
      (9 ∷ 9 ∷ 20 ∷ 21 ∷ 22 ∷ 30 ∷ []) (9 ∷ 9 ∷ []) 0 queued-Flowing listed_5

found_last :
    lookup 1 (world (connection 0 ((30 ∷ []) ∷ []) 1)).heap ≡ some (connection 0 ((30 ∷ []) ∷ []) 1)
unfolding lookup
found_last = refl

write_callback-freed_example :
    (connection_write_callback 1 (some 1) (world (connection 0 ((30 ∷ []) ∷ []) 1)) ≡ fault freed)
    ↔ ((connection 0 ((30 ∷ []) ∷ []) 1).refs ≡ 1)
write_callback-freed_example =
    write_callback-freed 1 (world (connection 0 ((30 ∷ []) ∷ []) 1))
      (connection 0 ((30 ∷ []) ∷ []) 1) (30 ∷ []) found_last refl

queued-Held : Held 1 (world (connection 0 queued 2)) (connection 0 queued 2)
unfolding lookup
queued-Held = (refl, refl, omega arith)

close-ignores_example :
    let w = world (connection 0 queued 2) in
    (w' : World) × (handle_close 5 w ≡ ok w')
    × (w'.out ≡ [])
    × (lookup 1 w'.heap ≡ some (record (connection 0 queued 2) { cancelled = true; refs = 1 }))
    × (handle_data 5 (40 ∷ []) w' ≡ ok w')
    × (handle_ack 5 3 w' ≡ ok w')
    × (handle_close 5 w' ≡ ok (close_agent_connection 5 w'))
    × (connection_read_callback 1 none w' ≡ unref_connection 1 w')
close-ignores_example =
    close-ignores 1 (world (connection 0 queued 2)) (connection 0 queued 2) (40 ∷ []) 3 none
      queued-Held
