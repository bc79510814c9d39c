-- ===== src/Socket/Shutdown.antt =====
-- `close` of src/quiche/socket.rs.
use ext_quiche.Base.{
  ℕ, ◌≡◌, refl, sym, ap, ◌∙◌, false, List, [], ◌∷◌, ◌++◌, append-nil, append_assoc, ◌==◌,
  if◌then◌else◌, Option,
}
use ext_quiche.Stream.{SlotRef, ConnRef, ok, Host, Store}
use ext_quiche.Socket.{ConnState, Server, close_connections, close_server}
use ext_quiche.Socket.Effects.{Call, table, CloseOnlyWrites}
use ext_quiche.Socket.Firing.{Table, fired, Becomes}
use ext_quiche.Socket.Closing.{close_streams_lem}

abbrev pub without : ConnRef → (ConnRef → Table) → ConnRef → Table
without c tables d = if c == d then [] else tables d

-- The tables once those of the connections are emptied, one after the other.
abbrev pub drained : (ConnRef → Table) → List (ℕ × ConnState) → ConnRef → Table
drained tables [] = tables
drained tables ((id, state) ∷ rest) = drained (without state.conn tables) rest

-- The calls that this makes: the streams of each connection, in the order of its table.
abbrev pub closings :
    (h : Host)
    → (SlotRef → Option h.php.Zval)
    → (ConnRef → Table)
    → List (ℕ × ConnState)
    → List (Call h)
closings h slots tables [] = []
closings h slots tables ((id, state) ∷ rest) =
    fired h slots false (tables state.conn) ++ closings h slots (without state.conn tables) rest

module _ {h : Host} (calm : CloseOnlyWrites h) where
  pub close_connections_lem :
      (conns : List (ℕ × ConnState)) (tables : ConnRef → Table) (s : Store h)
      → s.held ≡ []
      → ((c : ConnRef) → table s c ≡ tables c)
      → (t : Store h) × (close_connections conns s ≡ (ok tt, t))
        × Becomes s t (drained tables conns) (closings h s.slots tables conns)
  unfolding close_connections
  close_connections_lem [] tables s free same = (
    s,
    refl,
    record { held = refl; slots = refl; tables = same; calls = sym (append-nil s.calls) },
  )
  close_connections_lem ((id, state) ∷ rest) tables s free same =
      let (t, e, b) = close_streams_lem calm state.conn false s free in
      let (u, g, k) =
        close_connections_lem rest (without state.conn tables) t (b.held ∙ free)
          (λ c. b.tables c ∙ ap (λ x. if state.conn == c then [] else x) (same c)) in
      (
        u,
        rw e g,
        record {
          held = k.held ∙ b.held;
          slots = k.slots ∙ b.slots;
          tables = k.tables;
          calls = k.calls ∙ rw (b.calls, b.slots, same state.conn) (append_assoc s.calls _ _);
        },
      )

  -- Where the callbacks for the end of a stream only write and close, and with no lock held, `close`
  -- ends: it calls the `on_close` of each stream of each connection once with false, where a callable
  -- is set, empties the tables of the connections and no other, keeps slots and locks, and leaves a
  -- server without connections and listeners that is otherwise as before.
  pub close_server_lem :
      (v : Server h) (s : Store h)
      → s.held ≡ []
      → (t : Store h) × (close_server v s
          ≡ (ok (record v { connections = []; listening = false }), t))
        × Becomes s t (drained (table s) v.connections) (closings h s.slots (table s) v.connections)
  unfolding close_server
  close_server_lem v s free =
      let (t, e, b) = close_connections_lem v.connections (table s) s free (λ c. refl) in
      (t, rw e refl, b)
