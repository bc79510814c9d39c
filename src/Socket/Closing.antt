-- ===== src/Socket/Closing.antt =====
-- What the end of a connection does to its streams.
use ext_quiche.Base.{
  ℕ, ◌≡◌, refl, ap, ◌∙◌, inl, inr, Bool-cases, Bool, Option, none, some, [], ◌==◌, if◌then◌else◌,
}
use ext_quiche.Base.Map.{get, remove}
use ext_quiche.Stream.{ConnRef, callbacks, ok, Host, Store, release}
use ext_quiche.Stream.Methods.{set_callbacks}
use ext_quiche.Socket.{ConnState, Server, close_streams, on_conn_closed}
use ext_quiche.Socket.Effects.{table, CloseOnlyWrites}
use ext_quiche.Socket.Firing.{
  Table, fired, locked, unlocked, with_lock_free, Becomes, fire_all-Does,
}

module _ {h : Host} where
  pub table-set_callbacks :
      (c d : ConnRef) (m : Table) (s : Store h)
      → table (set_callbacks c m s) d ≡ (if c == d then m else table s d)
  table-set_callbacks c d m s = elim (Bool-cases (c == d)) [
    | inl same ↦ rw (same, table)
    | inr other ↦ rw (other, table)
  ]

module _ {h : Host} where
  -- The tables once the one of a connection is emptied.
  abbrev pub emptied : ConnRef → Store h → ConnRef → Table
  emptied c s d = if c == d then [] else table s d

  -- What a close message does: the server forgets the connection, and its streams are closed.
  abbrev pub Forgets : Server h → ℕ → Bool → Store h → Option ConnState → Type 0
  Forgets v conn_id flag s none = on_conn_closed v conn_id flag s ≡ (ok v, s)
  Forgets v conn_id flag s (some state) =
      (t : Store h) × (on_conn_closed v conn_id flag s
        ≡ (ok (record v { connections = remove conn_id v.connections }), t))
      × Becomes s t (emptied state.conn s) (fired h s.slots flag (table s state.conn))

module _ {h : Host} (calm : CloseOnlyWrites h) where
  pub close_streams_lem :
      (c : ConnRef) (flag : Bool) (s : Store h)
      → s.held ≡ []
      → (t : Store h) × (close_streams c flag s ≡ (ok tt, t))
        × Becomes s t (emptied c s) (fired h s.slots flag (table s c))
  unfolding close_streams
  close_streams_lem c flag s free =
      let s' : Store h = set_callbacks c [] (locked (callbacks c) s) in
      let (t, e, f) = fire_all-Does calm flag (table s c) s' (λ r. rw free) in
      (
        unlocked t,
        with_lock_free (callbacks c) _ s (rw free) ∙ rw e,
        record {
          held = ap release f.held;
          slots = f.slots;
          tables = λ d. f.tables d ∙ table-set_callbacks c d [] (locked (callbacks c) s);
          calls = f.calls;
        },
      )

  -- Where the callbacks for the end of a stream only write and close, and with no lock held, the
  -- handler ends: each stream of the connection has its `on_close` called once, in the order of the
  -- table, with the flag of the message, where a callback is set that can be called; the table is
  -- empty after it, the other tables, the slots and the locks are as before, and the connection is
  -- forgotten. A message for no connection changes nothing.
  pub on_conn_closed-Forgets :
      (v : Server h) (conn_id : ℕ) (flag : Bool) (s : Store h)
      → s.held ≡ []
      → Forgets v conn_id flag s (get conn_id v.connections)
  unfolding on_conn_closed
  on_conn_closed-Forgets v conn_id flag s free = split (get conn_id v.connections) refl
    where
      split :
          (found : Option ConnState)
          → get conn_id v.connections ≡ found
          → Forgets v conn_id flag s found
      split none e = rw (e, on_conn_closed)
      split (some state) e =
          let (t, r, b) = close_streams_lem state.conn flag s free in
          (t, rw (e, on_conn_closed, r), b)
