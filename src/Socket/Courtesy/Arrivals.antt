-- ===== src/Socket/Courtesy/Arrivals.antt =====
-- How new streams of the peer are shown to PHP.
use ext_quiche.Base.{ℕ, ◌≡◌, refl, ap, ◌∙◌, some, List, [], ◌++◌, append-nil, suc}
use ext_quiche.Base.Map.{get}
use ext_quiche.External.Php.{incoming}
use ext_quiche.Connection.{StreamId, DriverEvent, new_bidi, new_uni}
use ext_quiche.Stream.{
  SlotRef, ConnRef, StreamObject, incoming_bidi, incoming_uni, stream_callback, Lock, ok, Host,
  Store, Exec, release, ◌>>=◌, ◌>>◌, with_lock,
}
use ext_quiche.Stream.Methods.{make_slot_pair, register, call_callback}
use ext_quiche.Socket.{
  ConnState, Server, call_stream_callback, on_new_bidi, on_new_uni, dispatch_driver_event,
}
use ext_quiche.Socket.Effects.{Call, called}
use ext_quiche.Socket.Firing.{locked, unlocked, with_lock_free}
use ext_quiche.Socket.Courtesy.{Courteous, Ends}
use ext_quiche.Socket.Courtesy.Locks.{All-map, incoming_MayRun}
use ext_quiche.Socket.Courtesy.Results.{Announced}
use ext_quiche.Socket.Courtesy.Tables.{register-Extends}
use ext_quiche.Socket.Courtesy.Methods.{call_callback-Ends}

-- The objects for new streams, with the pair of their slots.
abbrev pub shown_bidi : ℕ → ConnState → StreamId → SlotRef × SlotRef → StreamObject
shown_bidi conn_id state id pair = incoming_bidi (record {
  conn_id = conn_id;
  stream_id = id;
  peer_addr = state.peer_addr;
  conn = state.open_handle.conn;
  on_data = pair.0;
  on_close = pair.1;
  conn_handle = state.open_handle;
})

abbrev pub shown_uni : ℕ → ConnState → StreamId → SlotRef × SlotRef → StreamObject
shown_uni conn_id state id pair = incoming_uni (record {
  conn_id = conn_id;
  stream_id = id;
  peer_addr = state.peer_addr;
  on_data = pair.0;
  on_close = pair.1;
  conn_handle = state.open_handle;
})

module _ {h : Host} where
  pub with_lock-Ends :
      (l : Lock) (m : Exec h (Unit {0})) (s : Store h) (news : List (Call h))
      → s.held ≡ []
      → Ends m (locked l s) news
      → Ends (with_lock l m) s news
  with_lock-Ends l m s news free (t, e, x) = (
    unlocked t,
    with_lock_free l m s (rw free) ∙ rw e,
    record { held = ap release x.held; calls = x.calls; keeps = x.keeps },
  )

module _ {h : Host} (polite : Courteous h) where
  abbrev announcing :
      Server h
      → ConnRef
      → StreamId
      → (SlotRef × SlotRef → StreamObject)
      → SlotRef × SlotRef
      → Exec h (Unit {0})
  announcing v c id o pair =
      register c id (record { on_data = pair.0; on_close = pair.1 })
      >> call_stream_callback v (o pair)

  call_stream_callback-Ends :
      (v : Server h) (o : StreamObject) (s : Store h)
      → s.held ≡ []
      → Ends (call_stream_callback v o) s (called h v.stream_callback (incoming o))
  unfolding call_stream_callback
  call_stream_callback-Ends v o s free =
      with_lock-Ends stream_callback (call_callback v.stream_callback (incoming o)) s _ free (
        call_callback-Ends v.stream_callback (incoming o) (locked stream_callback s) (λ z w.
          rw free (
            All-map _ _ (h.php.try_call z (incoming o) w).0 (λ m p. incoming_MayRun m.1)
              (polite z (incoming o) w))))

  announced_lem :
      (v : Server h) (c : ConnRef) (id : StreamId) (o : SlotRef × SlotRef → StreamObject)
      (s : Store h)
      → s.held ≡ []
      → (t : Store h) × ((make_slot_pair >>= λ pair. announcing v c id o pair) s ≡ (ok tt, t))
        × Announced c id s t
        × (t.calls
            ≡ s.calls ++ called h v.stream_callback (incoming (o (s.next_slot, suc s.next_slot))))
  unfolding make_slot_pair
  announced_lem v c id o s free =
      let pair : SlotRef × SlotRef = (s.next_slot, suc s.next_slot) in
      let (t, e, x, there) =
        register-Extends c id (record { on_data = pair.0; on_close = pair.1 })
          (make_slot_pair {h = h} s).1 (rw free) in
      let (u, g, y) = call_stream_callback-Ends v (o pair) t (x.held ∙ free) in
      (
        u,
        rw (e, g),
        record {
          held = y.held ∙ x.held ∙ free;
          there = y.keeps c id there;
          keeps = λ j k. y.keeps c j (x.keeps c j k);
        },
        y.calls ∙ rw (x.calls, append-nil s.calls) refl,
      )

  -- What the event of a driver for a new stream does to the server.
  abbrev pub Shows :
      Server h → ℕ → ConnState → StreamId → DriverEvent → StreamObject → Store h → Type 0
  Shows v conn_id state id ev o s =
      (t : Store h) × (dispatch_driver_event v conn_id ev s ≡ (ok tt, t))
      × Announced state.conn id s t
      × (t.calls ≡ s.calls ++ called h v.stream_callback (incoming o))

  -- Where the callbacks are courteous (for new streams any methods, for data all but to set
  -- callbacks, for an end only to write and close), the connection is known and no lock is held: for
  -- either event of a new stream the handler ends, the stream has its slots in the table, streams
  -- keep theirs, and the server's callback, if it is callable, was called once and nothing else, with
  -- an object of the event's kind for this connection and stream, with the two fresh slots.
  pub dispatch-Shows :
      (v : Server h) (conn_id : ℕ) (state : ConnState) (id : StreamId) (s : Store h)
      → get conn_id v.connections ≡ some state
      → s.held ≡ []
      → Shows v conn_id state id
          (new_bidi id)
          (shown_bidi conn_id state id (s.next_slot, suc s.next_slot))
          s
        × Shows v conn_id state id
            (new_uni id)
            (shown_uni conn_id state id (s.next_slot, suc s.next_slot))
            s
  unfolding dispatch_driver_event on_new_bidi on_new_uni
  dispatch-Shows v conn_id state id s known free =
      let (t, e, d, calls) = announced_lem v state.conn id (shown_bidi conn_id state id) s free in
      let (u, g, k, more) = announced_lem v state.conn id (shown_uni conn_id state id) s free in
      ((t, rw known e, d, calls), (u, rw known g, k, more))
