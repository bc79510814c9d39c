-- ===== src/Socket/Once/Handlers.antt =====
-- The handlers of src/quiche/socket.rs leave no slot taken and not closed.
use ext_quiche.Base.{
  ℕ, ◌≤◌, inl, inr, Bool, true, false, Option, none, some, List, [], ◌∷◌, ◌==◌, Bool-cases,
  if◌then◌else◌, arith,
}
use ext_quiche.Base.Map.{get, remove}
use ext_quiche.External.Php.{incoming, chunk}
use ext_quiche.External.Quiche.{Bytes}
use ext_quiche.Connection.{StreamId, DriverEvent, new_bidi, new_uni, received}
use ext_quiche.Stream.{
  SlotRef, ConnRef, StreamSlots, StreamObject, callbacks, stream_callback, Host, Store, Exec, ◌>>=◌,
  ◌>>◌, pure,
}
use ext_quiche.Socket.{
  ConnState, Server, build, call_slot, fire_on_close, call_stream_callback, find_slots, take_slots,
  on_found, on_received, on_new_bidi, on_new_uni, dispatch_to, dispatch_driver_event, close_streams,
  on_conn_closed, on_new_conn, close_connections, close_server,
}
use ext_quiche.Socket.Effects.{table}
use ext_quiche.Socket.Once.{Placed, Places-less, count, closes, closes_of}
use ext_quiche.Socket.Once.Methods.{Placed-IsStable}
use ext_quiche.Socket.Stable.{bind-Safe, with_lock-Safe, prepared-Safe, call_callback-Safe}
use ext_quiche.Socket.Once.Taking.{
  Settled, bind-Leaves, call_slot-Placed, fire_on_close-Placed, close_streams-Settled,
  take_slots-Leaves,
}

module _ {h : Host} (old : List SlotRef) where
  find_slots-Settled : (c : ConnRef) (id : StreamId) → Settled old (find_slots {h = h} c id)
  unfolding find_slots
  find_slots-Settled c id =
      with_lock-Safe (Placed old []) (Placed-IsStable old []) (callbacks c) _ (λ s p. p)

  found-Settled :
      (found : Option StreamSlots) (f : StreamSlots → Exec h (Unit {0}))
      → ((slots : StreamSlots) → Settled old (f slots))
      → Settled old (on_found found f)
  found-Settled none f hf s p = p
  found-Settled (some slots) f hf s p = hf slots s p

  close_found :
      (found : Option StreamSlots) (s : Store h)
      → Placed old (closes_of found) s
      → Placed old [] (on_found found (λ slots. fire_on_close slots.on_close true) s).1
  close_found none s p = p
  close_found (some slots) s p = fire_on_close-Placed old slots.on_close true [] s p

  finish-Settled :
      (c : ConnRef) (id : StreamId) (fin : Bool)
      → let m : Exec h (Unit {0}) =
          if fin
          then (do
            removed ← take_slots c id
            on_found removed (λ slots. fire_on_close slots.on_close true))
          else pure tt in
        Settled old m
  finish-Settled c id true s p =
      bind-Leaves old closes_of (take_slots c id s) _ (take_slots-Leaves old c id s p) close_found
  finish-Settled c id false s p = p

  on_received-Settled :
      (c : ConnRef) (id : StreamId) (bs : Bytes) (fin : Bool)
      → Settled old (on_received {h = h} c id bs fin)
  unfolding on_received
  on_received-Settled c id bs fin =
      bind-Safe (Placed old []) (find_slots c id) _ (find_slots-Settled c id) (λ found.
        bind-Safe (Placed old []) (on_found found (λ slots. call_slot slots.on_data (chunk bs fin)))
          _ (found-Settled found _ (λ slots. call_slot-Placed old [] slots.on_data (chunk bs fin)))
          (λ u. finish-Settled c id fin))

  call_stream_callback-Settled :
      (v : Server h) (o : StreamObject) → Settled old (call_stream_callback v o)
  unfolding call_stream_callback
  call_stream_callback-Settled v o =
      with_lock-Safe (Placed old []) (Placed-IsStable old []) stream_callback _
        (call_callback-Safe (Placed old []) (Placed-IsStable old []) v.stream_callback (incoming o))

  dispatch_to-Settled :
      (v : Server h) (conn_id : ℕ) (ev : DriverEvent) (found : Option ConnState)
      → Settled old (dispatch_to v conn_id ev found)
  unfolding on_new_bidi on_new_uni
  dispatch_to-Settled v conn_id ev none = λ s p. p
  dispatch_to-Settled v conn_id (new_bidi id) (some state) =
      prepared-Safe (Placed old []) (Placed-IsStable old []) state.conn id _
        (λ pair. call_stream_callback-Settled v _)
  dispatch_to-Settled v conn_id (new_uni id) (some state) =
      prepared-Safe (Placed old []) (Placed-IsStable old []) state.conn id _
        (λ pair. call_stream_callback-Settled v _)
  dispatch_to-Settled v conn_id (received id bs fin) (some state) =
      on_received-Settled state.conn id bs fin

  pub dispatch-Settled :
      (v : Server h) (conn_id : ℕ) (ev : DriverEvent)
      → Settled old (dispatch_driver_event v conn_id ev)
  unfolding dispatch_driver_event
  dispatch-Settled v conn_id ev = dispatch_to-Settled v conn_id ev (get conn_id v.connections)

  pub on_conn_closed-Settled :
      (v : Server h) (conn_id : ℕ) (flag : Bool) → Settled old (on_conn_closed v conn_id flag)
  unfolding on_conn_closed
  on_conn_closed-Settled v conn_id flag s p = split (get conn_id v.connections)
    where
      split :
          (found : Option ConnState)
          → let m : Exec h (Server h) = elim found [
            | none ↦ pure v
            | some state ↦ do
              close_streams state.conn flag
              pure (record v { connections = remove conn_id v.connections })
          ] in
            Placed old [] (m s).1
      split none = p
      split (some state) =
          bind-Safe (Placed old []) (close_streams state.conn flag) _
            (close_streams-Settled old state.conn flag) (λ u s p. p) s p

  pub on_new_conn-Settled : (v : Server h) (peer_addr : ℕ) → Settled old (on_new_conn v peer_addr)
  unfolding on_new_conn build
  on_new_conn-Settled v peer_addr s p =
      Places-less p (fresh s) (λ r. omega arith) (λ r. omega arith) (omega arith)
    where
      fresh :
          (s : Store h) (d : ConnRef) (r : SlotRef)
          → count r (closes (table (build v.id_counter peer_addr s).1 d))
            ≤ count r (closes (table s d))
      fresh s d r = elim (Bool-cases (s.next_conn == d)) [
        | inl same ↦ rw (same, table) (omega arith)
        | inr other ↦ rw (other, table) (omega arith)
      ]

  close_connections-Settled :
      (cs : List (ℕ × ConnState)) → Settled old (close_connections {h = h} cs)
  unfolding close_connections
  close_connections-Settled [] = λ s p. p
  close_connections-Settled ((id, state) ∷ rest) =
      bind-Safe (Placed old []) (close_streams state.conn false) _
        (close_streams-Settled old state.conn false) (λ u. close_connections-Settled rest)

  pub close_server-Settled : (v : Server h) → Settled old (close_server v)
  unfolding close_server
  close_server-Settled v =
      bind-Safe (Placed old []) (close_connections v.connections) _
        (close_connections-Settled v.connections) (λ u s p. p)
