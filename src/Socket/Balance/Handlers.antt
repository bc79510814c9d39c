-- ===== src/Socket/Balance/Handlers.antt =====
-- The handlers of src/quiche/socket.rs drop the locks that they take, with whatever PHP code they call.
use ext_quiche.External.Php.{Arguments, peer_closed}
use ext_quiche.Base.{refl, ℕ, Bool, true, false, Option, none, some, List, [], ◌∷◌, if◌then◌else◌}
use ext_quiche.Base.Map.{get, remove}
use ext_quiche.External.Php.{incoming, chunk}
use ext_quiche.External.Quiche.{Bytes}
use ext_quiche.Connection.{StreamId, DriverEvent, new_bidi, new_uni, received}
use ext_quiche.Stream.{
  SlotRef, ConnRef, StreamSlots, StreamObject, callbacks, stream_callback, slot, Host, Exec, ◌>>=◌,
  ◌>>◌, pure,
}
use ext_quiche.Socket.{
  ConnState, Server, build, call_slot, fire_on_close, call_stream_callback, find_slots, take_slots,
  on_found, on_received, on_new_bidi, on_new_uni, dispatch_to, dispatch_driver_event, close_streams,
  on_conn_closed, on_new_conn, close_connections, close_server,
}
use ext_quiche.Stream.Methods.{set_callbacks}
use ext_quiche.Socket.{call_slot, noted, fire_all}
use ext_quiche.Socket.Effects.{table}
use ext_quiche.Socket.Balance.{
  IsBalanced, bind-IsBalanced, with_lock-IsBalanced, prepared-IsBalanced, call_callback-IsBalanced,
}

module _ {h : Host} where
  call_slot-IsBalanced :
      (r : SlotRef) (args : Arguments StreamObject) → IsBalanced {h = h} (call_slot r args)
  unfolding call_slot
  call_slot-IsBalanced r args =
      with_lock-IsBalanced (slot r) _ (λ s. call_callback-IsBalanced (s.slots r) args s)

  fire_on_close-IsBalanced : (r : SlotRef) (flag : Bool) → IsBalanced {h = h} (fire_on_close r flag)
  unfolding fire_on_close
  fire_on_close-IsBalanced r flag s = call_slot-IsBalanced r (peer_closed flag) (noted r s)

  find_slots-IsBalanced : (c : ConnRef) (id : StreamId) → IsBalanced {h = h} (find_slots c id)
  unfolding find_slots
  find_slots-IsBalanced c id = with_lock-IsBalanced (callbacks c) _ (λ s. refl)

  take_slots-IsBalanced : (c : ConnRef) (id : StreamId) → IsBalanced {h = h} (take_slots c id)
  unfolding take_slots
  take_slots-IsBalanced c id = with_lock-IsBalanced (callbacks c) _ (λ s. refl)

  on_found-IsBalanced :
      (found : Option StreamSlots) (f : StreamSlots → Exec h (Unit {0}))
      → ((slots : StreamSlots) → IsBalanced (f slots))
      → IsBalanced (on_found found f)
  on_found-IsBalanced none f hf = λ s. refl
  on_found-IsBalanced (some slots) f hf = hf slots

  finish-IsBalanced :
      (c : ConnRef) (id : StreamId) (fin : Bool)
      → let m : Exec h (Unit {0}) =
          if fin
          then (do
            removed ← take_slots c id
            on_found removed (λ slots. fire_on_close slots.on_close true))
          else pure tt in
        IsBalanced m
  finish-IsBalanced c id true =
      bind-IsBalanced (take_slots c id) _ (take_slots-IsBalanced c id) (λ removed.
        on_found-IsBalanced removed _ (λ slots. fire_on_close-IsBalanced slots.on_close true))
  finish-IsBalanced c id false = λ s. refl

  on_received-IsBalanced :
      (c : ConnRef) (id : StreamId) (bs : Bytes) (fin : Bool)
      → IsBalanced {h = h} (on_received c id bs fin)
  unfolding on_received
  on_received-IsBalanced c id bs fin =
      bind-IsBalanced (find_slots c id) _ (find_slots-IsBalanced c id) (λ found.
        bind-IsBalanced (on_found found (λ slots. call_slot slots.on_data (chunk bs fin))) _
          (on_found-IsBalanced found _ (λ slots. call_slot-IsBalanced slots.on_data (chunk bs fin)))
          (λ u. finish-IsBalanced c id fin))

  call_stream_callback-IsBalanced :
      (v : Server h) (o : StreamObject) → IsBalanced (call_stream_callback v o)
  unfolding call_stream_callback
  call_stream_callback-IsBalanced v o =
      with_lock-IsBalanced stream_callback _
        (call_callback-IsBalanced v.stream_callback (incoming o))

  dispatch_to-IsBalanced :
      (v : Server h) (conn_id : ℕ) (ev : DriverEvent) (found : Option ConnState)
      → IsBalanced (dispatch_to v conn_id ev found)
  unfolding on_new_bidi on_new_uni
  dispatch_to-IsBalanced v conn_id ev none = λ s. refl
  dispatch_to-IsBalanced v conn_id (new_bidi id) (some state) =
      prepared-IsBalanced state.conn id _ (λ pair. call_stream_callback-IsBalanced v _)
  dispatch_to-IsBalanced v conn_id (new_uni id) (some state) =
      prepared-IsBalanced state.conn id _ (λ pair. call_stream_callback-IsBalanced v _)
  dispatch_to-IsBalanced v conn_id (received id bs fin) (some state) =
      on_received-IsBalanced state.conn id bs fin

  pub dispatch-IsBalanced :
      (v : Server h) (conn_id : ℕ) (ev : DriverEvent)
      → IsBalanced (dispatch_driver_event v conn_id ev)
  unfolding dispatch_driver_event
  dispatch-IsBalanced v conn_id ev = dispatch_to-IsBalanced v conn_id ev (get conn_id v.connections)

  fire_all-IsBalanced :
      (flag : Bool) (m : List (StreamId × StreamSlots)) → IsBalanced {h = h} (fire_all flag m)
  unfolding fire_all
  fire_all-IsBalanced flag [] = λ s. refl
  fire_all-IsBalanced flag ((id, slots) ∷ m) =
      bind-IsBalanced (fire_on_close slots.on_close flag) _
        (fire_on_close-IsBalanced slots.on_close flag) (λ u. fire_all-IsBalanced flag m)

  close_streams-IsBalanced : (c : ConnRef) (flag : Bool) → IsBalanced {h = h} (close_streams c flag)
  unfolding close_streams
  close_streams-IsBalanced c flag =
      with_lock-IsBalanced (callbacks c) _
        (λ s. fire_all-IsBalanced flag (table s c) (set_callbacks c [] s))

  pub on_conn_closed-IsBalanced :
      (v : Server h) (conn_id : ℕ) (flag : Bool) → IsBalanced (on_conn_closed v conn_id flag)
  unfolding on_conn_closed
  on_conn_closed-IsBalanced v conn_id flag = split (get conn_id v.connections)
    where
      split :
          (found : Option ConnState)
          → let m : Exec h (Server h) = elim found [
            | none ↦ pure v
            | some state ↦ do
              close_streams state.conn flag
              pure (record v { connections = remove conn_id v.connections })
          ] in
            IsBalanced m
      split none = λ s. refl
      split (some state) =
          bind-IsBalanced (close_streams state.conn flag) _
            (close_streams-IsBalanced state.conn flag) (λ u s. refl)

  pub on_new_conn-IsBalanced : (v : Server h) (peer_addr : ℕ) → IsBalanced (on_new_conn v peer_addr)
  unfolding on_new_conn build
  on_new_conn-IsBalanced v peer_addr s = refl

  close_connections-IsBalanced :
      (cs : List (ℕ × ConnState)) → IsBalanced {h = h} (close_connections cs)
  unfolding close_connections
  close_connections-IsBalanced [] = λ s. refl
  close_connections-IsBalanced ((id, state) ∷ rest) =
      bind-IsBalanced (close_streams state.conn false) _ (close_streams-IsBalanced state.conn false)
        (λ u. close_connections-IsBalanced rest)

  pub close_server-IsBalanced : (v : Server h) → IsBalanced (close_server v)
  unfolding close_server
  close_server-IsBalanced v =
      bind-IsBalanced (close_connections v.connections) _
        (close_connections-IsBalanced v.connections) (λ u s. refl)
