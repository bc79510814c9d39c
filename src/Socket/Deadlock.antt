-- ===== src/Socket/Deadlock.antt =====
-- Callbacks that take a lock which the handler above them holds.
use ext_quiche.Base.{
  ℕ, suc, ◌≡◌, inl, inr, Bool, true, none, some, List, [], ◌∷◌, Bool-cases, ==_refl,
}
use ext_quiche.Base.Map.{get}
use ext_quiche.External.Quiche.{Bytes}
use ext_quiche.External.Php.{Method, set_on_data, open_bidi_stream, Arguments, chunk, peer_closed}
use ext_quiche.Connection.{StreamId, received}
use ext_quiche.Stream.{
  SlotRef, ConnRef, StreamSlots, StreamObject, ConnOpenHandle, IncomingBidiStream, incoming_bidi,
  Lock, slot, callbacks, Outcome, deadlock, Host, Store, Exec, holds, with_lock, ◌>>=◌, gets, pure,
}
use ext_quiche.Stream.Methods.{
  install_slot, register, make_slot_pair, prepare_bidi_stream, open_bidi, opens, call_method,
  run_methods, call_callback, calling,
}
use ext_quiche.Socket.{
  ConnState, Server, call_slot, on_received, dispatch_driver_event, fire_on_close, fire_all,
  close_streams, on_conn_closed,
}
use ext_quiche.Socket.Effects.{table}
use ext_quiche.Socket.Firing.{locked}
use ext_quiche.Socket.Dispatch.{find_slots_free}

module _ {h : Host} where
  open h use {php}

  -- The thread waits for itself.
  abbrev pub Hangs {ℓ} : {A : Type ℓ} → Outcome A × Store h → Type ℓ
  Hangs w = w.0 ≡ deadlock

  bind_Hangs {ℓ κ} :
      {A : Type ℓ} {B : Type κ} (m : Exec h A) (f : A → Exec h B) (s : Store h)
      → Hangs (m s)
      → Hangs ((m >>= f) s)
  bind_Hangs m f s e = rw e

  with_lock_taken {ℓ} :
      {A : Type ℓ} (l : Lock) (m : Exec h A) (s : Store h)
      → holds l s.held ≡ true
      → Hangs (with_lock l m s)
  unfolding with_lock
  with_lock_taken l m s taken = rw (taken, with_lock)

  -- What hangs under a lock hangs, and so does the wait for that lock.
  with_lock-Hangs {ℓ} :
      {A : Type ℓ} (l : Lock) (m : Exec h A) (s : Store h)
      → Hangs (m (locked l s))
      → Hangs (with_lock l m s)
  unfolding with_lock
  with_lock-Hangs l m s e = elim (Bool-cases (holds l s.held)) [
    | inl taken ↦ rw (taken, with_lock)
    | inr free ↦ rw (free, with_lock) e
  ]

  run_methods-Hangs :
      (o : StreamObject) (m : Method php.Zval) (rest : List (StreamObject × Method php.Zval))
      (s : Store h)
      → Hangs (call_method o m s)
      → Hangs (run_methods ((o, m) ∷ rest) s)
  unfolding run_methods
  run_methods-Hangs o m rest s e = rw (e, run_methods)

  install_slot-Hangs :
      (r : SlotRef) (z : php.Zval) (s : Store h)
      → php.is_callable z ≡ true
      → holds (slot r) s.held ≡ true
      → Hangs (install_slot r z s)
  unfolding install_slot
  install_slot-Hangs r z s good taken = rw good (with_lock_taken (slot r) _ s taken)

  set_on_data_Hangs :
      (b : IncomingBidiStream) (z : php.Zval) (s : Store h)
      → php.is_callable z ≡ true
      → holds (slot b.on_data) s.held ≡ true
      → Hangs (call_method (incoming_bidi b) (set_on_data z) s)
  unfolding call_method
  set_on_data_Hangs b z s good taken =
      bind_Hangs (install_slot b.on_data z) (λ _. pure none) s
        (install_slot-Hangs b.on_data z s good taken)

  call_callback-Hangs :
      (z : php.Zval) (args : Arguments StreamObject) (s : Store h) (o : StreamObject)
      (m : Method php.Zval) (rest : List (StreamObject × Method php.Zval))
      → php.is_callable z ≡ true
      → (php.try_call z args s.world).0 ≡ (o, m) ∷ rest
      → Hangs (call_method o m (calling z args s))
      → Hangs (call_callback (some z) args s)
  unfolding call_callback
  call_callback-Hangs z args s o m rest good does hang =
      rw (good, does) (run_methods-Hangs o m rest (calling z args s) hang)

  -- A callback whose first method call hangs under the lock of its own slot.
  call_slot-Hangs :
      (r : SlotRef) (args : Arguments StreamObject) (s : Store h) (z : php.Zval) (o : StreamObject)
      (m : Method php.Zval) (rest : List (StreamObject × Method php.Zval))
      → s.slots r ≡ some z
      → php.is_callable z ≡ true
      → (php.try_call z args s.world).0 ≡ (o, m) ∷ rest
      → Hangs (call_method o m (calling z args (locked (slot r) s)))
      → Hangs (call_slot r args s)
  unfolding call_slot
  call_slot-Hangs r args s z o m rest there good does hang =
      with_lock-Hangs (slot r) (gets (λ s. s.slots r) >>= λ z. call_callback z args) s
        (rw there (call_callback-Hangs z args (locked (slot r) s) o m rest good does hang))

  -- With no lock held, a data event for a known stream of a known connection hangs where the
  -- stream's `on_data` is callable and first calls `setOnData` with a callable on an incoming
  -- bidirectional object of the same slot.
  pub set_on_data_in_on_data :
      (v : Server h) (conn_id : ℕ) (id : StreamId) (bs : Bytes) (fin : Bool) (s : Store h)
      (state : ConnState) (e : StreamSlots) (z z' : php.Zval) (b : IncomingBidiStream)
      (rest : List (StreamObject × Method php.Zval))
      → s.held ≡ []
      → get conn_id v.connections ≡ some state
      → get id (table s state.conn) ≡ some e
      → s.slots e.on_data ≡ some z
      → php.is_callable z ≡ true
      → (php.try_call z (chunk bs fin) s.world).0 ≡ (incoming_bidi b, set_on_data z') ∷ rest
      → b.on_data ≡ e.on_data
      → php.is_callable z' ≡ true
      → Hangs (dispatch_driver_event v conn_id (received id bs fin) s)
  unfolding dispatch_driver_event on_received
  set_on_data_in_on_data v conn_id id bs fin s state e z z' b rest free known open_now there good
        does same good' =
      rw (known, find_slots_free state.conn id s free, open_now)
        (bind_Hangs (call_slot e.on_data (chunk bs fin)) _ s (
          call_slot-Hangs e.on_data (chunk bs fin) s z (incoming_bidi b) (set_on_data z') rest there
            good does (set_on_data_Hangs b z' _ good' (rw (same, ==_refl e.on_data)))))

  register-Hangs :
      (c : ConnRef) (id : StreamId) (e : StreamSlots) (s : Store h)
      → holds (callbacks c) s.held ≡ true
      → Hangs (register c id e s)
  unfolding register
  register-Hangs c id e s taken = with_lock_taken (callbacks c) _ s taken

  prepare_Hangs :
      (handle : ConnOpenHandle) (id : StreamId) (s : Store h)
      → holds (callbacks handle.conn) s.held ≡ true
      → Hangs (prepare_bidi_stream handle id s)
  unfolding prepare_bidi_stream make_slot_pair
  prepare_Hangs handle id s taken =
      bind_Hangs (register handle.conn id _) (λ _. pure (s.next_slot, suc s.next_slot)) _
        (register-Hangs handle.conn id _ _ taken)

  open_Hangs :
      (handle : ConnOpenHandle) (id : StreamId) (s : Store h)
      → holds (callbacks handle.conn) s.held ≡ true
      → Hangs (open_bidi handle id s)
  unfolding open_bidi
  open_Hangs handle id s taken =
      bind_Hangs (prepare_bidi_stream handle id) _ s (prepare_Hangs handle id s taken)

  open_bidi_Hangs :
      (b : IncomingBidiStream) (id : StreamId) (s : Store h)
      → holds (callbacks b.conn_handle.conn) s.held ≡ true
      → Hangs (call_method (incoming_bidi b) (open_bidi_stream id) s)
  unfolding call_method opens
  open_bidi_Hangs b id s taken =
      bind_Hangs (open_bidi b.conn_handle id) _ s (open_Hangs b.conn_handle id s taken)

  -- A close message for a known connection hangs where the first stream of its table has a
  -- callable `on_close` that first opens a bidirectional stream through an incoming bidirectional
  -- object of that connection.
  pub open_stream_in_on_close :
      (v : Server h) (conn_id : ℕ) (flag : Bool) (s : Store h) (state : ConnState) (id : StreamId)
      (e : StreamSlots) (entries : List (StreamId × StreamSlots)) (z : php.Zval)
      (b : IncomingBidiStream) (n : StreamId) (rest : List (StreamObject × Method php.Zval))
      → get conn_id v.connections ≡ some state
      → table s state.conn ≡ (id, e) ∷ entries
      → s.slots e.on_close ≡ some z
      → php.is_callable z ≡ true
      → (php.try_call z (peer_closed flag) s.world).0 ≡ (incoming_bidi b, open_bidi_stream n) ∷ rest
      → b.conn_handle.conn ≡ state.conn
      → Hangs (on_conn_closed v conn_id flag s)
  unfolding on_conn_closed close_streams fire_all fire_on_close
  open_stream_in_on_close v conn_id flag s state id e entries z b n rest known entries_are there
        good does same =
      rw (known, on_conn_closed)
        (bind_Hangs (close_streams state.conn flag) _ s (
          with_lock-Hangs (callbacks state.conn) _ s (
            rw entries_are (
              bind_Hangs (call_slot e.on_close (peer_closed flag)) _ _ (
                call_slot-Hangs e.on_close (peer_closed flag) _ z (incoming_bidi b)
                  (open_bidi_stream n) rest there good does
                  (open_bidi_Hangs b n _ (rw (same, ==_refl state.conn))))))))
