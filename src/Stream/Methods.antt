-- ===== src/Stream/Methods.antt =====
-- The methods of the four PHP stream classes, and what a PHP callback may do with them.
use ext_quiche.Base.{suc, ◌+◌, true, Option, none, some, List, [], ◌∷◌, ◌++◌, if◌then◌else◌}
use ext_quiche.Base.Map.{insert}
use ext_quiche.External.Php.{
  Method, set_on_data, set_on_close, write, close, open_bidi_stream, open_uni_stream, Arguments,
}
use ext_quiche.Connection.{StreamId, StreamWriter}
use ext_quiche.Stream.{
  SlotRef, ConnRef, StreamSlots, ConnOpenHandle, IncomingBidiStream, IncomingUniStream, BidiStream,
  UniStream, StreamObject, incoming_bidi, incoming_uni, bidi, uni, slot, callbacks, ok, raised,
  deadlock, Host, Store, Exec, update, ◌>>=◌, ◌>>◌, pure, raise, modify, with_lock,
}

module _ {h : Host} where
  open h use {php, writes}

  unfoldable pub install_slot : SlotRef → php.Zval → Exec h (Unit {0})
  install_slot r callback =
      if php.is_callable callback
      then with_lock (slot r) (modify (λ s. record s { slots = update s.slots r (some callback) }))
      else raise

  -- `try_send(…)?` and then `notify_one()`.
  unfoldable pub send_chunk : ConnRef → StreamWriter → Exec h (Unit {0})
  send_chunk c m s =
      let shared = s.conns c in
      let (sent, tx) = writes.try_send m shared.write_tx in
      if sent
      then (
        ok tt,
        record s {
          conns =
              update s.conns c (record shared { write_tx = tx; notified = shared.notified + 1 });
        },
      )
      else (raised, record s { conns = update s.conns c (record shared { write_tx = tx }) })

  -- Two slots with no callback.
  unfoldable pub make_slot_pair : Exec h (SlotRef × SlotRef)
  make_slot_pair s = (
    ok (s.next_slot, suc s.next_slot),
    record s {
      slots = update (update s.slots s.next_slot none) (suc s.next_slot) none;
      next_slot = suc (suc s.next_slot);
    },
  )

  abbrev pub set_callbacks : ConnRef → List (StreamId × StreamSlots) → Store h → Store h
  set_callbacks c m s = record s {
    conns = update s.conns c (record (s.conns c) { php_stream_callbacks = m });
  }

  -- `php_stream_callbacks.lock().insert(stream_id, …)`
  unfoldable pub register : ConnRef → StreamId → StreamSlots → Exec h (Unit {0})
  register c id entry =
      with_lock (callbacks c)
        (modify (λ s. set_callbacks c (insert id entry (s.conns c).php_stream_callbacks) s))

  unfoldable pub prepare_bidi_stream : ConnOpenHandle → StreamId → Exec h (SlotRef × SlotRef)
  prepare_bidi_stream handle id = do
    pair ← make_slot_pair
    register handle.conn id (record { on_data = pair.0; on_close = pair.1 })
    pure pair

  unfoldable pub prepare_uni_stream : ConnOpenHandle → StreamId → Exec h SlotRef
  prepare_uni_stream handle id = do
    pair ← make_slot_pair
    register handle.conn id (record { on_data = pair.0; on_close = pair.1 })
    pure pair.1

  unfoldable pub open_bidi : ConnOpenHandle → StreamId → Exec h BidiStream
  open_bidi handle id = do
    pair ← prepare_bidi_stream handle id
    pure (record {
      conn_id = handle.conn_id;
      stream_id = id;
      conn = handle.conn;
      on_data = pair.0;
      on_close = pair.1;
    })

  unfoldable pub open_uni : ConnOpenHandle → StreamId → Exec h UniStream
  open_uni handle id = do
    on_close ← prepare_uni_stream handle id
    pure (record {
      conn_id = handle.conn_id;
      stream_id = id;
      conn = handle.conn;
      on_close = on_close;
    })

  -- The object that a method returns, if it returns one.
  abbrev pub nothing : Exec h (Unit {0}) → Exec h (Option StreamObject)
  nothing m = do m; pure none

  unfoldable pub opens : ConnOpenHandle → Method php.Zval → Exec h (Option StreamObject)
  opens handle (open_bidi_stream id) = do o ← open_bidi handle id; pure (some (bidi o))
  opens handle (open_uni_stream id) = do o ← open_uni handle id; pure (some (uni o))
  opens handle _ = raise

  -- The methods of each class; one that a class does not have raises.
  abbrev pub incoming_bidi_method :
      IncomingBidiStream → Method php.Zval → Exec h (Option StreamObject)
  incoming_bidi_method o (set_on_data z) = nothing (install_slot o.on_data z)
  incoming_bidi_method o (set_on_close z) = nothing (install_slot o.on_close z)
  incoming_bidi_method o (write bs fin) = nothing (send_chunk o.conn (o.stream_id, some bs, fin))
  incoming_bidi_method o close = nothing (send_chunk o.conn (o.stream_id, some [], true))
  incoming_bidi_method o m = opens o.conn_handle m

  abbrev pub incoming_uni_method :
      IncomingUniStream → Method php.Zval → Exec h (Option StreamObject)
  incoming_uni_method o (set_on_data z) = nothing (install_slot o.on_data z)
  incoming_uni_method o (set_on_close z) = nothing (install_slot o.on_close z)
  incoming_uni_method o m = opens o.conn_handle m

  abbrev pub bidi_method : BidiStream → Method php.Zval → Exec h (Option StreamObject)
  bidi_method o (set_on_data z) = nothing (install_slot o.on_data z)
  bidi_method o (set_on_close z) = nothing (install_slot o.on_close z)
  bidi_method o (write bs fin) = nothing (send_chunk o.conn (o.stream_id, some bs, fin))
  bidi_method o close = nothing (send_chunk o.conn (o.stream_id, some [], true))
  bidi_method o _ = raise

  abbrev pub uni_method : UniStream → Method php.Zval → Exec h (Option StreamObject)
  uni_method o (set_on_close z) = nothing (install_slot o.on_close z)
  uni_method o (write bs fin) = nothing (send_chunk o.conn (o.stream_id, some bs, fin))
  uni_method o close = nothing (send_chunk o.conn (o.stream_id, some [], true))
  uni_method o _ = raise

  unfoldable pub call_method : StreamObject → Method php.Zval → Exec h (Option StreamObject)
  call_method (incoming_bidi o) m = incoming_bidi_method o m
  call_method (incoming_uni o) m = incoming_uni_method o m
  call_method (bidi o) m = bidi_method o m
  call_method (uni o) m = uni_method o m

  -- An exception ends a call of a method, and not the callback, which may catch it.
  unfoldable pub run_methods : List (StreamObject × Method php.Zval) → Exec h (Unit {0})
  run_methods [] s = (ok tt, s)
  run_methods ((o, m) ∷ rest) s =
      let (r, t) = call_method o m s in elim r [ deadlock ↦ (deadlock, t) | _ ↦ run_methods rest t ]

  abbrev pub calling : php.Zval → Arguments StreamObject → Store h → Store h
  calling z args s = record s {
    world = (php.try_call z args s.world).1;
    calls = s.calls ++ (z, args) ∷ [];
  }

  -- `let _ = callable.try_call(…)`, where the value is callable.
  unfoldable pub call_callback : Option php.Zval → Arguments StreamObject → Exec h (Unit {0})
  call_callback none args s = (ok tt, s)
  call_callback (some z) args s =
      if php.is_callable z
      then run_methods (php.try_call z args s.world).0 (calling z args s)
      else (ok tt, s)
