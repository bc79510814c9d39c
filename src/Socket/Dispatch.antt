-- ===== src/Socket/Dispatch.antt =====
-- What the events of the driver do on the PHP thread.
use ext_quiche.Base.{
  ℕ, ◌≡◌, refl, sym, ap, ◌∙◌, Bool, true, false, ◌&&◌, Option, none, some, List, [], ◌++◌,
  append-nil, append_assoc, ◌==◌, if◌then◌else◌,
}
use ext_quiche.Base.Map.{get, remove}
use ext_quiche.External.Quiche.{Bytes}
use ext_quiche.External.Php.{chunk, peer_closed}
use ext_quiche.Connection.{StreamId, received}
use ext_quiche.Stream.{ConnRef, StreamSlots, callbacks, ok, Host, Store}
use ext_quiche.Stream.Methods.{set_callbacks}
use ext_quiche.Socket.{
  ConnState, Server, call_slot, fire_on_close, find_slots, take_slots, on_found, on_received,
  dispatch_driver_event,
}
use ext_quiche.Socket.Effects.{
  Call, table, Effect-refl, Does, DataOnlyWrites, CloseOnlyWrites, called,
}
use ext_quiche.Socket.Firing.{fire_on_close-Does, Table, with_lock_free, Becomes, call_slot-Does}
use ext_quiche.Socket.Closing.{table-set_callbacks}

-- The calls for a chunk: `on_data`, and `on_close` behind the end of the stream.
abbrev pub data_calls : (h : Host) → Store h → Option StreamSlots → Bytes → Bool → List (Call h)
data_calls h s none bs fin = []
data_calls h s (some e) bs fin = called h (s.slots e.on_data) (chunk bs fin)

abbrev pub end_calls : (h : Host) → Store h → Option StreamSlots → Bool → List (Call h)
end_calls h s none fin = []
end_calls h s (some e) fin = if fin then called h (s.slots e.on_close) (peer_closed true) else []

module _ {h : Host} where
  pub find_slots_free :
      (c : ConnRef) (id : StreamId) (s : Store h)
      → s.held ≡ []
      → find_slots c id s ≡ (ok (get id (table s c)), s)
  unfolding find_slots
  find_slots_free c id s free = with_lock_free (callbacks c) _ s (rw free)

  pub take_slots_free :
      (c : ConnRef) (id : StreamId) (s : Store h)
      → s.held ≡ []
      → take_slots c id s ≡ (ok (get id (table s c)), set_callbacks c (remove id (table s c)) s)
  unfolding take_slots
  take_slots_free c id s free = with_lock_free (callbacks c) _ s (rw free)

append_end {ℓ} : {A : Type ℓ} (xs : List A) {ys : List A} → ys ≡ [] → xs ++ ys ≡ xs
append_end xs e = rw e (append-nil xs)

module _ {h : Host} where
  pub end_calls_running :
      (s : Store h) (found : Option StreamSlots) → end_calls h s found false ≡ []
  end_calls_running s none = refl
  end_calls_running s (some e) = refl

  pub end_calls_more :
      (s : Store h) (found : Option StreamSlots) (fin : Bool)
      → fin ≡ false
      → end_calls h s found fin ≡ []
  end_calls_more s found true e = absurd cc
  end_calls_more s found false e = end_calls_running s found

  pub end_calls_slots :
      (s t : Store h) (found : Option StreamSlots)
      → s.slots ≡ t.slots
      → end_calls h s found true ≡ end_calls h t found true
  end_calls_slots s t none e = refl
  end_calls_slots s t (some x) e = rw e

module _ {h : Host} where
  -- The tables behind a chunk: the end of a stream takes its entry out.
  abbrev pub ended : ConnRef → StreamId → Bool → Store h → ConnRef → Table
  ended c id fin s d = if fin && (c == d) then remove id (table s c) else table s d

  -- A driver's event for a connection that the server has forgotten changes nothing; a chunk goes
  -- to the stream's `on_data`, and the end of a stream to its `on_close` with true.
  abbrev pub Handles : Server h → ℕ → StreamId → Bytes → Bool → Store h → Option ConnState → Type 0
  Handles v conn_id id bs fin s none =
      dispatch_driver_event v conn_id (received id bs fin) s ≡ (ok tt, s)
  Handles v conn_id id bs fin s (some state) =
      (t : Store h) × (dispatch_driver_event v conn_id (received id bs fin) s ≡ (ok tt, t))
      × Becomes s t (ended state.conn id fin s) (
          data_calls h s (get id (table s state.conn)) bs fin
          ++ end_calls h s (get id (table s state.conn)) fin)

module _ {h : Host} (on_data_calm : DataOnlyWrites h) (on_close_calm : CloseOnlyWrites h) where
  pub on_data-Does :
      (found : Option StreamSlots) (bs : Bytes) (fin : Bool) (s : Store h)
      → s.held ≡ []
      → Does
          (on_found found (λ slots. call_slot slots.on_data (chunk bs fin)))
          s
          (data_calls h s found bs fin)
  on_data-Does none bs fin s free = (s, refl, Effect-refl s)
  on_data-Does (some e) bs fin s free =
      call_slot-Does (chunk bs fin) (on_data_calm bs fin) e.on_data s (rw free)

  on_close-Does :
      (found : Option StreamSlots) (s : Store h)
      → s.held ≡ []
      → Does
          (on_found found (λ slots. fire_on_close slots.on_close true))
          s
          (end_calls h s found true)
  on_close-Does none s free = (s, refl, Effect-refl s)
  on_close-Does (some e) s free = fire_on_close-Does on_close_calm e.on_close true s (rw free)

  pub on_received_lem :
      (c : ConnRef) (id : StreamId) (bs : Bytes) (fin : Bool) (s : Store h)
      → s.held ≡ []
      → (t : Store h) × (on_received c id bs fin s ≡ (ok tt, t))
        × Becomes s t
            (ended c id fin s)
            (data_calls h s (get id (table s c)) bs fin ++ end_calls h s (get id (table s c)) fin)
  unfolding on_received
  on_received_lem c id bs false s free =
      let (t, e, f) = on_data-Does (get id (table s c)) bs false s free in
      (
        t,
        rw (find_slots_free c id s free, e),
        record {
          held = f.held;
          slots = f.slots;
          tables = f.tables;
          calls =
              f.calls
              ∙ ap (◌++◌ s.calls) (
                  sym (
                    append_end (data_calls h s (get id (table s c)) bs false)
                      (end_calls_running s (get id (table s c)))));
        },
      )
  on_received_lem c id bs true s free =
      let found : Option StreamSlots = get id (table s c) in
      let (t, e, f) = on_data-Does found bs true s free in
      let s' : Store h = set_callbacks c (remove id (table s c)) t in
      let taken : take_slots c id t ≡ (ok found, s') =
        take_slots_free c id t (f.held ∙ free) ∙ rw (f.tables c) in
      let (u, g, k) = on_close-Does found s' (f.held ∙ free) in
      (
        u,
        rw (find_slots_free c id s free, e, taken, g),
        record {
          held = k.held ∙ f.held;
          slots = k.slots ∙ f.slots;
          tables =
              λ d. k.tables d ∙ table-set_callbacks c d (remove id (table s c)) t ∙ rw (f.tables d);
          calls =
              k.calls ∙ rw (f.calls, end_calls_slots s' s found f.slots) (append_assoc s.calls _ _);
        },
      )

  -- Where the callbacks for data and for the end of a stream only write and close, and with no lock
  -- held: a data event for a forgotten connection changes nothing; otherwise the handler ends, calls
  -- the stream's `on_data` with the chunk and, at the end of the stream, its `on_close` with true and
  -- takes the stream out of the table, calls nothing else, and leaves other entries, slots and locks
  -- as they were.
  pub dispatch-Handles :
      (v : Server h) (conn_id : ℕ) (id : StreamId) (bs : Bytes) (fin : Bool) (s : Store h)
      → s.held ≡ []
      → Handles v conn_id id bs fin s (get conn_id v.connections)
  unfolding dispatch_driver_event
  dispatch-Handles v conn_id id bs fin s free = split (get conn_id v.connections) refl
    where
      split :
          (found : Option ConnState)
          → get conn_id v.connections ≡ found
          → Handles v conn_id id bs fin s found
      split none e = rw (e, dispatch_driver_event)
      split (some state) e =
          let (t, r, b) = on_received_lem state.conn id bs fin s free in
          (t, rw (e, dispatch_driver_event) r, b)
