-- ===== src/Socket/Courtesy/Handlers.antt =====
-- The handlers under courteous callbacks: they end, and streams stay in their tables.
use ext_quiche.Base.{
  ℕ, ◌≡◌, ◌≢◌, refl, sym, ap, ◌∙◌, Bool, true, false, Option, none, some, [], ◌++◌, append-nil,
  append_assoc, ◌==◌, ==_refl,
}
use ext_quiche.Base.Map.{get, remove, get-remove}
use ext_quiche.External.Quiche.{Bytes}
use ext_quiche.External.Php.{chunk, peer_closed}
use ext_quiche.Connection.{StreamId, DriverEvent, new_bidi, new_uni, received}
use ext_quiche.Stream.{SlotRef, ConnRef, StreamSlots, slot, ok, Host, Store, ◌>>=◌, gets}
use ext_quiche.Stream.Methods.{call_callback, set_callbacks}
use ext_quiche.Socket.{
  ConnState, Server, call_slot, noted, fire_on_close, on_found, on_received, dispatch_driver_event,
}
use ext_quiche.Socket.Effects.{called, table}
use ext_quiche.Socket.Firing.{locked}
use ext_quiche.Socket.Closing.{table-set_callbacks}
use ext_quiche.Socket.Dispatch.{
  data_calls, end_calls, end_calls_running, end_calls_slots, find_slots_free, take_slots_free,
}
use ext_quiche.Socket.Courtesy.{Courteous, Extends-refl, Ends}
use ext_quiche.Socket.Courtesy.Locks.{All-map, slot_MayRun, write_MayRun}
use ext_quiche.Socket.Courtesy.Results.{Served, Dealt}
use ext_quiche.Socket.Courtesy.Methods.{call_callback-Ends}
use ext_quiche.Socket.Courtesy.Arrivals.{with_lock-Ends, dispatch-Shows}

module _ {h : Host} (polite : Courteous h) where
  data_Ends :
      (r : SlotRef) (bs : Bytes) (fin : Bool) (s : Store h)
      → s.held ≡ []
      → Ends (call_slot r (chunk bs fin)) s (called h (s.slots r) (chunk bs fin))
  unfolding call_slot
  data_Ends r bs fin s free =
      with_lock-Ends (slot r) (gets (λ s. s.slots r) >>= λ z. call_callback z (chunk bs fin)) s _
        free
        (call_callback-Ends (s.slots r) (chunk bs fin) (locked (slot r) s) (λ z w. rw free (
          All-map _ _ (h.php.try_call z (chunk bs fin) w).0 (λ m p. slot_MayRun r bs fin m.1 p)
            (polite z (chunk bs fin) w))))

  on_data_Ends :
      (found : Option StreamSlots) (bs : Bytes) (fin : Bool) (s : Store h)
      → s.held ≡ []
      → Ends
          (on_found found (λ slots. call_slot slots.on_data (chunk bs fin)))
          s
          (data_calls h s found bs fin)
  on_data_Ends none bs fin s free = (s, refl, Extends-refl s)
  on_data_Ends (some e) bs fin s free = data_Ends e.on_data bs fin s free

  end_Ends :
      (found : Option StreamSlots) (s : Store h)
      → s.held ≡ []
      → Ends
          (on_found found (λ slots. fire_on_close slots.on_close true))
          s
          (end_calls h s found true)
  unfolding fire_on_close call_slot
  end_Ends none s free = (s, refl, Extends-refl s)
  end_Ends (some e) s free =
      let (t, g, x) =
        with_lock-Ends (slot e.on_close)
          (gets (λ s. s.slots e.on_close) >>= λ z. call_callback z (peer_closed true))
          (noted e.on_close s) _ free
          (call_callback-Ends (s.slots e.on_close) (peer_closed true)
            (locked (slot e.on_close) (noted e.on_close s))
            (λ z w.
              All-map _ _ (h.php.try_call z (peer_closed true) w).0
                (λ m p. write_MayRun (locked (slot e.on_close) s).held m.1 p)
                (polite z (peer_closed true) w))) in
      (t, g, record { held = x.held; calls = x.calls; keeps = x.keeps })

  removed_keeps :
      (c : ConnRef) (id j : StreamId) (s : Store h)
      → (id == j) ≡ false
      → get j (table s c) ≢ none
      → get j (table (set_callbacks c (remove id (table s c)) s) c) ≢ none
  removed_keeps c id j s other there =
      rw
        (
          table-set_callbacks c c (remove id (table s c)) s,
          ==_refl c,
          get-remove id j (table s c),
          other,
        )
        there

  pub on_received-Served :
      (c : ConnRef) (id : StreamId) (bs : Bytes) (fin : Bool) (s : Store h)
      → s.held ≡ []
      → (t : Store h) × (on_received c id bs fin s ≡ (ok tt, t)) × Served c id bs fin s t
  unfolding on_received
  on_received-Served c id bs false s free =
      let (t, e, x) = on_data_Ends (get id (table s c)) bs false s free in
      (
        t,
        rw (find_slots_free c id s free, e),
        record {
          held = x.held ∙ free;
          middle = t;
          hears = e;
          calls =
              x.calls
              ∙ ap (◌++◌ s.calls)
                  (rw (end_calls_running t (get id (table t c))) (sym (append-nil _)));
          keeps = λ j e there. x.keeps c j there;
        },
      )
  on_received-Served c id bs true s free =
      let (t, e, x) = on_data_Ends (get id (table s c)) bs true s free in
      let s' : Store h = set_callbacks c (remove id (table t c)) t in
      let (u, g, y) = end_Ends (get id (table t c)) s' (x.held ∙ free) in
      (
        u,
        rw (find_slots_free c id s free, e, take_slots_free c id t (x.held ∙ free), g),
        record {
          held = y.held ∙ x.held ∙ free;
          middle = t;
          hears = e;
          calls =
              y.calls
              ∙ rw (x.calls, end_calls_slots s' t (get id (table t c)) refl)
                  (append_assoc s.calls _ _);
          keeps = λ j other there. y.keeps c j (removed_keeps c id j t other (x.keeps c j there));
        },
      )

module _ {h : Host} (polite : Courteous h) where
  pub dispatch-Dealt :
      (v : Server h) (conn_id : ℕ) (state : ConnState) (ev : DriverEvent) (s : Store h)
      → get conn_id v.connections ≡ some state
      → s.held ≡ []
      → (t : Store h) × (dispatch_driver_event v conn_id ev s ≡ (ok tt, t))
        × Dealt state.conn ev s t
  unfolding dispatch_driver_event
  dispatch-Dealt v conn_id state (new_bidi id) s known free =
      let ((t, e, d, _), _) = dispatch-Shows polite v conn_id state id s known free in (t, e, d)
  dispatch-Dealt v conn_id state (new_uni id) s known free =
      let (_, (t, e, d, _)) = dispatch-Shows polite v conn_id state id s known free in (t, e, d)
  dispatch-Dealt v conn_id state (received id bs fin) s known free =
      rw known (on_received-Served polite state.conn id bs fin s free)

module _ {h : Host} where
  -- An event of a connection that is not known does nothing.
  pub dispatch_unknown :
      (v : Server h) (conn_id : ℕ) (ev : DriverEvent) (s : Store h)
      → get conn_id v.connections ≡ none
      → dispatch_driver_event v conn_id ev s ≡ (ok tt, s)
  unfolding dispatch_driver_event
  dispatch_unknown v conn_id ev s e = rw e refl
