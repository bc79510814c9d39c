-- ===== src/Socket/Once/Exactly.antt =====
-- That each stream which ends is closed once, and never again.
use ext_quiche.Base.{ℕ, ◌≡◌, refl, ap, ◌∙◌, subst, Bool, true, false, some, List, [], arith}
use ext_quiche.Base.Map.{get, remove}
use ext_quiche.External.Quiche.{Bytes}
use ext_quiche.Connection.{StreamId, received}
use ext_quiche.Stream.{SlotRef, ConnRef, StreamSlots, ok, Host, Store, Exec}
use ext_quiche.Stream.Methods.{set_callbacks}
use ext_quiche.Socket.{
  ConnState, Server, take_slots, on_received, dispatch_driver_event, on_conn_closed, close_server,
}
use ext_quiche.Socket.Effects.{table, CloseOnlyWrites, DataOnlyWrites}
use ext_quiche.Socket.Closing.{close_streams_lem}
use ext_quiche.Socket.Dispatch.{find_slots_free, take_slots_free, on_data-Does}
use ext_quiche.Socket.Shutdown.{close_connections_lem}
use ext_quiche.Socket.Firing.{fire_on_close-Does}
use ext_quiche.Socket.Tick.{driver, conn_closed, handle}
use ext_quiche.Socket.Balance.{Holds}
use ext_quiche.Socket.Balance.Runs.{run_uses-IsBalanced}
use ext_quiche.Socket.Once.{Placed, count}
use ext_quiche.Socket.Once.Taking.{Settled}
use ext_quiche.Socket.Once.Handlers.{close_server-Settled}
use ext_quiche.Socket.Uses.{Use, run_uses}
use ext_quiche.Socket.Once.Runs.{run_uses-Settled, start-Placed, handle-Settled}
use ext_quiche.Socket.Once.Firing.{
  Fired, fire_on_close_fires, close_streams_fires, close_connections_fires,
}

module _ {h : Host} where
  open h use {php}

  -- The handler returns, the slot was closed once in all, and whatever is done with the server
  -- afterwards closes it no second time.
  abbrev pub ClosesOnce : Exec h (Server h) → Store h → SlotRef → Type 0
  ClosesOnce m t r =
      (w : Server h) × (u : Store h) × (m t ≡ (ok w, u))
      × ((us : List (Use php.Zval)) → count r (run_uses w us u).1.on_closes ≡ 1)

  -- What was closed up to now counts as old.
  settle : (s : Store h) → Placed [] [] s → Placed s.on_closes [] s
  settle s p = record {
    apart = p.apart;
    single = p.single;
    below = p.below;
    keeps = λ r. omega arith;
  }

  once :
      (m : Exec h (Server h)) (t : Store h) (r : SlotRef) (w : Server h) (u : Store h)
      → Placed [] [] t
      → Settled [] m
      → m t ≡ (ok w, u)
      → Fired r 1 u
      → ClosesOnce m t r
  once m t r w u p safe e fired = (
    w,
    u,
    e,
    λ us.
        let q : Placed u.on_closes [] (run_uses w us u).1 =
          run_uses-Settled u.on_closes w us u
            (settle u (subst (λ x. Placed [] [] x.1) e (safe t p))) in
        omega (arith, q.keeps r, q.single 0 r, fired),
  )

module _ {h : Host} (on_data_calm : DataOnlyWrites h) (on_close_calm : CloseOnlyWrites h) where
  received_fires :
      (w : Server h) (conn_id : ℕ) (state : ConnState) (id : StreamId) (bs : Bytes)
      (e : StreamSlots) (t : Store h)
      → t.held ≡ []
      → get conn_id w.connections ≡ some state
      → get id (table t state.conn) ≡ some e
      → (u : Store h) × (handle w (driver conn_id (received id bs true)) t ≡ (ok w, u))
        × Fired e.on_close 1 u
  unfolding handle dispatch_driver_event on_received
  received_fires w conn_id state id bs e t free known found =
      let c : ConnRef = state.conn in
      let (t', e', f) = on_data-Does on_data_calm on_close_calm (some e) bs true t free in
      let s : Store h = set_callbacks c (remove id (table t c)) t' in
      let taken : take_slots c id t' ≡ (ok (some e), s) =
        take_slots_free c id t' (f.held ∙ free) ∙ rw (f.tables c, found) refl in
      let (u, g, k) = fire_on_close-Does on_close_calm e.on_close true s (rw (f.held ∙ free)) in
      (
        u,
        rw (known, find_slots_free c id t free, found, e', taken, g) refl,
        subst (λ x. Fired e.on_close 1 x.1) g (fire_on_close_fires e.on_close true s),
      )

  conn_closed_fires :
      (w : Server h) (conn_id : ℕ) (state : ConnState) (id : StreamId) (flag : Bool)
      (e : StreamSlots) (t : Store h)
      → t.held ≡ []
      → get conn_id w.connections ≡ some state
      → get id (table t state.conn) ≡ some e
      → (v : Server h) × (u : Store h) × (handle w (conn_closed conn_id flag) t ≡ (ok v, u))
        × Fired e.on_close 1 u
  unfolding handle on_conn_closed
  conn_closed_fires w conn_id state id flag e t free known found =
      let (u, r, b) = close_streams_lem on_close_calm state.conn flag t free in
      (
        record w { connections = remove conn_id w.connections },
        u,
        rw (known, on_conn_closed, r) refl,
        subst (λ x. Fired e.on_close 1 x.1) r
            (close_streams_fires state.conn flag id e t free found (ap (λ x. x.0) r)),
      )

  close_server_fires :
      (w : Server h) (conn_id : ℕ) (state : ConnState) (id : StreamId) (e : StreamSlots)
      (t : Store h)
      → t.held ≡ []
      → get conn_id w.connections ≡ some state
      → get id (table t state.conn) ≡ some e
      → (v : Server h) × (u : Store h) × (close_server w t ≡ (ok v, u)) × Fired e.on_close 1 u
  unfolding close_server
  close_server_fires w conn_id state id e t free known found =
      let (u, r, b) =
        close_connections_lem on_close_calm w.connections (table t) t free (λ c. refl) in
      (
        record w { connections = []; listening = false },
        u,
        rw r refl,
        subst (λ x. Fired e.on_close 1 x.1) r
            (close_connections_fires on_close_calm w.connections conn_id state id e t free known
              found),
      )

  -- Where the callbacks for data and for the end of a stream only write and close: take any life of
  -- the server, from empty tables of streams, no slot closed and no lock held, that returns. For each
  -- stream in the table of a connection that the server then knows, the end of the stream, the end
  -- of the connection and `close` all return, the stream's slot was then closed once in all, and so
  -- it remains whatever is done with the server afterwards.
  pub closes_once :
      (v w : Server h) (us : List (Use h.php.Zval)) (s t : Store h) (conn_id : ℕ)
      (state : ConnState) (id : StreamId) (e : StreamSlots)
      → ((c : ConnRef) → table s c ≡ [])
      → s.on_closes ≡ []
      → s.held ≡ []
      → run_uses v us s ≡ (ok w, t)
      → get conn_id w.connections ≡ some state
      → get id (table t state.conn) ≡ some e
      → ((bs : Bytes) → ClosesOnce (handle w (driver conn_id (received id bs true))) t e.on_close)
        × ((flag : Bool) → ClosesOnce (handle w (conn_closed conn_id flag)) t e.on_close)
        × ClosesOnce (close_server w) t e.on_close
  closes_once v w us s t conn_id state id e empty none_closed none_held life known found =
      let free : t.held ≡ [] = subst (Holds s.held) life (run_uses-IsBalanced v us s) ∙ none_held in
      let p : Placed [] [] t =
        subst (λ x. Placed [] [] x.1) life
          (run_uses-Settled [] v us s (start-Placed s empty none_closed)) in
      (
        (λ bs.
            let (u, r, f) = received_fires w conn_id state id bs e t free known found in
            once (handle w (driver conn_id (received id bs true))) t e.on_close w u p
              (handle-Settled [] w _) r f),
        (λ flag.
            let (x, u, r, f) = conn_closed_fires w conn_id state id flag e t free known found in
            once (handle w (conn_closed conn_id flag)) t e.on_close x u p (handle-Settled [] w _) r
              f),
        (let (x, u, r, f) = close_server_fires w conn_id state id e t free known found in
            once (close_server w) t e.on_close x u p (close_server-Settled [] w) r f),
      )
