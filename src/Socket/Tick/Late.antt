-- ===== src/Socket/Tick/Late.antt =====
-- Events that arrive behind the close message of their connection.
use ext_quiche.Base.{ℕ, ◌≡◌, refl, ◌∙◌, Bool, Option, none, some, List, ◌∷◌, ==_refl}
use ext_quiche.Base.Map.{get, remove, get-remove}
use ext_quiche.Connection.{DriverEvent}
use ext_quiche.Stream.{Outcome, ok, raised, deadlock, Host, Store, Exec, continue, ◌>>=◌, pure}
use ext_quiche.Socket.{ConnState, Server, on_conn_closed, close_streams}
use ext_quiche.Socket.Courtesy.Handlers.{dispatch_unknown}
use ext_quiche.Socket.Tick.{driver, conn_closed, Ready, select, handle, tick}

module _ {h : Host} where
  -- A turn that starts with an event of the given connection skips it.
  abbrev Skips : ℕ → DriverEvent → (Server h → Exec h (Server h × Bool)) → Server h → Type 0
  Skips conn_id ev next v = (s : Store h) → (handle v (driver conn_id ev) >>= next) s ≡ next v s

  Skips-unknown :
      (v : Server h) (conn_id : ℕ) (ev : DriverEvent) (next : Server h → Exec h (Server h × Bool))
      → get conn_id v.connections ≡ none
      → Skips conn_id ev next v
  unfolding handle
  Skips-unknown v conn_id ev next e s = rw (dispatch_unknown v conn_id ev s e)

  bind_Skips :
      (w : Outcome (Unit {0}) × Store h) (v : Server h) (conn_id : ℕ) (ev : DriverEvent)
      (next : Server h → Exec h (Server h × Bool))
      → get conn_id v.connections ≡ none
      → let closed = continue w.0 (λ _. pure v) w.1 in
        continue closed.0 (λ u. handle u (driver conn_id ev) >>= next) closed.1
        ≡ continue closed.0 next closed.1
  bind_Skips (ok a, t) v conn_id ev next e = Skips-unknown v conn_id ev next e t
  bind_Skips (raised, t) v conn_id ev next e = refl
  bind_Skips (deadlock, t) v conn_id ev next e = refl

  closed_Skips :
      (v : Server h) (conn_id : ℕ) (flag : Bool) (ev : DriverEvent)
      (next : Server h → Exec h (Server h × Bool)) (s : Store h)
      → (on_conn_closed v conn_id flag >>= λ w. handle w (driver conn_id ev) >>= next) s
        ≡ (on_conn_closed v conn_id flag >>= next) s
  unfolding on_conn_closed
  closed_Skips v conn_id flag ev next s = split (get conn_id v.connections) refl
    where
      split :
          (found : Option ConnState)
          → get conn_id v.connections ≡ found
          → (on_conn_closed v conn_id flag >>= λ w. handle w (driver conn_id ev) >>= next) s
            ≡ (on_conn_closed v conn_id flag >>= next) s
      split none e = rw (e, on_conn_closed) (Skips-unknown v conn_id ev next e s)
      split (some state) e =
          rw (e, on_conn_closed)
            (bind_Skips (close_streams state.conn flag s)
              (record v { connections = remove conn_id v.connections }) conn_id ev next
              (get-remove conn_id conn_id v.connections ∙ rw (==_refl conn_id)))

  -- Where a turn takes the close message of a connection and the turn after it an event of that
  -- connection, the loop goes on as if the event had never been sent.
  pub tick-late :
      (v : Server h) (conn_id : ℕ) (flag : Bool) (ev : DriverEvent) (r r' : Ready) (rs : List Ready)
      (s : Store h)
      → select r ≡ some (conn_closed conn_id flag)
      → select r' ≡ some (driver conn_id ev)
      → tick v (r ∷ r' ∷ rs) s ≡ tick v (r ∷ rs) s
  unfolding tick handle
  tick-late v conn_id flag ev r r' rs s e e' =
      rw (e, e') (closed_Skips v conn_id flag ev (λ w. tick w rs) s)
