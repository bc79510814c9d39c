-- ===== src/Socket/Tick.antt =====
-- `tick` of src/quiche/socket.rs: the loop around the handlers.
pub mod Late
pub mod Returns
pub mod Fresh
pub mod Heard
use ext_quiche.Base.{ℕ, Bool, true, false, Option, none, some, List, [], ◌∷◌}
use ext_quiche.Connection.{DriverEvent}
use ext_quiche.Stream.{Host, Exec, ◌>>=◌, ◌>>◌, pure}
use ext_quiche.Socket.{Server, on_new_conn, on_conn_closed, dispatch_driver_event}

-- `Event`, with what the patterns of `select!` let through: a connection is its peer's address, or
-- none for one that failed.
pub data Event : Type 0 where
  new_conn : Option ℕ → Event
  driver : ℕ → DriverEvent → Event
  conn_closed : ℕ → Bool → Event
  timer : Event

-- What the arms of one `select!` have when they are polled. Other threads send between two polls,
-- so the answers do not stand for one moment. A closed channel or listener answers none.
pub record Ready : Type 0 where
  pub server_event : Option (ℕ × DriverEvent)
  pub conn_close : Option (ℕ × Bool)
  pub listener : Option (Option ℕ)
  pub event_fd : Bool

-- The arms in their order, as `biased` asks for; none where nothing is ready.
unfoldable pub select : Ready → Option Event
select r = elim r.server_event [
  | some (conn_id, ev) ↦ some (driver conn_id ev)
  | none ↦ elim r.conn_close [
    | some (conn_id, flag) ↦ some (conn_closed conn_id flag)
    | none ↦ elim r.listener [
      | some accepted ↦ some (new_conn accepted)
      | none ↦ elim r.event_fd [ true ↦ some timer | false ↦ none ]
    ]
  ]
]

module _ {h : Host} where
  -- The arms of the `match` that go on with the loop.
  unfoldable pub handle : Server h → Event → Exec h (Server h)
  handle v (new_conn (some peer_addr)) = on_new_conn v peer_addr
  handle v (new_conn none) = pure v
  handle v (driver conn_id ev) = dispatch_driver_event v conn_id ev >> pure v
  handle v (conn_closed conn_id flag) = on_conn_closed v conn_id flag
  handle v timer = pure v

  -- One turn of the loop, with the turns after it; the timer leaves with true.
  abbrev pub turn :
      Server h → Option Event → (Server h → Exec h (Server h × Bool)) → Exec h (Server h × Bool)
  turn v none next = next v
  turn v (some timer) next = pure (v, true)
  turn v (some (new_conn accepted)) next = handle v (new_conn accepted) >>= next
  turn v (some (driver conn_id ev)) next = handle v (driver conn_id ev) >>= next
  turn v (some (conn_closed conn_id flag)) next = handle v (conn_closed conn_id flag) >>= next

  -- The loop over what its turns find ready; false says that it waits behind the last of them.
  unfoldable pub tick : Server h → List Ready → Exec h (Server h × Bool)
  tick v [] = pure (v, false)
  tick v (r ∷ rs) = turn v (select r) (λ w. tick w rs)
