-- ===== src/Socket/Balance/Runs.antt =====
-- No lock is left behind, over whole lives of a server.
use ext_quiche.Base.{refl, Bool, List, [], ◌∷◌, Option, none, some}
use ext_quiche.Stream.{Host, Exec}
use ext_quiche.Stream.Methods.{run_methods}
use ext_quiche.Socket.{Server, dispatch_driver_event}
use ext_quiche.Socket.Tick.{
  Event, new_conn, driver, conn_closed, timer, Ready, select, handle, turn, tick,
}
use ext_quiche.Socket.Uses.{Use, ticks, closes_server, calls, use_once, run_uses}
use ext_quiche.Socket.Balance.{IsBalanced, bind-IsBalanced, run_methods-IsBalanced}
use ext_quiche.Socket.Balance.Handlers.{
  dispatch-IsBalanced, on_conn_closed-IsBalanced, on_new_conn-IsBalanced, close_server-IsBalanced,
}

module _ {h : Host} where
  open h use {php}

  handle-IsBalanced : (v : Server h) (e : Event) → IsBalanced (handle v e)
  unfolding handle
  handle-IsBalanced v (new_conn (some peer_addr)) = on_new_conn-IsBalanced v peer_addr
  handle-IsBalanced v (new_conn none) = λ s. refl
  handle-IsBalanced v (driver conn_id ev) =
      bind-IsBalanced (dispatch_driver_event v conn_id ev) _ (dispatch-IsBalanced v conn_id ev)
        (λ u s. refl)
  handle-IsBalanced v (conn_closed conn_id flag) = on_conn_closed-IsBalanced v conn_id flag
  handle-IsBalanced v timer = λ s. refl

  turn-IsBalanced :
      (v : Server h) (e : Option Event) (next : Server h → Exec h (Server h × Bool))
      → ((w : Server h) → IsBalanced (next w))
      → IsBalanced (turn v e next)
  turn-IsBalanced v none next rest = rest v
  turn-IsBalanced v (some timer) next rest = λ s. refl
  turn-IsBalanced v (some (new_conn a)) next rest =
      bind-IsBalanced (handle v (new_conn a)) next (handle-IsBalanced v _) rest
  turn-IsBalanced v (some (driver c ev)) next rest =
      bind-IsBalanced (handle v (driver c ev)) next (handle-IsBalanced v _) rest
  turn-IsBalanced v (some (conn_closed c f)) next rest =
      bind-IsBalanced (handle v (conn_closed c f)) next (handle-IsBalanced v _) rest

  tick-IsBalanced : (v : Server h) (rs : List Ready) → IsBalanced (tick v rs)
  unfolding tick
  tick-IsBalanced v [] = λ s. refl
  tick-IsBalanced v (r ∷ rs) = turn-IsBalanced v (select r) _ (λ w. tick-IsBalanced w rs)

  use_once-IsBalanced : (v : Server h) (u : Use php.Zval) → IsBalanced (use_once v u)
  use_once-IsBalanced v (ticks rs) =
      bind-IsBalanced (tick v rs) _ (tick-IsBalanced v rs) (λ w s. refl)
  use_once-IsBalanced v closes_server = close_server-IsBalanced v
  use_once-IsBalanced v (calls ms) =
      bind-IsBalanced (run_methods ms) _ (run_methods-IsBalanced ms) (λ u s. refl)

  -- Whatever PHP code does, in callbacks and between the calls of the server: any ticks, closes and
  -- method calls that return, or raise, leave the thread with the locks that it held before.
  pub run_uses-IsBalanced : (v : Server h) (us : List (Use php.Zval)) → IsBalanced (run_uses v us)
  unfolding run_uses
  run_uses-IsBalanced v [] = λ s. refl
  run_uses-IsBalanced v (u ∷ us) =
      bind-IsBalanced (use_once v u) _ (use_once-IsBalanced v u) (λ w. run_uses-IsBalanced w us)
