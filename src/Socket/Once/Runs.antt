-- ===== src/Socket/Once/Runs.antt =====
-- Where the slots are over whole lives of a server.
use ext_quiche.Base.{◌+◌, ◌≤◌, ◌≡◌, Bool, List, [], ◌∷◌, Option, none, some, ap, arith}
use ext_quiche.Stream.{SlotRef, ConnRef, Host, Store, Exec}
use ext_quiche.Stream.Methods.{run_methods}
use ext_quiche.Socket.{Server, dispatch_driver_event}
use ext_quiche.Socket.Effects.{table}
use ext_quiche.Socket.Tick.{
  Event, new_conn, driver, conn_closed, timer, Ready, select, handle, turn, tick,
}
use ext_quiche.Socket.Uses.{Use, ticks, closes_server, calls, use_once, run_uses}
use ext_quiche.Socket.Once.{Placed, count, closes}
use ext_quiche.Socket.Once.Methods.{Placed-IsStable}
use ext_quiche.Socket.Stable.{bind-Safe, run_methods-Safe}
use ext_quiche.Socket.Once.Taking.{Settled}
use ext_quiche.Socket.Once.Handlers.{
  dispatch-Settled, on_conn_closed-Settled, on_new_conn-Settled, close_server-Settled,
}

module _ {h : Host} (old : List SlotRef) where
  open h use {php}

  pub handle-Settled : (v : Server h) (e : Event) → Settled old (handle v e)
  unfolding handle
  handle-Settled v (new_conn (some peer_addr)) = on_new_conn-Settled old v peer_addr
  handle-Settled v (new_conn none) = λ s p. p
  handle-Settled v (driver conn_id ev) =
      bind-Safe (Placed old []) (dispatch_driver_event v conn_id ev) _
        (dispatch-Settled old v conn_id ev) (λ u s p. p)
  handle-Settled v (conn_closed conn_id flag) = on_conn_closed-Settled old v conn_id flag
  handle-Settled v timer = λ s p. p

  turn-Settled :
      (v : Server h) (e : Option Event) (next : Server h → Exec h (Server h × Bool))
      → ((w : Server h) → Settled old (next w))
      → Settled old (turn v e next)
  turn-Settled v none next rest = rest v
  turn-Settled v (some timer) next rest = λ s p. p
  turn-Settled v (some (new_conn a)) next rest =
      bind-Safe (Placed old []) (handle v (new_conn a)) next (handle-Settled v _) rest
  turn-Settled v (some (driver c ev)) next rest =
      bind-Safe (Placed old []) (handle v (driver c ev)) next (handle-Settled v _) rest
  turn-Settled v (some (conn_closed c f)) next rest =
      bind-Safe (Placed old []) (handle v (conn_closed c f)) next (handle-Settled v _) rest

  tick-Settled : (v : Server h) (rs : List Ready) → Settled old (tick v rs)
  unfolding tick
  tick-Settled v [] = λ s p. p
  tick-Settled v (r ∷ rs) = turn-Settled v (select r) _ (λ w. tick-Settled w rs)

  use_once-Settled : (v : Server h) (u : Use php.Zval) → Settled old (use_once v u)
  use_once-Settled v (ticks rs) =
      bind-Safe (Placed old []) (tick v rs) _ (tick-Settled v rs) (λ w s p. p)
  use_once-Settled v closes_server = close_server-Settled old v
  use_once-Settled v (calls ms) =
      bind-Safe (Placed old []) (run_methods ms) _
        (run_methods-Safe (Placed old []) (Placed-IsStable old []) ms) (λ u s p. p)

  pub run_uses-Settled : (v : Server h) (us : List (Use php.Zval)) → Settled old (run_uses v us)
  unfolding run_uses
  run_uses-Settled v [] = λ s p. p
  run_uses-Settled v (u ∷ us) =
      bind-Safe (Placed old []) (use_once v u) _ (use_once-Settled v u) (λ w. run_uses-Settled w us)

module _ {h : Host} where
  open h use {php}

  pub start-Placed :
      (s : Store h) → ((c : ConnRef) → table s c ≡ []) → s.on_closes ≡ [] → Placed [] [] s
  start-Placed s empty none_closed = record {
    apart = λ c d r hc hd. absurd (omega (arith, hc, ap (λ m. count r (closes m)) (empty c)));
    single = λ c r. rw (empty, none_closed) (omega arith);
    below = λ c r above. rw (empty, none_closed) (omega arith);
    keeps = λ r. omega arith;
  }

  -- Whatever PHP code does, in callbacks and between the calls of the server, objects that it made
  -- up and a callback that hangs included: from empty tables of streams and no slot closed, any
  -- ticks, closes and method calls close each slot at most once, and one that was closed is
  -- in no connection's table.
  pub run_uses-once :
      (v : Server h) (us : List (Use php.Zval)) (s : Store h)
      → ((c : ConnRef) → table s c ≡ [])
      → s.on_closes ≡ []
      → (c : ConnRef) (r : SlotRef)
      → let t = (run_uses v us s).1 in count r (closes (table t c)) + count r t.on_closes ≤ 1
  run_uses-once v us s empty none_closed c r =
      omega (arith, (run_uses-Settled [] v us s (start-Placed s empty none_closed)).single c r)
