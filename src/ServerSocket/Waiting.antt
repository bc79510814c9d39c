-- ===== src/ServerSocket/Waiting.antt =====
-- `tick` where there is no `EventFd`.
use ext_quiche.Base.{
  ◌≡◌, ◌≢◌, refl, sym, subst, Bool, false, true, Option, none, some, List, [], ◌∷◌, map,
}
use ext_quiche.External.Io.{Result, ok, err, Machine}
use ext_quiche.External.Net.{Platform}
use ext_quiche.Error.{QuicheError}
use ext_quiche.Runtime.{get_runtime}
use ext_quiche.Stream.{Outcome, Host, Store, Exec, continue}
use ext_quiche.Socket.{Server}
use ext_quiche.Socket.Tick.{
  Event, new_conn, driver, conn_closed, timer, Ready, select, handle, turn, tick,
}
use ext_quiche.ServerSocket.{
  QuicheServerSocket, Thread, Ticked, finished, timer_arm, process_of, with_process, ticked, drive,
  tick_socket,
}

-- Not the timer.
abbrev NoTimer : Option Event → Type 0
NoTimer (some timer) = ⊥
NoTimer _ = Unit

select-NoTimer :
    (a : _) (b : _) (c : _)
    → NoTimer (select (record { server_event = a; conn_close = b; listener = c; event_fd = false }))
unfolding select
select-NoTimer (some x) b c = tt
select-NoTimer none (some x) c = tt
select-NoTimer none none (some x) = tt
select-NoTimer none none none = tt

module _ {h : Host} where
  -- A loop that was not left by the timer.
  abbrev Stays : Outcome (Server h × Bool) × Store h → Type 0
  Stays (Outcome.ok (v, flag), s) = flag ≡ false
  Stays (Outcome.raised, s) = Unit
  Stays (Outcome.deadlock, s) = Unit

  continue-Stays :
      (r : Outcome (Server h)) (f : Server h → Exec h (Server h × Bool)) (s : Store h)
      → ((v : Server h) (t : Store h) → Stays (f v t))
      → Stays (continue r f s)
  continue-Stays (Outcome.ok v) f s next = next v s
  continue-Stays Outcome.raised f s next = tt
  continue-Stays Outcome.deadlock f s next = tt

  turn-Stays :
      (v : Server h) (e : Option Event) (f : Server h → Exec h (Server h × Bool)) (s : Store h)
      → NoTimer e
      → ((w : Server h) (t : Store h) → Stays (f w t))
      → Stays (turn v e f s)
  turn-Stays v none f s other next = next v s
  turn-Stays v (some timer) f s other next = absurd other
  turn-Stays v (some (new_conn a)) f s other next =
      let (r, t) = handle v (new_conn a) s in continue-Stays r f t next
  turn-Stays v (some (driver c ev)) f s other next =
      let (r, t) = handle v (driver c ev) s in continue-Stays r f t next
  turn-Stays v (some (conn_closed c flag)) f s other next =
      let (r, t) = handle v (conn_closed c flag) s in continue-Stays r f t next

  tick-Stays :
      (v : Server h) (rs : List Ready) (s : Store h) → Stays (tick v (map (timer_arm none) rs) s)
  unfolding tick
  tick-Stays v [] s = refl
  tick-Stays v (r ∷ rs) s =
      turn-Stays v (select (timer_arm none r)) (λ w. tick w (map (timer_arm none) rs)) s
        (select-NoTimer r.server_event r.conn_close r.listener) (λ w t. tick-Stays w rs t)

module _ (pl : Platform) where
  abbrev IsNotBack : Outcome (Ticked pl) → Type 0
  IsNotBack (Outcome.ok (finished o)) = ⊥
  IsNotBack _ = Unit

  ticked-IsNotBack :
      (o : QuicheServerSocket pl) (r : Outcome (Server pl.host × Bool)) (store : Store pl.host)
      (s : Thread pl)
      → Stays (r, store)
      → IsNotBack (ticked pl o (r, store) s).0
  ticked-IsNotBack o (Outcome.ok (v, true)) store s h = absurd cc
  ticked-IsNotBack o (Outcome.ok (v, false)) store s h = tt
  ticked-IsNotBack o Outcome.raised store s h = tt
  ticked-IsNotBack o Outcome.deadlock store s h = tt

  drive-IsNotBack :
      (rt : Result pl.tokio.Runtime (QuicheError pl.io)) (o : QuicheServerSocket pl)
      (turns : List Ready) (s : Thread pl)
      → o.event_fd ≡ none
      → IsNotBack (drive pl rt o turns s).0
  drive-IsNotBack (err e) o turns s none_held = tt
  drive-IsNotBack (ok rt) o turns s none_held =
      subst (λ fd. IsNotBack (ticked pl o (tick o.inner (map (timer_arm fd) turns) s.store) s).0)
        (sym none_held)
        (let (r, store) = tick o.inner (map (timer_arm none) turns) s.store in
          ticked-IsNotBack o r store s (tick-Stays o.inner turns s.store))

  -- Where the object has no `EventFd`, `tick` does not come back from its loop, whatever the turns of
  -- the loop find ready.
  pub tick_without_event_fd :
      (m : Machine) (o p : QuicheServerSocket pl) (turns : List Ready) (s : Thread pl)
      → o.event_fd ≡ none
      → (tick_socket pl m o turns s).0 ≢ Outcome.ok (finished p)
  unfolding tick_socket
  tick_without_event_fd m o p turns s none_held e =
      let (rt, process) = get_runtime pl.tokio m (process_of s) in
      subst IsNotBack e (drive-IsNotBack rt o turns (with_process process s) none_held)
