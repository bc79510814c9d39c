-- ===== src/Socket/Tick/Fresh.antt =====
-- The ids of connections over whole runs of the loop.
use ext_quiche.Base.{
  ℕ, ◌+◌, ◌%◌, ◌^◌, ◌<◌, ◌≤◌, ◌≡◌, refl, ◌∙◌, Bool, true, false, ◌||◌, Option, none, some, List, [],
  ◌∷◌, length, ◌==◌, if◌then◌else◌, arith,
}
use ext_quiche.Base.Map.{get, get-insert, get-remove, IsMap, insert-IsMap, remove-IsMap}
use ext_quiche.Stream.{Host, Store, pure}
use ext_quiche.Socket.{ConnState, Server, build, dispatch_driver_event, on_new_conn, on_conn_closed}
use ext_quiche.Socket.Courtesy.{Courteous, Courteous-CloseOnlyWrites}
use ext_quiche.Socket.Closing.{Forgets, on_conn_closed-Forgets}
use ext_quiche.Socket.Tick.Returns.{Returns, Returns-then, dispatch-Returns}
use ext_quiche.Socket.Tick.{
  Event, new_conn, driver, conn_closed, timer, Ready, select, handle, turn, tick,
}

-- The id of the next connection is above all in use, so that an insertion replaces nothing.
pub record IsFresh {h : Host} (v : Server h) : Type 0 where
  pub is_map : IsMap v.connections
  pub below : (k : ℕ) → v.id_counter ≤ k → get k v.connections ≡ none

abbrev pub is_timer : Option Event → Bool
is_timer (some timer) = true
is_timer _ = false

-- Whether a turn selects the timer.
abbrev pub timer_fires : List Ready → Bool
timer_fires [] = false
timer_fires (r ∷ rs) = is_timer (select r) || timer_fires rs

either_same {ℓ} : {A : Type ℓ} (b : Bool) (a : A) → (if b then a else a) ≡ a
either_same true a = refl
either_same false a = refl

above : (n k : ℕ) → n + 1 < 2 ^ 64 → (n + 1) % 2 ^ 64 ≤ k → (n == k) ≡ false
above n k room le = ground arith

module _ {h : Host} where
  abbrev Next : Server h → Server h → Type 0
  Next v w = IsFresh w × (w.id_counter ≤ v.id_counter + 1)

  on_new_conn-IsFresh :
      (v : Server h) (peer_addr : ℕ) (s : Store h)
      → s.held ≡ []
      → v.id_counter + 1 < 2 ^ 64
      → IsFresh v
      → Returns (on_new_conn v peer_addr) s (Next v)
  unfolding on_new_conn build
  on_new_conn-IsFresh v peer_addr s free room f = (
    _,
    _,
    refl,
    free,
    (
      record {
        is_map = insert-IsMap v.id_counter _ v.connections f.is_map;
        below = λ k le.
            get-insert v.id_counter k _ v.connections
            ∙ rw (above v.id_counter k room le) (f.below k (omega arith));
      },
      omega arith,
    ),
  )

module _ {h : Host} (polite : Courteous h) where
  on_conn_closed-Returns :
      (v : Server h) (conn_id : ℕ) (flag : Bool) (s : Store h)
      → s.held ≡ []
      → IsFresh v
      → Returns (on_conn_closed v conn_id flag) s (Next v)
  on_conn_closed-Returns v conn_id flag s free f =
      split (get conn_id v.connections)
        (on_conn_closed-Forgets (Courteous-CloseOnlyWrites h polite) v conn_id flag s free)
    where
      split :
          (found : Option ConnState)
          → Forgets v conn_id flag s found
          → Returns (on_conn_closed v conn_id flag) s (Next v)
      split none e = (v, s, e, free, (f, omega arith))
      split (some state) (t, e, b) = (
        _,
        t,
        e,
        b.held ∙ free,
        (
          record {
            is_map = remove-IsMap conn_id v.connections f.is_map;
            below = λ k le.
                get-remove conn_id k v.connections
                ∙ rw (f.below k le) (either_same (conn_id == k) none);
          },
          omega arith,
        ),
      )

  handle-Returns :
      (v : Server h) (e : Event) (s : Store h)
      → s.held ≡ []
      → v.id_counter + 1 < 2 ^ 64
      → IsFresh v
      → Returns (handle v e) s (Next v)
  unfolding handle
  handle-Returns v (new_conn (some peer_addr)) s free room f =
      on_new_conn-IsFresh v peer_addr s free room f
  handle-Returns v (new_conn none) s free room f = (v, s, refl, free, (f, omega arith))
  handle-Returns v timer s free room f = (v, s, refl, free, (f, omega arith))
  handle-Returns v (conn_closed conn_id flag) s free room f =
      on_conn_closed-Returns v conn_id flag s free f
  handle-Returns v (driver conn_id ev) s free room f =
      Returns-then (dispatch_driver_event v conn_id ev) (λ u. pure v) s
        (dispatch-Returns polite v conn_id ev s free)
        (λ u t held p. (v, t, refl, held, (f, omega arith)))

  -- What a run over the given turns comes to.
  abbrev Done : Bool → Server h × Bool → Type 0
  Done fires w = IsFresh w.0 × (w.1 ≡ fires)

  turn-Returns :
      (v : Server h) (e : Option Event) (rest : List Ready) (s : Store h)
      → s.held ≡ []
      → v.id_counter + 1 < 2 ^ 64
      → IsFresh v
      → ((w : Server h) (t : Store h)
          → t.held ≡ []
          → Next v w
          → Returns (tick w rest) t (Done (timer_fires rest)))
      → Returns (turn v e (λ w. tick w rest)) s (Done (is_timer e || timer_fires rest))
  turn-Returns v none rest s free room f next = next v s free (f, omega arith)
  turn-Returns v (some timer) rest s free room f next = ((v, true), s, refl, free, (f, refl))
  turn-Returns v (some (new_conn a)) rest s free room f next =
      Returns-then (handle v (new_conn a)) (λ w. tick w rest) s
        (handle-Returns v (new_conn a) s free room f) next
  turn-Returns v (some (driver c ev)) rest s free room f next =
      Returns-then (handle v (driver c ev)) (λ w. tick w rest) s
        (handle-Returns v (driver c ev) s free room f) next
  turn-Returns v (some (conn_closed c flag)) rest s free room f next =
      Returns-then (handle v (conn_closed c flag)) (λ w. tick w rest) s
        (handle-Returns v (conn_closed c flag) s free room f) next

  -- Where the callback for new streams does anything, those for data set no callback, and those for
  -- the end of a stream only write and close, with no lock held, an id counter that does not wrap
  -- within the turns, and ids in use that are distinct and below the counter: the loop deals with
  -- all its turns without a deadlock, leaves through the timer just where one of them selects it,
  -- and the ids in use are distinct and below the counter afterwards.
  pub tick-IsFresh :
      (v : Server h) (rs : List Ready) (s : Store h)
      → s.held ≡ []
      → v.id_counter + length rs < 2 ^ 64
      → IsFresh v
      → Returns (tick v rs) s (λ w. IsFresh w.0 × (w.1 ≡ timer_fires rs))
  unfolding tick
  tick-IsFresh v [] s free room f = ((v, false), s, refl, free, (f, refl))
  tick-IsFresh v (r ∷ rs) s free room f =
      turn-Returns v (select r) rs s free (omega arith) f
        (λ w t held n. tick-IsFresh w rs t held (within n.1 room) n.0)
    where
      within :
          {i : ℕ}
          → i ≤ v.id_counter + 1
          → v.id_counter + length (r ∷ rs) < 2 ^ 64
          → i + length rs < 2 ^ 64
      within le room = omega arith
