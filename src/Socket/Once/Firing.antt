-- ===== src/Socket/Once/Firing.antt =====
-- That a pass over the streams of a connection closes each of them.
use ext_quiche.Base.{
  ℕ, ◌≤◌, ◌≡◌, sym, ap, ◌∙◌, subst, inl, inr, Bool, false, some, List, [], ◌∷◌, ◌==◌, ==_refl,
  ==_iff, Bool-cases, arith,
}
use ext_quiche.Base.Map.{get}
use ext_quiche.Base.Loop.{some_injective}
use ext_quiche.External.Php.{Arguments, peer_closed}
use ext_quiche.Connection.{StreamId}
use ext_quiche.Stream.{
  SlotRef, ConnRef, StreamSlots, StreamObject, slot, callbacks, Outcome, ok, raised, deadlock, Host,
  Store, continue,
}
use ext_quiche.Stream.Methods.{set_callbacks}
use ext_quiche.Socket.{
  ConnState, call_slot, noted, fire_on_close, fire_all, close_streams, close_connections,
}
use ext_quiche.Socket.Effects.{table, CloseOnlyWrites}
use ext_quiche.Socket.Firing.{locked, with_lock_free, Table}
use ext_quiche.Socket.Closing.{close_streams_lem}
use ext_quiche.Socket.Stable.{IsStable, Safe, bind-Safe, with_lock-Safe, call_callback-Safe}
use ext_quiche.Socket.Once.{count}

module _ {h : Host} where
  -- The slot was closed at least so often.
  abbrev pub Fired : SlotRef → ℕ → Store h → Type 0
  Fired r n s = n ≤ count r s.on_closes

  Fired-IsStable : (r : SlotRef) (n : ℕ) → IsStable (Fired r n)
  Fired-IsStable r n = record {
    locks = λ s held p. p;
    sets = λ s x z p. p;
    writes = λ s c tx m p. p;
    makes = λ s p. p;
    enters = λ s c id p. p;
    calls = λ s z args p. p;
  }

  call_slot-Fired :
      (r : SlotRef) (n : ℕ) (x : SlotRef) (args : Arguments StreamObject)
      → Safe (Fired r n) (call_slot {h = h} x args)
  unfolding call_slot
  call_slot-Fired r n x args =
      with_lock-Safe (Fired r n) (Fired-IsStable r n) (slot x) _
        (λ s. call_callback-Safe (Fired r n) (Fired-IsStable r n) (s.slots x) args s)

  fire_on_close-Fired :
      (r : SlotRef) (n : ℕ) (x : SlotRef) (flag : Bool)
      → Safe (Fired r n) (fire_on_close {h = h} x flag)
  unfolding fire_on_close
  fire_on_close-Fired r n x flag s p =
      call_slot-Fired r n x (peer_closed flag) (noted x s) (omega (arith, p))

  pub fire_on_close_fires :
      (r : SlotRef) (flag : Bool) (s : Store h) → Fired r 1 (fire_on_close r flag s).1
  unfolding fire_on_close
  fire_on_close_fires r flag s =
      call_slot-Fired r 1 r (peer_closed flag) (noted r s) (rw (==_refl r) (omega arith))

  fire_all-Fired :
      (r : SlotRef) (n : ℕ) (flag : Bool) (m : Table) → Safe (Fired r n) (fire_all {h = h} flag m)
  unfolding fire_all
  fire_all-Fired r n flag [] = λ s p. p
  fire_all-Fired r n flag ((id, slots) ∷ m) =
      bind-Safe (Fired r n) (fire_on_close slots.on_close flag) _
        (fire_on_close-Fired r n slots.on_close flag) (λ u. fire_all-Fired r n flag m)

  close_streams-Fired :
      (r : SlotRef) (n : ℕ) (c : ConnRef) (flag : Bool)
      → Safe (Fired r n) (close_streams {h = h} c flag)
  unfolding close_streams
  close_streams-Fired r n c flag =
      with_lock-Safe (Fired r n) (Fired-IsStable r n) (callbacks c) _
        (λ s. fire_all-Fired r n flag (table s c) (set_callbacks c [] s))

  close_connections-Fired :
      (r : SlotRef) (n : ℕ) (cs : List (ℕ × ConnState))
      → Safe (Fired r n) (close_connections {h = h} cs)
  unfolding close_connections
  close_connections-Fired r n [] = λ s p. p
  close_connections-Fired r n ((id, state) ∷ rest) =
      bind-Safe (Fired r n) (close_streams state.conn false) _
        (close_streams-Fired r n state.conn false) (λ u. close_connections-Fired r n rest)

  -- A pass that ends has closed each stream of the table.
  fire_all_fires :
      (flag : Bool) (m : Table) (id : StreamId) (e : StreamSlots) (s : Store h)
      → get id m ≡ some e
      → (fire_all flag m s).0 ≡ ok tt
      → Fired e.on_close 1 (fire_all flag m s).1
  unfolding fire_all get
  fire_all_fires flag [] id e s found done = cc
  fire_all_fires flag ((j, slots) ∷ m) id e s found done =
      split (fire_on_close slots.on_close flag s) (fire_on_close_fires slots.on_close flag s)
        (λ t. fire_all_fires flag m id e t) done
    where
      split :
          (w : Outcome (Unit {0}) × Store h)
          → Fired slots.on_close 1 w.1
          → ((t : Store h)
              → get id m ≡ some e
              → (fire_all flag m t).0 ≡ ok tt
              → Fired e.on_close 1 (fire_all flag m t).1)
          → (continue w.0 (λ u. fire_all flag m) w.1).0 ≡ ok tt
          → Fired e.on_close 1 (continue w.0 (λ u. fire_all flag m) w.1).1
      split (ok a, t) p rest done = elim (Bool-cases (j == id)) [
        | inl same ↦
            subst (λ x. Fired x.on_close 1 (fire_all flag m t).1)
              (some_injective (rw same at found)) (fire_all-Fired slots.on_close 1 flag m t p)
        | inr other ↦ rest t (rw other at found) done
      ]
      split (raised, t) p rest done = cc
      split (deadlock, t) p rest done = cc

  pub close_streams_fires :
      (c : ConnRef) (flag : Bool) (id : StreamId) (e : StreamSlots) (s : Store h)
      → s.held ≡ []
      → get id (table s c) ≡ some e
      → (close_streams c flag s).0 ≡ ok tt
      → Fired e.on_close 1 (close_streams c flag s).1
  unfolding close_streams
  close_streams_fires c flag id e s free found done =
      rw (with_lock_free (callbacks c) _ s (rw free)) (
        fire_all_fires flag (table s c) id e (set_callbacks c [] (locked (callbacks c) s)) found
          (sym (ap (λ w. w.0) (with_lock_free (callbacks c) _ s (rw free))) ∙ done))

-- A connection with another table stands further on.
later :
    (i k : ℕ) (other state : ConnState)
    → (other.conn == state.conn) ≡ false
    → (cs : List (ℕ × ConnState)) → get k ((i, other) ∷ cs) ≡ some state
    → get k cs ≡ some state
unfolding get
later i k other state apart cs known = elim (Bool-cases (i == k)) [
  | inl same ↦ cc (some_injective (rw same at known), apart, ==_refl state.conn)
  | inr away ↦ rw away at known
]

module _ {h : Host} (calm : CloseOnlyWrites h) where
  -- Closing all connections closes each stream of each of them.
  pub close_connections_fires :
      (cs : List (ℕ × ConnState)) (conn_id : ℕ) (state : ConnState) (id : StreamId)
      (e : StreamSlots) (s : Store h)
      → s.held ≡ []
      → get conn_id cs ≡ some state
      → get id (table s state.conn) ≡ some e
      → Fired e.on_close 1 (close_connections cs s).1
  unfolding close_connections get
  close_connections_fires [] conn_id state id e s free known found = cc
  close_connections_fires ((i, other) ∷ cs) conn_id state id e s free known found =
      let (t, r, b) = close_streams_lem calm other.conn false s free in
      rw r (elim (Bool-cases (other.conn == state.conn)) [
        | inl same ↦ close_connections-Fired e.on_close 1 cs t (
            subst (λ w. Fired e.on_close 1 w.1) r
              (close_streams_fires other.conn false id e s free
                (subst (λ c. get id (table s c) ≡ some e)
                  (sym ((==_iff other.conn state.conn).0 same)) found)
                (ap (λ w. w.0) r)))
        | inr apart ↦
            close_connections_fires cs conn_id state id e t (b.held ∙ free)
              (later i conn_id other state apart cs known) (rw (b.tables state.conn, apart) found)
      ])
