-- ===== src/Socket/Once/Taking.antt =====
-- Slots that are taken out of a table, and closed.
use ext_quiche.Base.{
  ◌+◌, ◌≤◌, sym, inl, inr, Bool, List, [], ◌∷◌, ◌==◌, Bool-cases, ==_iff, ==_refl, arith,
}
use ext_quiche.Base.Map.{get, remove}
use ext_quiche.External.Php.{Arguments, peer_closed}
use ext_quiche.Connection.{StreamId}
use ext_quiche.Stream.{
  SlotRef, ConnRef, StreamObject, slot, Lock, callbacks, Outcome, ok, raised, deadlock, Host, Store,
  Exec, with_lock, continue, holds,
}
use ext_quiche.Stream.Methods.{set_callbacks}
use ext_quiche.Socket.{call_slot, noted, fire_on_close, take_slots, fire_all, close_streams}
use ext_quiche.Socket.Effects.{table}
use ext_quiche.Socket.Firing.{locked, unlocked}
use ext_quiche.Socket.Closing.{table-set_callbacks}
use ext_quiche.Socket.Once.{
  Table, Placed, Places-less, Places-take, Places-drop, count, closes, closes_of, remove_taken,
}
use ext_quiche.Socket.Once.Methods.{Placed-IsStable}
use ext_quiche.Socket.Stable.{Safe, with_lock_holds, with_lock-Safe, call_callback-Safe}

module _ {h : Host} (old : List SlotRef) where
  -- Nothing is taken out of a table and not closed, before and after.
  abbrev pub Settled {ℓ} : {A : Type ℓ} → Exec h A → Type 0
  Settled = Safe (Placed old [])

  abbrev pub Leaves {ℓ} : {A : Type ℓ} → (A → List SlotRef) → Outcome A × Store h → Type 0
  Leaves taken (ok a, t) = Placed old (taken a) t
  Leaves taken (raised, t) = Placed old [] t
  Leaves taken (deadlock, t) = Placed old [] t

  pub bind-Leaves {ℓ κ} :
      {A : Type ℓ} {B : Type κ} (taken : A → List SlotRef) (w : Outcome A × Store h)
      (f : A → Exec h B)
      → Leaves taken w
      → ((a : A) (t : Store h) → Placed old (taken a) t → Placed old [] (f a t).1)
      → Placed old [] (continue w.0 f w.1).1
  bind-Leaves taken (ok a, t) f p rest = rest a t p
  bind-Leaves taken (raised, t) f p rest = p
  bind-Leaves taken (deadlock, t) f p rest = p

  -- What stays taken whatever the action comes to.
  Placed-Leaves {ℓ} :
      {A : Type ℓ} (taken : List SlotRef) (w : Outcome A × Store h)
      → Placed old taken w.1
      → Leaves (λ a. taken) w
  Placed-Leaves taken (ok a, t) p = p
  Placed-Leaves taken (raised, t) p = Places-drop p
  Placed-Leaves taken (deadlock, t) p = Places-drop p

  pub call_slot-Placed :
      (taken : List SlotRef) (r : SlotRef) (args : Arguments StreamObject)
      → Safe (Placed old taken) (call_slot {h = h} r args)
  unfolding call_slot
  call_slot-Placed taken r args =
      with_lock-Safe (Placed old taken) (Placed-IsStable old taken) (slot r) _
        (λ s. call_callback-Safe (Placed old taken) (Placed-IsStable old taken) (s.slots r) args s)

  pub fire_on_close-Placed :
      (r : SlotRef) (flag : Bool) (taken : List SlotRef) (s : Store h)
      → Placed old (r ∷ taken) s
      → Placed old taken (fire_on_close r flag s).1
  unfolding fire_on_close
  fire_on_close-Placed r flag taken s p =
      call_slot-Placed taken r (peer_closed flag) (noted r s)
        (Places-less p (λ c j. omega arith) (λ j. omega arith) (λ j. omega arith) (omega arith))

  fire_all-Placed :
      (flag : Bool) (m : Table) (s : Store h)
      → Placed old (closes m) s
      → Placed old [] (fire_all flag m s).1
  unfolding fire_all
  fire_all-Placed flag [] s p = p
  fire_all-Placed flag ((id, slots) ∷ m) s p =
      bind-Leaves (λ a. closes m) (fire_on_close slots.on_close flag s) _
        (Placed-Leaves (closes m) (fire_on_close slots.on_close flag s)
          (fire_on_close-Placed slots.on_close flag (closes m) s p))
        (λ a t. fire_all-Placed flag m t)

  set_less :
      (c : ConnRef) (m : Table) (s : Store h)
      → ((r : SlotRef) → count r (closes m) ≤ count r (closes (table s c)))
      → (d : ConnRef) (r : SlotRef)
      → count r (closes (table (set_callbacks c m s) d)) ≤ count r (closes (table s d))
  set_less c m s less d r = rw (table-set_callbacks c d m s) (elim (Bool-cases (c == d)) [
    | inl same ↦ rw (same, sym ((==_iff c d).0 same)) (less r)
    | inr other ↦ rw other (omega arith)
  ])

  -- A table is replaced by a smaller one, and what left it is taken.
  set_callbacks-Placed :
      (c : ConnRef) (m : Table) (taken : List SlotRef) (s : Store h)
      → Placed old [] s
      → ((r : SlotRef) → count r taken + count r (closes m) ≤ count r (closes (table s c)))
      → Placed old taken (set_callbacks c m s)
  set_callbacks-Placed c m taken s p moved =
      Places-take c p (set_less c m s (λ r. omega (arith, moved r)))
        (λ r. rw (table-set_callbacks c c m s, ==_refl c) (omega (arith, moved r)))

  pub close_streams-Settled : (c : ConnRef) (flag : Bool) → Settled (close_streams c flag)
  unfolding close_streams
  close_streams-Settled c flag s p =
      with_lock_holds (Placed old []) (Placed-IsStable old []) (callbacks c) _ s p (
        fire_all-Placed flag (table s c) (set_callbacks c [] (locked (callbacks c) s)) (
          set_callbacks-Placed c [] (closes (table s c)) (locked (callbacks c) s) p
            (λ r. omega arith)))

  with_lock-Leaves {ℓ} :
      {A : Type ℓ} (taken : A → List SlotRef) (l : Lock) (m : Exec h A) (s : Store h)
      → Placed old [] s
      → Leaves taken (m (locked l s))
      → Leaves taken (with_lock l m s)
  unfolding with_lock
  with_lock-Leaves {A = A} taken l m s p q = elim (Bool-cases (holds l s.held)) [
    | inl held ↦ rw (held, with_lock) p
    | inr free ↦ rw (free, with_lock) (unlock (m (locked l s)) q)
  ]
    where
      unlock : (w : Outcome A × Store h) → Leaves taken w → Leaves taken (w.0, unlocked w.1)
      unlock (ok a, t) q = q
      unlock (raised, t) q = q
      unlock (deadlock, t) q = q

  pub take_slots-Leaves :
      (c : ConnRef) (id : StreamId) (s : Store h)
      → Placed old [] s
      → Leaves closes_of (take_slots c id s)
  unfolding take_slots
  take_slots-Leaves c id s p = with_lock-Leaves closes_of (callbacks c) _ s p (
      set_callbacks-Placed c (remove id (table s c)) (closes_of (get id (table s c)))
        (locked (callbacks c) s) p (λ r. remove_taken id (table s c) r))
