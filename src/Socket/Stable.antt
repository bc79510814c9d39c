-- ===== src/Socket/Stable.antt =====
-- What callbacks keep whatever they do: the properties of the store that each primitive move keeps.
use ext_quiche.Base.{ℕ, suc, inl, inr, Option, none, some, List, Bool-cases}
use ext_quiche.Base.Map.{insert}
use ext_quiche.External.Php.{Method, Arguments}
use ext_quiche.Connection.{StreamId, StreamWriter}
use ext_quiche.Stream.{
  SlotRef, ConnRef, StreamSlots, StreamObject, slot, Lock, callbacks, update, Outcome, ok, raised,
  deadlock, Host, Store, Exec, ◌>>=◌, ◌>>◌, with_lock, continue, holds,
}
use ext_quiche.Stream.Methods.{
  install_slot, send_chunk, make_slot_pair, set_callbacks, register, run_methods, call_callback,
  calling,
}
use ext_quiche.Socket.Effects.{table, with_tx}
use ext_quiche.Socket.Callbacks.{IsRule, catching, run_methods_good, call_callback_good}
use ext_quiche.Socket.Firing.{locked}

module _ {h : Host} where
  open h use {php, writes}

  -- The slots that are made next.
  abbrev pub new_slots : Store h → StreamSlots
  new_slots s = record { on_data = s.next_slot; on_close = suc s.next_slot }

  abbrev pub with_pair : Store h → Store h
  with_pair s = record s {
    slots = update (update s.slots s.next_slot none) (suc s.next_slot) none;
    next_slot = suc (suc s.next_slot);
  }

  module _ (P : Store h → Type 0) where
    -- What `P` bears: locks are taken and dropped, slots set, writes tried, slots made and perhaps
    -- entered into a table, and callbacks called.
    pub record IsStable : Type 0 where
      pub locks : (s : Store h) (held : List Lock) → P s → P (record s { held = held })
      pub sets :
          (s : Store h) (r : SlotRef) (z : php.Zval)
          → P s
          → P (record s { slots = update s.slots r (some z) })
      pub writes :
          (s : Store h) (c : ConnRef) (tx : writes.Tx) (n : ℕ)
          → P s
          → P (with_tx c (record (s.conns c) { write_tx = tx; notified = n }) s)
      pub makes : (s : Store h) → P s → P (with_pair s)
      pub enters :
          (s : Store h) (c : ConnRef) (id : StreamId)
          → P s
          → P (set_callbacks c (insert id (new_slots s) (table s c)) (with_pair s))
      pub calls :
          (s : Store h) (z : php.Zval) (args : Arguments StreamObject) → P s → P (calling z args s)

    -- Whatever the action comes to, it keeps `P`.
    abbrev pub Safe {ℓ} : {A : Type ℓ} → Exec h A → Type 0
    Safe m = (s : Store h) → P s → P (m s).1

    pub bind-Safe {ℓ κ} :
        {A : Type ℓ} {B : Type κ} (m : Exec h A) (f : A → Exec h B)
        → Safe m
        → ((a : A) → Safe (f a))
        → Safe (m >>= f)
    bind-Safe {A = A} m f hm hf s p = split (m s) (hm s p)
      where
        split : (w : Outcome A × Store h) → P w.1 → P (continue w.0 f w.1).1
        split (ok a, t) q = hf a t q
        split (raised, t) q = q
        split (deadlock, t) q = q

    catch-Safe :
        {A : Type 0} (m : Exec h A) (n : Exec h (Unit {0})) → Safe m → Safe n → Safe (catching m n)
    catch-Safe {A} m n hm hn s p = split (m s) (hm s p)
      where
        split :
            (w : Outcome A × Store h)
            → P w.1
            → let after : Outcome (Unit {0}) × Store h = elim w.0 [
              | deadlock ↦ (deadlock, w.1)
              | _ ↦ n w.1
            ] in
              P after.1
        split (ok a, t) q = hn t q
        split (raised, t) q = hn t q
        split (deadlock, t) q = q

    module _ (k : IsStable) where
      pub with_lock_holds {ℓ} :
          {A : Type ℓ} (l : Lock) (m : Exec h A) (s : Store h)
          → P s
          → P (m (locked l s)).1
          → P (with_lock l m s).1
      unfolding with_lock
      with_lock_holds l m s p q = elim (Bool-cases (holds l s.held)) [
        | inl held ↦ rw (held, with_lock) p
        | inr free ↦ rw (free, with_lock) (k.locks _ _ q)
      ]

      pub with_lock-Safe {ℓ} :
          {A : Type ℓ} (l : Lock) (m : Exec h A) → Safe m → Safe (with_lock l m)
      with_lock-Safe l m hm s p = with_lock_holds l m s p (hm (locked l s) (k.locks s _ p))

      install_slot-Safe : (r : SlotRef) (z : php.Zval) → Safe (install_slot r z)
      unfolding install_slot
      install_slot-Safe r z s p = elim (Bool-cases (php.is_callable z)) [
        | inl good ↦ rw (good, install_slot) (with_lock-Safe (slot r) _ (λ s p. k.sets s r z p) s p)
        | inr bad ↦ rw (bad, install_slot) p
      ]

      send_chunk-Safe : (c : ConnRef) (m : StreamWriter) → Safe (send_chunk c m)
      unfolding send_chunk
      send_chunk-Safe c m s p = elim (Bool-cases (writes.try_send m (s.conns c).write_tx).0) [
        | inl sent ↦ rw (sent, send_chunk) (k.writes s c _ _ p)
        | inr full ↦ rw (full, send_chunk) (k.writes s c _ _ p)
      ]

      registered :
          (c : ConnRef) (id : StreamId) (s : Store h)
          → P s
          → P (register c id (new_slots s) (with_pair s)).1
      unfolding register
      registered c id s p =
          with_lock_holds (callbacks c) _ (with_pair s) (k.makes s p)
            (k.enters (locked (callbacks c) s) c id (k.locks s _ p))

      -- Two new slots are registered before anything else happens.
      pub prepared-Safe {ℓ} :
          {A : Type ℓ} (c : ConnRef) (id : StreamId) (f : SlotRef × SlotRef → Exec h A)
          → ((pair : SlotRef × SlotRef) → Safe (f pair))
          → Safe (do
            pair ← make_slot_pair
            register c id (record { on_data = pair.0; on_close = pair.1 })
            f pair)
      unfolding make_slot_pair
      prepared-Safe {A = A} c id f hf s p = split (register c id _ _) (registered c id s p)
        where
          split :
              (w : Outcome (Unit {0}) × Store h)
              → P w.1
              → P (continue w.0 (λ _. f (s.next_slot, suc s.next_slot)) w.1).1
          split (ok a, t) q = hf (s.next_slot, suc s.next_slot) t q
          split (raised, t) q = q
          split (deadlock, t) q = q

      Safe-IsRule : IsRule (λ A m. Safe m)
      Safe-IsRule = record {
        pure = λ A a s p. p;
        raise = λ A s p. p;
        bind = bind-Safe;
        install_slot = install_slot-Safe;
        send_chunk = send_chunk-Safe;
        prepared = prepared-Safe;
        catch = catch-Safe;
        calls = λ z args hms s p. hms _ (calling z args s) (k.calls s z args p);
      }

      pub run_methods-Safe : (ms : List (StreamObject × Method php.Zval)) → Safe (run_methods ms)
      run_methods-Safe = run_methods_good (λ A m. Safe m) Safe-IsRule

      pub call_callback-Safe :
          (z : Option php.Zval) (args : Arguments StreamObject) → Safe (call_callback z args)
      call_callback-Safe = call_callback_good (λ A m. Safe m) Safe-IsRule
