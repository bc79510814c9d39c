-- ===== src/Socket/Courtesy/Tables.antt =====
-- Locks, slots and tables under methods that take no lock which is held.
use ext_quiche.Base.{
  suc, ◌≡◌, ◌≢◌, refl, sym, ap, inl, inr, Bool-cases, false, none, some, List, [], append-nil, ◌==◌,
  ==_iff, ==_refl, subst,
}
use ext_quiche.Base.Map.{get, insert, get-insert}
use ext_quiche.Connection.{StreamId}
use ext_quiche.Stream.{
  SlotRef, ConnRef, StreamSlots, slot, callbacks, Lock, Outcome, ok, raised, deadlock, Host, Store,
  Exec, holds, continue, ◌>>=◌, pure, with_lock, modify, release, update,
}
use ext_quiche.Stream.Methods.{install_slot, register, make_slot_pair, set_callbacks}
use ext_quiche.Socket.Effects.{table}
use ext_quiche.Socket.Firing.{with_lock_free, locked}
use ext_quiche.Socket.Closing.{table-set_callbacks}
use ext_quiche.Socket.Courtesy.{Extends, Extends-refl, Quiet}

insert_keeps :
    (id j : StreamId) (e : StreamSlots) (m : List (StreamId × StreamSlots))
    → get j m ≢ none
    → get j (insert id e m) ≢ none
insert_keeps id j e m there =
    rw (get-insert id j e m)
      (elim (Bool-cases (id == j)) [ inl same ↦ rw same (λ e. cc) | inr other ↦ rw other there ])

insert_there :
    (id : StreamId) (e : StreamSlots) (m : List (StreamId × StreamSlots))
    → get id (insert id e m) ≢ none
insert_there id e m = rw (get-insert id id e m, ==_refl id) (λ e. cc)

module _ {h : Host} where
  open h use {php}

  -- A return value does not change what a call does.
  pub Quiet-pure {ℓ κ} :
      {A : Type ℓ} {B : Type κ} (m : Exec h A) (f : A → B) (s : Store h)
      → Quiet (m s) s
      → Quiet ((m >>= λ a. pure (f a)) s) s
  Quiet-pure m f s q = split (m s) q
    where
      split : (w : Outcome _ × Store h) → Quiet w s → Quiet (continue w.0 (λ a. pure (f a)) w.1) s
      split (ok a, t) q = ((λ e. cc), q.1)
      split (raised, t) q = ((λ e. cc), q.1)
      split (deadlock, t) q = absurd (q.0 refl)

  with_lock-Quiet {ℓ} :
      {A : Type ℓ} (l : Lock) (m : Exec h A) (s : Store h)
      → holds l s.held ≡ false
      → Quiet (m (locked l s)) (locked l s)
      → Quiet (with_lock l m s) s
  with_lock-Quiet l m s free q =
      rw (with_lock_free l m s free)
        (q.0, record { held = ap release q.1.held; calls = q.1.calls; keeps = q.1.keeps })

  pub install_slot-Quiet :
      (r : SlotRef) (z : php.Zval) (s : Store h)
      → holds (slot r) s.held ≡ false
      → Quiet (install_slot r z s) s
  unfolding install_slot
  install_slot-Quiet r z s free = elim (Bool-cases (php.is_callable z)) [
    | inl good ↦ rw good (
        with_lock-Quiet (slot r) (modify (λ s. record s { slots = update s.slots r (some z) })) s
          free
          (
            (λ e. cc),
            record { held = refl; calls = sym (append-nil s.calls); keeps = λ c j there. there },
          ))
    | inr bad ↦ rw bad ((λ e. cc), Extends-refl s)
  ]

  register_keeps :
      (c d : ConnRef) (id j : StreamId) (e : StreamSlots) (s : Store h)
      → get j (table s d) ≢ none
      → get j (table (set_callbacks c (insert id e (table s c)) s) d) ≢ none
  register_keeps c d id j e s there =
      rw (table-set_callbacks c d (insert id e (table s c)) s) (elim (Bool-cases (c == d)) [
        | inl same ↦ rw same (
            insert_keeps id j e (table s c)
              (subst (λ x. get j (table s x) ≢ none) (sym ((==_iff c d).0 same)) there))
        | inr other ↦ rw other there
      ])

  pub register-Extends :
      (c : ConnRef) (id : StreamId) (e : StreamSlots) (s : Store h)
      → holds (callbacks c) s.held ≡ false
      → (t : Store h) × (register c id e s ≡ (ok tt, t))
        × Extends s t []
        × (get id (table t c) ≢ none)
  unfolding register
  register-Extends c id e s free = (
    _,
    with_lock_free (callbacks c) _ s free,
    record {
      held = refl;
      calls = sym (append-nil s.calls);
      keeps = λ d j there. register_keeps c d id j e s there;
    },
    rw (table-set_callbacks c c (insert id e (table s c)) s, ==_refl c)
        (insert_there id e (table s c)),
  )

  -- Two fresh slots, and then the entry.
  pub prepared-Quiet {ℓ} :
      {A : Type ℓ} (c : ConnRef) (id : StreamId) (f : SlotRef × SlotRef → A) (s : Store h)
      → holds (callbacks c) s.held ≡ false
      → Quiet
          ((make_slot_pair >>= λ pair.
              register c id (record { on_data = pair.0; on_close = pair.1 }) >>= λ u. pure (f pair))
            s)
          s
  unfolding make_slot_pair
  prepared-Quiet c id f s free =
      let (t, e, x, there) =
        register-Extends c id (record { on_data = s.next_slot; on_close = suc s.next_slot })
          (make_slot_pair {h = h} s).1 free in
      rw e ((λ e. cc), record { held = x.held; calls = x.calls; keeps = x.keeps })
