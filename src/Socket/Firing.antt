-- ===== src/Socket/Firing.antt =====
-- Calls of callbacks under locks, and the passes over all streams of a connection.
use ext_quiche.Base.{◌≡◌, refl, ap, ◌∙◌, subst, Bool, true, false, Option, List, [], ◌∷◌, ◌++◌}
use ext_quiche.External.Php.{Arguments, peer_closed}
use ext_quiche.Connection.{StreamId}
use ext_quiche.Stream.{
  SlotRef, ConnRef, StreamSlots, StreamObject, Lock, slot, deadlock, Host, Store, Exec, with_lock,
  holds, release, ◌>>=◌, gets,
}
use ext_quiche.Stream.Methods.{call_callback}
use ext_quiche.Socket.{call_slot, noted, fire_on_close, fire_all}
use ext_quiche.Socket.Effects.{
  Call, table, Effect-refl, Does, Does-then, OnlyWrites, CloseOnlyWrites, called,
  call_callback-Does,
}

-- The calls that a pass over streams makes, in the order of the table.
abbrev pub fired :
    (h : Host)
    → (SlotRef → Option h.php.Zval)
    → Bool
    → List (StreamId × StreamSlots)
    → List (Call h)
fired h slots flag [] = []
fired h slots flag ((id, e) ∷ rest) =
    called h (slots e.on_close) (peer_closed flag) ++ fired h slots flag rest

abbrev pub Table : Type 0
Table = List (StreamId × StreamSlots)

module _ {h : Host} where
  abbrev pub locked : Lock → Store h → Store h
  locked l s = record s { held = l ∷ s.held }

  abbrev pub unlocked : Store h → Store h
  unlocked t = record t { held = release t.held }

  pub with_lock_free {ℓ} :
      {A : Type ℓ} (l : Lock) (m : Exec h A) (s : Store h)
      → holds l s.held ≡ false
      → with_lock l m s ≡ ((m (locked l s)).0, unlocked (m (locked l s)).1)
  unfolding with_lock
  with_lock_free l m s free = rw (free, with_lock)

  pub with_lock_held {ℓ} :
      {A : Type ℓ} (l : Lock) (m : Exec h A) (s : Store h)
      → holds l s.held ≡ true
      → with_lock l m s ≡ (deadlock, s)
  unfolding with_lock
  with_lock_held l m s taken = rw (taken, with_lock)

  -- The tables become `new`, and the given calls were made: locks and slots are as before.
  pub record Becomes (s t : Store h) (new : ConnRef → Table) (news : List (Call h)) : Type 0 where
    pub held : t.held ≡ s.held
    pub slots : t.slots ≡ s.slots
    pub tables : (c : ConnRef) → table t c ≡ new c
    pub calls : t.calls ≡ s.calls ++ news

  pub with_lock-Does :
      (l : Lock) (m : Exec h (Unit {0})) (s : Store h) (news : List (Call h))
      → holds l s.held ≡ false
      → Does m (locked l s) news
      → Does (with_lock l m) s news
  with_lock-Does l m s news free (t, e, f) = (
    unlocked t,
    with_lock_free l m s free ∙ rw e,
    record { held = ap release f.held; slots = f.slots; tables = f.tables; calls = f.calls },
  )

  pub call_slot-Does :
      (args : Arguments StreamObject) (calm : OnlyWrites h args) (r : SlotRef) (s : Store h)
      → holds (slot r) s.held ≡ false
      → Does (call_slot r args) s (called h (s.slots r) args)
  unfolding call_slot
  call_slot-Does args calm r s free =
      with_lock-Does (slot r) (gets (λ s. s.slots r) >>= λ z. call_callback z args) s _ free
        (call_callback-Does args calm (s.slots r) (locked (slot r) s))

  module _ (calm : CloseOnlyWrites h) where
    pub fire_on_close-Does :
        (r : SlotRef) (flag : Bool) (s : Store h)
        → holds (slot r) s.held ≡ false
        → Does (fire_on_close r flag) s (called h (s.slots r) (peer_closed flag))
    unfolding fire_on_close
    fire_on_close-Does r flag s free =
        let (t, e, f) = call_slot-Does (peer_closed flag) (calm flag) r (noted r s) free in
        (t, e, record { held = f.held; slots = f.slots; tables = f.tables; calls = f.calls })

    pub fire_all-Does :
        (flag : Bool) (entries : List (StreamId × StreamSlots)) (s : Store h)
        → ((r : SlotRef) → holds (slot r) s.held ≡ false)
        → Does (fire_all flag entries) s (fired h s.slots flag entries)
    unfolding fire_all
    fire_all-Does flag [] s free = (s, refl, Effect-refl s)
    fire_all-Does flag ((id, e) ∷ rest) s free =
        let first : Does (fire_on_close e.on_close flag) s
            (called h (s.slots e.on_close) (peer_closed flag)) =
          fire_on_close-Does e.on_close flag s (free e.on_close) in
        Does-then (fire_on_close e.on_close flag) (fire_all flag rest) first (
          subst (λ slots. Does (fire_all flag rest) first.0 (fired h slots flag rest)) first.2.slots
            (fire_all-Does flag rest first.0 (λ r. rw first.2.held (free r))))
