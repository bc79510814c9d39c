-- ===== src/Socket/Once.antt =====
-- Where the `on_close` slots are over the life of a server: in a table, taken out of one, or closed.
pub mod Methods
pub mod Taking
pub mod Handlers
pub mod Runs
pub mod Firing
pub mod Exactly
use ext_quiche.Base.{
  ℕ, suc, ◌+◌, ◌<◌, ◌≤◌, ◌≡◌, refl, inl, inr, Bool, true, false, Option, none, some, List, [], ◌∷◌,
  ◌==◌, Bool-cases, ==_iff, subst, if◌then◌else◌, arith,
}
use ext_quiche.Base.Map.{get, insert, remove}
use ext_quiche.Connection.{StreamId}
use ext_quiche.Stream.{SlotRef, ConnRef, StreamSlots, Host, Store}
use ext_quiche.Socket.Effects.{table}

abbrev pub Table : Type 0
Table = List (StreamId × StreamSlots)

abbrev pub one : SlotRef → SlotRef → ℕ
one x r = if x == r then 1 else 0

abbrev pub count : SlotRef → List SlotRef → ℕ
count r [] = 0
count r (x ∷ xs) = one x r + count r xs

abbrev pub closes : Table → List SlotRef
closes [] = []
closes ((id, slots) ∷ rest) = slots.on_close ∷ closes rest

pub insert_le :
    (id : StreamId) (e : StreamSlots) (m : Table) (r : SlotRef)
    → count r (closes (insert id e m)) ≤ one e.on_close r + count r (closes m)
unfolding insert
insert_le id e [] r = ground arith
insert_le id e ((j, w) ∷ m) r = ground (arith, insert_le id e m r)

pub remove_le :
    (id : StreamId) (m : Table) (r : SlotRef) → count r (closes (remove id m)) ≤ count r (closes m)
unfolding remove
remove_le id [] r = ground arith
remove_le id ((j, w) ∷ m) r = ground (arith, remove_le id m r)

-- The `on_close` slot of an entry.
abbrev pub closes_of : Option StreamSlots → List SlotRef
closes_of none = []
closes_of (some slots) = slots.on_close ∷ []

pub remove_taken :
    (id : StreamId) (m : Table) (r : SlotRef)
    → count r (closes_of (get id m)) + count r (closes (remove id m)) ≤ count r (closes m)
unfolding get remove
remove_taken id [] r = omega arith
remove_taken id ((j, w) ∷ m) r = ground (arith, remove_le id m r, remove_taken id m r)

-- A slot is in one table at most, and at most once there, taken out or closed; those from the next
-- one on are nowhere. What was closed before stays closed.
pub record Places (old : List SlotRef) (tables : ConnRef → Table) (taken closed : List SlotRef)
    (next : SlotRef) : Type 0 where
  pub apart :
      (c d : ConnRef) (r : SlotRef)
      → 1 ≤ count r (closes (tables c))
      → 1 ≤ count r (closes (tables d))
      → (c == d) ≡ true
  pub single :
      (c : ConnRef) (r : SlotRef)
      → count r (closes (tables c)) + (count r taken + count r closed) ≤ 1
  pub below :
      (c : ConnRef) (r : SlotRef)
      → next ≤ r
      → count r (closes (tables c)) + (count r taken + count r closed) ≡ 0
  pub keeps : (r : SlotRef) → count r old ≤ count r closed

pub Places-less :
    {f g : ConnRef → Table} {old xs ys xs' ys' : List SlotRef} {n n' : SlotRef}
    → Places old f xs ys n
    → ((c : ConnRef) (r : SlotRef) → count r (closes (g c)) ≤ count r (closes (f c)))
    → ((r : SlotRef) → count r xs' + count r ys' ≤ count r xs + count r ys)
    → ((r : SlotRef) → count r ys ≤ count r ys')
    → n ≤ n'
    → Places old g xs' ys' n'
Places-less p less fewer kept later = record {
  keeps = λ r. omega (arith, kept r, p.keeps r);
  apart = λ c d r hc hd. p.apart c d r (omega (arith, less c r)) (omega (arith, less d r));
  single = λ c r. omega (arith, less c r, fewer r, p.single c r);
  below = λ c r above. omega (arith, less c r, fewer r, p.below c r (omega arith));
}

-- Slots leave a table.
pub Places-take :
    {f g : ConnRef → Table} {old xs xs' ys : List SlotRef} {n : SlotRef} (k : ConnRef)
    → Places old f xs ys n
    → ((c : ConnRef) (r : SlotRef) → count r (closes (g c)) ≤ count r (closes (f c)))
    → ((r : SlotRef) → count r (closes (g k)) + count r xs' ≤ count r (closes (f k)) + count r xs)
    → Places old g xs' ys n
Places-take {f} {g} {old} {xs} {xs'} {ys} k p less moved = record {
  keeps = p.keeps;
  apart = λ c d r hc hd. p.apart c d r (omega (arith, less c r)) (omega (arith, less d r));
  single = λ c r. elim (Bool-cases (k == c)) [
    | inl same ↦
        subst (λ d. count r (closes (g d)) + (count r xs' + count r ys) ≤ 1) ((==_iff k c).0 same)
          (omega (arith, moved r, p.single k r))
    | inr other ↦
        ground (arith, other, less c r, moved r, p.single c r, p.single k r, p.apart k c r)
  ];
  below = λ c r above. omega (arith, less c r, moved r, p.below c r above, p.below k r above);
}

-- A new slot enters a table.
pub Places-enter :
    {f g : ConnRef → Table} {old xs ys : List SlotRef} {n n' : SlotRef} (k : ConnRef) (x : SlotRef)
    → Places old f xs ys n
    → n ≤ x
    → x < n'
    → ((c : ConnRef) (r : SlotRef)
        → count r (closes (g c)) ≤ (if k == c then one x r else 0) + count r (closes (f c)))
    → Places old g xs ys n'
Places-enter k x p new room enters = record {
  keeps = p.keeps;
  apart = λ c d r hc hd.
      ground (arith, p.apart c d r, enters c r, enters d r, p.below c r, p.below d r);
  single = λ c r. ground (arith, enters c r, p.single c r, p.below c r);
  below = λ c r above. ground (arith, enters c r, p.below c r);
}

pub Places-drop :
    {f : ConnRef → Table} {old xs ys : List SlotRef} {n : SlotRef}
    → Places old f xs ys n
    → Places old f [] ys n
Places-drop p =
    Places-less p (λ c r. omega arith) (λ r. omega arith) (λ r. omega arith) (omega arith)

abbrev pub Placed : {h : Host} → List SlotRef → List SlotRef → Store h → Type 0
Placed old taken s = Places old (table s) taken s.on_closes s.next_slot
