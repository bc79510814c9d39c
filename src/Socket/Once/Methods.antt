-- ===== src/Socket/Once/Methods.antt =====
-- No method of a stream object moves a slot that is known, whatever objects it is called on.
use ext_quiche.Base.{
  ℕ, suc, ◌+◌, ◌≤◌, sym, inl, inr, List, ◌==◌, Bool-cases, ==_iff, if◌then◌else◌, arith,
}
use ext_quiche.Base.Map.{insert}
use ext_quiche.Connection.{StreamId}
use ext_quiche.Stream.{SlotRef, ConnRef, StreamSlots, Host, Store}
use ext_quiche.Stream.Methods.{set_callbacks}
use ext_quiche.Socket.Effects.{table, with_tx, table-with_tx}
use ext_quiche.Socket.Closing.{table-set_callbacks}
use ext_quiche.Socket.Once.{Placed, Places-less, Places-enter, count, closes, one, insert_le}
use ext_quiche.Socket.Stable.{IsStable, new_slots}

module _ {h : Host} where
  open h use {php, writes}

  with_tx-Placed :
      (c : ConnRef) (tx : writes.Tx) (n : ℕ) (old taken : List SlotRef) (s : Store h)
      → Placed old taken s
      → Placed old taken (with_tx c (record (s.conns c) { write_tx = tx; notified = n }) s)
  with_tx-Placed c tx n old taken s p =
      Places-less p (λ d r. rw (table-with_tx c d s tx n) (omega arith)) (λ r. omega arith)
        (λ r. omega arith) (omega arith)

  entered :
      (c : ConnRef) (id : StreamId) (e : StreamSlots) (s : Store h) (d : ConnRef) (r : SlotRef)
      → count r (closes (table (set_callbacks c (insert id e (table s c)) s) d))
        ≤ (if c == d then one e.on_close r else 0) + count r (closes (table s d))
  entered c id e s d r =
      rw (table-set_callbacks c d (insert id e (table s c)) s) (elim (Bool-cases (c == d)) [
        | inl same ↦ rw (same, sym ((==_iff c d).0 same)) (insert_le id e (table s c) r)
        | inr other ↦ rw other (omega arith)
      ])

  pub Placed-IsStable : (old taken : List SlotRef) → IsStable {h = h} (Placed old taken)
  Placed-IsStable old taken = record {
    locks = λ s held p. p;
    sets = λ s r z p. p;
    writes = λ s c tx n p. with_tx-Placed c tx n old taken s p;
    makes = λ s p.
        Places-less p (λ d r. omega arith) (λ r. omega arith) (λ r. omega arith) (omega arith);
    enters = λ s c id p.
        Places-enter c (suc s.next_slot) p (omega arith) (omega arith)
          (λ d r. entered c id (new_slots s) s d r);
    calls = λ s z args p. p;
  }
