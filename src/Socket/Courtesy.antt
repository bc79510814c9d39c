-- ===== src/Socket/Courtesy.antt =====
-- Callbacks that wait for no lock which the thread holds while they run.
pub mod Tables
pub mod Methods
pub mod Locks
pub mod Results
pub mod Arrivals
pub mod Handlers
use ext_quiche.Base.{
  ◌≡◌, ◌≢◌, refl, sym, ◌∙◌, false, none, some, List, [], ◌++◌, append-nil, append_assoc, All,
}
use ext_quiche.Base.Map.{get}
use ext_quiche.External.Php.{
  Method, set_on_data, set_on_close, write, close, open_bidi_stream, open_uni_stream, Arguments,
  incoming, chunk, peer_closed,
}
use ext_quiche.Connection.{StreamId}
use ext_quiche.Stream.{
  SlotRef, ConnRef, StreamObject, Lock, slot, callbacks, deadlock, ok, Host, Store, Exec, holds,
  Outcome, ◌>>◌,
}
use ext_quiche.Socket.Effects.{Call, table, IsWrite, Effect, CloseOnlyWrites}

-- What a callback may do. The one for a new stream runs with no lock of a slot or a table held, the
-- one for data with that of its slot, the one for an end perhaps with both.
abbrev pub Permitted : {Z : Type 0} → Arguments StreamObject → Method Z → Type 0
Permitted (incoming o) m = Unit
Permitted (chunk bs fin) (set_on_data z) = ⊥
Permitted (chunk bs fin) (set_on_close z) = ⊥
Permitted (chunk bs fin) _ = Unit
Permitted (peer_closed flag) m = IsWrite m

abbrev pub Courteous : Host → Type 0
Courteous h =
    (z : h.php.Zval) (args : Arguments StreamObject) (w : h.php.World)
    → All (λ (m : StreamObject × Method h.php.Zval). Permitted args m.1) (h.php.try_call z args w).0

pub Courteous-CloseOnlyWrites : (h : Host) → Courteous h → CloseOnlyWrites h
Courteous-CloseOnlyWrites h polite flag z w = polite z (peer_closed flag) w

-- A method that takes none of the locks.
abbrev pub MayRun : {Z : Type 0} → List Lock → Method Z → Type 0
MayRun held (set_on_data z) = (r : SlotRef) → holds (slot r) held ≡ false
MayRun held (set_on_close z) = (r : SlotRef) → holds (slot r) held ≡ false
MayRun held (open_bidi_stream id) = (c : ConnRef) → holds (callbacks c) held ≡ false
MayRun held (open_uni_stream id) = (c : ConnRef) → holds (callbacks c) held ≡ false
MayRun held _ = Unit

module _ {h : Host} where
  -- The given calls were made, no lock more or less is held, and no stream left a table.
  pub record Extends (s t : Store h) (news : List (Call h)) : Type 0 where
    pub held : t.held ≡ s.held
    pub calls : t.calls ≡ s.calls ++ news
    pub keeps : (c : ConnRef) (j : StreamId) → get j (table s c) ≢ none → get j (table t c) ≢ none

  pub Extends-refl : (s : Store h) → Extends s s []
  Extends-refl s = record {
    held = refl;
    calls = sym (append-nil s.calls);
    keeps = λ c j there. there;
  }

  pub Extends-trans :
      {s t u : Store h} {xs ys : List (Call h)}
      → Extends s t xs
      → Extends t u ys
      → Extends s u (xs ++ ys)
  Extends-trans {s} {t} {u} {xs} {ys} e f = record {
    held = f.held ∙ e.held;
    calls = f.calls ∙ rw e.calls (append_assoc s.calls xs ys);
    keeps = λ c j there. f.keeps c j (e.keeps c j there);
  }

  pub Effect-Extends : {s t : Store h} {news : List (Call h)} → Effect s t news → Extends s t news
  Effect-Extends e = record {
    held = e.held;
    calls = e.calls;
    keeps = λ c j there. rw e.tables there;
  }

  -- An action that succeeds, makes the given calls and takes no stream out of a table.
  abbrev pub Ends : Exec h (Unit {0}) → Store h → List (Call h) → Type 0
  Ends m s news = (t : Store h) × (m s ≡ (ok tt, t)) × Extends s t news

  pub Ends-then :
      (m n : Exec h (Unit {0})) {s : Store h} {xs ys : List (Call h)}
      → (d : Ends m s xs) → Ends n d.0 ys
      → Ends (m >> n) s (xs ++ ys)
  Ends-then m n {s} (t, e, f) (u, g, k) = (u, rw e g, Extends-trans f k)

  -- A call that does not hang and makes no calls.
  abbrev pub Quiet {ℓ} : {A : Type ℓ} → Outcome A × Store h → Store h → Type ℓ
  Quiet w s = (w.0 ≢ deadlock) × Extends s w.1 []
