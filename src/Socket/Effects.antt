-- ===== src/Socket/Effects.antt =====
-- What the handlers do besides calling callbacks, for callbacks that only write and close.
use ext_quiche.Base.{
  ℕ, ◌≡◌, ◌≢◌, Bool, refl, sym, ap, ◌∙◌, inl, inr, true, Option, none, some, List, [], ◌∷◌, ◌++◌,
  append-nil, append_assoc, All, Bool-cases, ◌==◌, ==_iff, if◌then◌else◌,
}
use ext_quiche.External.Php.{
  Method, set_on_data, set_on_close, write, close, open_bidi_stream, open_uni_stream, Arguments,
  chunk, peer_closed,
}
use ext_quiche.External.Quiche.{Bytes}
use ext_quiche.Connection.{StreamId, StreamWriter}
use ext_quiche.Stream.{
  StreamObject, incoming_bidi, incoming_uni, bidi, uni, ConnRef, StreamSlots, Outcome, ok, raised,
  deadlock, pure, continue, ◌>>◌, Shared, Host, Store, Exec, update,
}
use ext_quiche.Stream.Methods.{
  nothing, send_chunk, opens, call_method, run_methods, call_callback, calling,
}

-- A callable that is called, and with what.
abbrev pub Call : Host → Type 0
Call h = h.php.Zval × Arguments StreamObject

abbrev pub IsWrite : {Z : Type 0} → Method Z → Type 0
IsWrite (write bs fin) = Unit
IsWrite close = Unit
IsWrite _ = ⊥

-- Callbacks that are called with the given arguments write and close, and neither set callbacks nor
-- open streams.
abbrev pub OnlyWrites : (h : Host) → Arguments StreamObject → Type 0
OnlyWrites h args =
    (z : h.php.Zval) (w : h.php.World)
    → All (λ (m : StreamObject × Method h.php.Zval). IsWrite m.1) (h.php.try_call z args w).0

-- Such are all callbacks for data, or for the end of a stream.
abbrev pub DataOnlyWrites : Host → Type 0
DataOnlyWrites h = (bs : Bytes) (fin : Bool) → OnlyWrites h (chunk bs fin)

abbrev pub CloseOnlyWrites : Host → Type 0
CloseOnlyWrites h = (flag : Bool) → OnlyWrites h (peer_closed flag)

-- The call that a slot's value leads to.
abbrev pub called : (h : Host) → Option h.php.Zval → Arguments StreamObject → List (Call h)
called h none args = []
called h (some z) args = if h.php.is_callable z then (z, args) ∷ [] else []

module _ {h : Host} where
  open h use {php, writes}

  abbrev pub table : Store h → ConnRef → List (StreamId × StreamSlots)
  table s c = (s.conns c).php_stream_callbacks

  -- Only the given calls were made: locks, slots and tables are as before.
  pub record Effect (s t : Store h) (news : List (Call h)) : Type 0 where
    pub held : t.held ≡ s.held
    pub slots : t.slots ≡ s.slots
    pub tables : (c : ConnRef) → table t c ≡ table s c
    pub calls : t.calls ≡ s.calls ++ news

  pub Effect-refl : (s : Store h) → Effect s s []
  Effect-refl s = record {
    held = refl;
    slots = refl;
    tables = λ c. refl;
    calls = sym (append-nil s.calls);
  }

  pub Effect-trans :
      {s t u : Store h} {xs ys : List (Call h)}
      → Effect s t xs
      → Effect t u ys
      → Effect s u (xs ++ ys)
  Effect-trans {s} {t} {u} {xs} {ys} e f = record {
    held = f.held ∙ e.held;
    slots = f.slots ∙ e.slots;
    tables = λ c. f.tables c ∙ e.tables c;
    calls = f.calls ∙ rw e.calls (append_assoc s.calls xs ys);
  }

  -- A call that ends, and changes nothing but write channels.
  abbrev pub Calm : Outcome (Option StreamObject) × Store h → Store h → Type 0
  Calm w s = (w.0 ≢ deadlock) × Effect s w.1 []

  abbrev pub with_tx : ConnRef → Shared writes.Tx → Store h → Store h
  with_tx c shared s = record s { conns = update s.conns c shared }

  pub table-with_tx :
      (c d : ConnRef) (s : Store h) (tx : writes.Tx) (n : ℕ)
      → table (with_tx c (record (s.conns c) { write_tx = tx; notified = n }) s) d ≡ table s d
  table-with_tx c d s tx n = elim (Bool-cases (c == d)) [
    | inl same ↦ rw (same, table) (ap (table s) ((==_iff c d).0 same))
    | inr other ↦ rw (other, table)
  ]

  with_tx-Effect :
      (c : ConnRef) (tx : writes.Tx) (n : ℕ) (s : Store h)
      → Effect s (with_tx c (record (s.conns c) { write_tx = tx; notified = n }) s) []
  with_tx-Effect c tx n s = record {
    held = refl;
    slots = refl;
    tables = λ d. table-with_tx c d s tx n;
    calls = sym (append-nil s.calls);
  }

  send_chunk_calm :
      (c : ConnRef) (m : StreamWriter) (s : Store h)
      → ((send_chunk c m s).0 ≢ deadlock) × Effect s (send_chunk c m s).1 []
  unfolding send_chunk
  send_chunk_calm c m s = elim (Bool-cases (writes.try_send m (s.conns c).write_tx).0) [
    | inl sent ↦ rw (sent, send_chunk) ((λ e. cc), with_tx-Effect c _ _ s)
    | inr full ↦ rw (full, send_chunk) ((λ e. cc), with_tx-Effect c _ _ s)
  ]

  nothing-Calm :
      (m : Exec h (Unit {0})) (s : Store h)
      → ((m s).0 ≢ deadlock) × Effect s (m s).1 []
      → Calm (nothing m s) s
  nothing-Calm m s k = split (m s) k
    where
      split :
          (w : Outcome (Unit {0}) × Store h)
          → (w.0 ≢ deadlock) × Effect s w.1 []
          → Calm (continue w.0 (λ _. pure none) w.1) s
      split (ok a, t) k = ((λ e. cc), k.1)
      split (raised, t) k = ((λ e. cc), k.1)
      split (deadlock, t) k = absurd (k.0 refl)

  pub call_method-Calm :
      (o : StreamObject) (m : Method php.Zval) (s : Store h)
      → IsWrite m
      → Calm (call_method o m s) s
  unfolding call_method opens
  call_method-Calm (incoming_bidi o) (write bs fin) s k =
      nothing-Calm (send_chunk o.conn (o.stream_id, some bs, fin)) s (send_chunk_calm _ _ s)
  call_method-Calm (incoming_bidi o) close s k =
      nothing-Calm (send_chunk o.conn (o.stream_id, some [], true)) s (send_chunk_calm _ _ s)
  call_method-Calm (bidi o) (write bs fin) s k =
      nothing-Calm (send_chunk o.conn (o.stream_id, some bs, fin)) s (send_chunk_calm _ _ s)
  call_method-Calm (bidi o) close s k =
      nothing-Calm (send_chunk o.conn (o.stream_id, some [], true)) s (send_chunk_calm _ _ s)
  call_method-Calm (uni o) (write bs fin) s k =
      nothing-Calm (send_chunk o.conn (o.stream_id, some bs, fin)) s (send_chunk_calm _ _ s)
  call_method-Calm (uni o) close s k =
      nothing-Calm (send_chunk o.conn (o.stream_id, some [], true)) s (send_chunk_calm _ _ s)
  call_method-Calm (incoming_uni o) (write bs fin) s k = ((λ e. cc), Effect-refl s)
  call_method-Calm (incoming_uni o) close s k = ((λ e. cc), Effect-refl s)
  call_method-Calm o (set_on_data z) s k = absurd k
  call_method-Calm o (set_on_close z) s k = absurd k
  call_method-Calm o (open_bidi_stream id) s k = absurd k
  call_method-Calm o (open_uni_stream id) s k = absurd k

  -- An action that succeeds, makes the given calls and changes nothing else.
  abbrev pub Does : Exec h (Unit {0}) → Store h → List (Call h) → Type 0
  Does m s news = (t : Store h) × (m s ≡ (ok tt, t)) × Effect s t news

  pub Does-then :
      (m n : Exec h (Unit {0})) {s : Store h} {xs ys : List (Call h)}
      → (d : Does m s xs) → Does n d.0 ys
      → Does (m >> n) s (xs ++ ys)
  Does-then m n {s} (t, e, f) (u, g, k) = (u, rw e g, Effect-trans f k)

  run_methods-Does :
      (ms : List (StreamObject × Method php.Zval)) (s : Store h)
      → All (λ (m : StreamObject × Method php.Zval). IsWrite m.1) ms
      → Does (run_methods ms) s []
  unfolding run_methods
  run_methods-Does [] s k = (s, refl, Effect-refl s)
  run_methods-Does ((o, m) ∷ ms) s k =
      split (call_method o m s) (call_method-Calm o m s k.0) (λ t. run_methods-Does ms t k.1)
    where
      split :
          (w : Outcome (Option StreamObject) × Store h)
          → Calm w s
          → ((t : Store h) → Does (run_methods ms) t [])
          → (u : Store h) × ((elim w.0 [ deadlock ↦ (deadlock, w.1) | _ ↦ run_methods ms w.1 ])
              ≡ (ok tt, u))
            × Effect s u []
      split (ok a, t) c rest = let (u, e, f) = rest t in (u, e, Effect-trans c.1 f)
      split (raised, t) c rest = let (u, e, f) = rest t in (u, e, Effect-trans c.1 f)
      split (deadlock, t) c rest = absurd (c.0 refl)

  module _ (args : Arguments StreamObject) (calm : OnlyWrites h args) where
    pub call_callback-Does :
        (z : Option php.Zval) (s : Store h) → Does (call_callback z args) s (called h z args)
    unfolding call_callback
    call_callback-Does none s = (s, refl, Effect-refl s)
    call_callback-Does (some z) s = elim (Bool-cases (php.is_callable z)) [
      | inl good ↦
          rw (good, call_callback)
            (let (t, e, f) =
                run_methods-Does (php.try_call z args s.world).0 (calling z args s)
                  (calm z s.world) in
              (
                t,
                e,
                Effect-trans {xs = (z, args) ∷ []}
                    (record { held = refl; slots = refl; tables = λ c. refl; calls = refl }) f,
              ))
      | inr bad ↦ rw (bad, call_callback) (s, refl, Effect-refl s)
    ]
