-- ===== src/Socket/Tick/Heard.antt =====
-- What the loop makes of the events that one driver sent.
use ext_quiche.Base.{
  ℕ, ◌%◌, ◌≡◌, ◌≢◌, refl, ◌∙◌, inl, inr, Bool-cases, Option-cases, subst, Bool, true, false, none,
  some, List, [], ◌∷◌, ◌++◌, ◌==◌, ==_iff, if◌then◌else◌,
}
use ext_quiche.Base.Map.{get}
use ext_quiche.External.Quiche.{Bytes}
use ext_quiche.External.Php.{chunk}
use ext_quiche.Connection.{StreamId, DriverEvent, new_bidi, new_uni, received}
use ext_quiche.Driver.Reads.Log.{Log, live, live_after, Fits, Orderly, Orderly-split}
use ext_quiche.Driver.Reads.Announcements.{nowhere}
use ext_quiche.Stream.{ConnRef, StreamSlots, ok, Host, Store}
use ext_quiche.Socket.{ConnState, Server, dispatch_driver_event}
use ext_quiche.Socket.Effects.{Call, called, table}
use ext_quiche.Socket.Courtesy.{Courteous}
use ext_quiche.Socket.Dispatch.{end_calls, end_calls_more}
use ext_quiche.Socket.Courtesy.Results.{Announced, Dealt}
use ext_quiche.Socket.Courtesy.Handlers.{dispatch-Dealt}
use ext_quiche.Socket.Tick.{driver, Ready, select, handle, tick}
use ext_quiche.Socket.Tick.Returns.{Dealt-held}

-- The turns select just these events of drivers, whatever else is ready.
abbrev pub Hears : List Ready → Log → Type 0
Hears [] [] = Unit
Hears (r ∷ rs) (e ∷ es) = (select r ≡ some (driver e.0 e.1)) × Hears rs es
Hears _ _ = ⊥

module _ {h : Host} where
  -- The live streams are in the table.
  abbrev pub Covers : (StreamId → Bool) → ConnRef → Store h → Type 0
  Covers f c s = (j : StreamId) → f j ≡ true → get j (table s c) ≢ none

  Announced-Covers :
      (f : StreamId → Bool) (c : ConnRef) (id : StreamId) (s t : Store h)
      → Announced c id s t
      → Covers f c s
      → (j : StreamId) → (if id == j then true else f j) ≡ true
      → get j (table t c) ≢ none
  Announced-Covers f c id s t d covers j alive = elim (Bool-cases (id == j)) [
    | inl same ↦ subst (λ i. get i (table t c) ≢ none) ((==_iff id j).0 same) d.there
    | inr other ↦ d.keeps j (covers j (rw other at alive))
  ]

  pub Dealt-Covers :
      (f : StreamId → Bool) (c : ConnRef) (ev : DriverEvent) (s t : Store h)
      → Dealt c ev s t
      → Covers f c s
      → Covers (live_after f ev) c t
  Dealt-Covers f c (new_bidi id) s t d covers j alive = Announced-Covers f c id s t d covers j alive
  Dealt-Covers f c (new_uni id) s t d covers j alive = Announced-Covers f c id s t d covers j alive
  Dealt-Covers f c (received id bs false) s t d covers j alive = d.keeps j refl (covers j alive)
  Dealt-Covers f c (received id bs true) s t d covers j alive = elim (Bool-cases (id == j)) [
    | inl same ↦ cc (rw same at alive)
    | inr other ↦ d.keeps j other (covers j (rw other at alive))
  ]

module _ {h : Host} where
  -- The loop deals with the turns and waits, with the server as before; the stream has its slots in
  -- the table, and the chunk is handled by one call of the `on_data` that the slot has, if that is
  -- callable, followed by calls only if the chunk ends the stream.
  abbrev pub Delivers :
      Server h → ℕ → ConnState → List Ready → StreamId → Bytes → Bool → Store h → Type 0
  Delivers v conn_id state rs id bs fin s =
      (t : Store h) × (u : Store h) × (e : StreamSlots) × (rest : List (Call h)) × (tick v rs s
        ≡ (ok (v, false), t))
      × (get id (table t state.conn) ≡ some e)
      × (dispatch_driver_event v conn_id (received id bs fin) t ≡ (ok tt, u))
      × (u.calls ≡ t.calls ++ (called h (t.slots e.on_data) (chunk bs fin) ++ rest))
      × (fin ≡ false → rest ≡ [])

module _ {h : Host} (polite : Courteous h) where
  -- A run over events in order leaves the server and the locks alone and the live streams in the
  -- table.
  tick-Covers :
      (v : Server h) (conn_id : ℕ) (state : ConnState) (rs : List Ready) (es : Log)
      (f : StreamId → Bool) (s : Store h)
      → get conn_id v.connections ≡ some state
      → Hears rs es
      → Orderly conn_id f es
      → s.held ≡ []
      → Covers f state.conn s
      → (t : Store h) × (tick v rs s ≡ (ok (v, false), t))
        × (t.held ≡ [])
        × Covers (live f es) state.conn t
  unfolding tick handle
  tick-Covers v conn_id state [] [] f s known hears order free covers = (s, refl, free, covers)
  tick-Covers v conn_id state [] (e ∷ es) f s known hears order free covers = absurd hears
  tick-Covers v conn_id state (r ∷ rs) [] f s known hears order free covers = absurd hears
  tick-Covers v conn_id state (r ∷ rs) ((c, ev) ∷ es) f s known hears order free covers =
      let (t, e, d) = dispatch-Dealt polite v conn_id state ev s known free in
      let (u, g, held, k) =
        tick-Covers v conn_id state rs es (live_after f ev) t known hears.1 order.1
          (Dealt-held state.conn ev s t d) (Dealt-Covers f state.conn ev s t d covers) in
      (u, rw (hears.0, tag conn_id f c ev order.0, e, g), held, k)
    where
      tag :
          (cid : ℕ) (f : StreamId → Bool) (c : ℕ) (ev : DriverEvent) → Fits cid f (c, ev) → c ≡ cid
      tag cid f c (new_bidi id) k = k.0
      tag cid f c (new_uni id) k = k.0
      tag cid f c (received id bs fin) k = k.0

  -- Where the callback for new streams does anything, those for data set no callback, and those for
  -- the end of a stream only write and close, with no lock held, and a known connection: the turns
  -- select the events that a driver sent before a chunk of a stream of the peer, and the driver sent
  -- these, the chunk and more in order. Then the loop deals with the turns and waits, the server is
  -- as before, the stream has its slots in the table, and the chunk behind them is handled by one
  -- call of the `on_data` that the slot then has, if that is callable, followed by calls only if
  -- the chunk ends the stream.
  pub tick-Hears :
      (v : Server h) (conn_id : ℕ) (state : ConnState) (rs : List Ready) (es later : Log)
      (id : StreamId) (bs : Bytes) (fin : Bool) (s : Store h)
      → get conn_id v.connections ≡ some state
      → Hears rs es
      → Orderly conn_id nowhere (es ++ (conn_id, received id bs fin) ∷ later)
      → id % 2 ≡ 0
      → s.held ≡ []
      → Delivers v conn_id state rs id bs fin s
  tick-Hears v conn_id state rs es later id bs fin s known hears order even free =
      let (before, fits) =
        Orderly-split conn_id nowhere es (conn_id, received id bs fin) later order in
      let (t, e, held, covers) =
        tick-Covers v conn_id state rs es nowhere s known hears before free (λ j alive. cc) in
      let (u, g, d) = dispatch-Dealt polite v conn_id state (received id bs fin) t known held in
      elim (Option-cases (get id (table t state.conn))) [
        | inl gone ↦ absurd (covers id (fits.1 even) gone)
        | inr (slots, there) ↦
            let news = end_calls h d.middle (get id (table d.middle state.conn)) fin in
            (
              t,
              u,
              slots,
              news,
              e,
              there,
              g,
              d.calls ∙ rw there refl,
              end_calls_more d.middle (get id (table d.middle state.conn)) fin,
            )
      ]
