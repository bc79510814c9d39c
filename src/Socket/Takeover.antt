-- ===== src/Socket/Takeover.antt =====
-- What becomes of a stream whose id PHP gives to a stream that it opens.
use ext_quiche.Base.{
  ℕ, suc, ◌≡◌, refl, subst, ◌∙◌, Bool, true, false, Option, none, some, [], ◌++◌, append-nil, ◌==◌,
  ==_refl, arith,
}
use ext_quiche.Base.Map.{get, insert, get-insert}
use ext_quiche.External.Quiche.{Bytes}
use ext_quiche.Connection.{StreamId, received}
use ext_quiche.Stream.{
  ConnRef, StreamSlots, ConnOpenHandle, BidiStream, ok, Host, Store, update, callbacks,
}
use ext_quiche.Stream.Methods.{
  make_slot_pair, register, prepare_bidi_stream, open_bidi, set_callbacks,
}
use ext_quiche.Socket.{ConnState, Server, dispatch_driver_event}
use ext_quiche.Socket.Effects.{table, DataOnlyWrites, CloseOnlyWrites}
use ext_quiche.Socket.Firing.{with_lock_free}
use ext_quiche.Socket.Stable.{with_pair}
use ext_quiche.Socket.Closing.{table-set_callbacks}
use ext_quiche.Socket.Dispatch.{data_calls, end_calls, Handles, dispatch-Handles}

module _ {h : Host} where
  -- The new object, and the store behind the call.
  abbrev opened : ConnOpenHandle → StreamId → Store h → BidiStream
  opened handle id s = record {
    conn_id = handle.conn_id;
    stream_id = id;
    conn = handle.conn;
    on_data = s.next_slot;
    on_close = suc s.next_slot;
  }

  abbrev with_stream : ConnRef → StreamId → Store h → Store h
  with_stream c id s =
      set_callbacks c
        (insert id (record { on_data = s.next_slot; on_close = suc s.next_slot }) (table s c))
        (with_pair s)

  register_free :
      (c : ConnRef) (id : StreamId) (e : StreamSlots) (s : Store h)
      → s.held ≡ []
      → register c id e s ≡ (ok tt, set_callbacks c (insert id e (table s c)) s)
  unfolding register
  register_free c id e s free = with_lock_free (callbacks c) _ s (rw free)

  open_bidi_free :
      (handle : ConnOpenHandle) (id : StreamId) (s : Store h)
      → s.held ≡ []
      → open_bidi handle id s ≡ (ok (opened handle id s), with_stream handle.conn id s)
  unfolding open_bidi prepare_bidi_stream make_slot_pair
  open_bidi_free handle id s free =
      rw
        (register_free handle.conn id (record { on_data = s.next_slot; on_close = suc s.next_slot })
          (with_pair s) free)
        refl

suc-ne : (n : ℕ) → (suc n == n) ≡ false
suc-ne n = ground arith

fresh_slots :
    {A : Type 0} (f : ℕ → Option A) (n : ℕ)
    → (update (update f n none) (suc n) none n ≡ none)
      × (update (update f n none) (suc n) none (suc n) ≡ none)
fresh_slots f n = (rw (update, suc-ne n, ==_refl n) refl, rw (update, ==_refl (suc n)) refl)

-- Empty slots lead to no calls.
silent :
    (h : Host) (s : Store h) (e : StreamSlots) (bs : Bytes) (fin : Bool)
    → s.slots e.on_data ≡ none
    → s.slots e.on_close ≡ none
    → data_calls h s (some e) bs fin ++ end_calls h s (some e) fin ≡ []
silent h s e bs true data_none close_none = rw (data_none, close_none) refl
silent h s e bs false data_none close_none = rw data_none refl

module _ {h : Host} (on_data_calm : DataOnlyWrites h) (on_close_calm : CloseOnlyWrites h) where
  -- Where the callbacks for data and for the end of a stream only write and close, and with no lock
  -- held: PHP can open a stream under any id, also that of a stream in the table with callbacks.
  -- Data that then comes for the id, its end included, leads to no call at all.
  pub open_bidi_deaf :
      (v : Server h) (conn_id : ℕ) (state : ConnState) (handle : ConnOpenHandle) (id : StreamId)
      (bs : Bytes) (fin : Bool) (s : Store h)
      → s.held ≡ []
      → get conn_id v.connections ≡ some state
      → handle.conn ≡ state.conn
      → (o : BidiStream) × (t : Store h) × (u : Store h) × (open_bidi handle id s ≡ (ok o, t))
        × (dispatch_driver_event v conn_id (received id bs fin) t ≡ (ok tt, u))
        × (u.calls ≡ s.calls)
  open_bidi_deaf v conn_id state handle id bs fin s free known same =
      let t : Store h = with_stream handle.conn id s in
      let slots : StreamSlots = record { on_data = s.next_slot; on_close = suc s.next_slot } in
      let (u, e, b) =
        subst (Handles v conn_id id bs fin t) known
          (dispatch-Handles on_data_calm on_close_calm v conn_id id bs fin t free) in
      let found : get id (table t state.conn) ≡ some slots =
        subst (λ c. get id (table t c) ≡ some slots) same
          (rw
            (
              table-set_callbacks handle.conn handle.conn (insert id slots (table s handle.conn))
                  (with_pair s),
              ==_refl handle.conn,
            )
            (get-insert id id slots (table s handle.conn) ∙ rw (==_refl id) refl)) in
      let (data_none, close_none) = fresh_slots s.slots s.next_slot in
      (
        opened handle id s,
        t,
        u,
        open_bidi_free handle id s free,
        e,
        b.calls ∙ rw (found, silent h t slots bs fin data_none close_none) (append-nil s.calls),
      )
