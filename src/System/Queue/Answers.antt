-- ===== src/System/Queue/Answers.antt =====
-- What the server makes of a driver's chunks, with the event channel between them.
use ext_quiche.Base.{
  ℕ, ◌%◌, ◌≡◌, refl, ap, ◌∙◌, subst, inl, inr, Option-cases, Bool, some, [], ◌∷◌, ◌++◌,
}
use ext_quiche.Base.Map.{get}
use ext_quiche.External.Quiche.{Bytes, ReadLaws, DuplexLaws}
use ext_quiche.External.Channel.{SenderLaws}
use ext_quiche.External.Php.{chunk}
use ext_quiche.Connection.{StreamId, received}
use ext_quiche.Driver.{Ports, new_driver}
use ext_quiche.Driver.Life.{Life-IsSound, IsSound}
use ext_quiche.Driver.Reads.Announcements.{nowhere}
use ext_quiche.Driver.Reads.Log.{Log, Orderly, Orderly-split}
use ext_quiche.Driver.Reads.Sends.{log}
use ext_quiche.Stream.{StreamSlots, Host, Store, ok}
use ext_quiche.Socket.{ConnState, Server, call_slot}
use ext_quiche.Socket.Dispatch.{end_calls}
use ext_quiche.Socket.Effects.{called, table}
use ext_quiche.Socket.Courtesy.{Courteous}
use ext_quiche.Socket.Tick.{driver, handle}
use ext_quiche.System.Queue.{Joint, Reached, Reached-Life, Reached-Agrees, handled}

module _ {p : Ports} (l : ReadLaws p.quiche) (k : SenderLaws p.events) {h : Host}
    (d : DuplexLaws p.quiche l) (polite : Courteous h) where
  -- A new driver, and a server that knows its connection, with nothing in between.
  abbrev pub beginning :
      ℕ → p.writes.Rx → p.events.Tx → p.closes.Tx → p.quiche.Conn → Server h → Store h → Joint p h
  beginning conn_id rx tx close_tx c v s = record {
    session = record { conn = c; driver = new_driver conn_id rx tx close_tx };
    queue = [];
    server = v;
    store = s;
  }

  -- What the server makes of a chunk: the stream has its slots in the table, and the handler
  -- returns after one call of the `on_data` that it then has, if that is callable, and behind it, at
  -- the end of the stream only, one call with true of the `on_close` that the stream then has.
  abbrev pub Answers : ℕ → ConnState → StreamId → Bytes → Bool → Joint p h → Type 0
  Answers conn_id state id bs fin y =
      (u : Store h) × (e : StreamSlots) × (w : Store h) × (handle y.server
          (driver conn_id (received id bs fin)) y.store
        ≡ (ok y.server, u))
      × (get id (table y.store state.conn) ≡ some e)
      × (call_slot e.on_data (chunk bs fin) y.store ≡ (ok tt, w))
      × (u.calls
          ≡ y.store.calls
            ++ (called h (y.store.slots e.on_data) (chunk bs fin)
                ++ end_calls h w (get id (table w state.conn)) fin))

  -- For a new driver of a connection of which nothing was handed out and an end of the event
  -- channel through which nothing was sent, and a server that knows the connection, whose
  -- callbacks are courteous (for new streams any methods, for data all but to set callbacks, for an
  -- end only to write and close) and which holds no lock: let the driver's callbacks, the
  -- outside, the server's turns over the oldest event in the channel, and methods that PHP code
  -- calls between ticks come in any order. Whenever the oldest event is a chunk of a stream of the
  -- peer, the stream has its slots in the table, and the handler returns after one call of the
  -- `on_data` that it then has, if that is callable, with the chunk, and behind it, at the end of the
  -- stream only, one call with true of the `on_close` that the stream has in the table once `on_data`
  -- has returned, if that is callable, and no other call.
  pub Reached-Answers :
      (conn_id : ℕ) (rx : p.writes.Rx) (tx : p.events.Tx) (close_tx : p.closes.Tx)
      (c : p.quiche.Conn) (v : Server h) (state : ConnState) (s : Store h) (y : Joint p h)
      (id : StreamId) (bs : Bytes) (fin : Bool) (rest : Log)
      → k.sent tx ≡ []
      → ((j : StreamId) → l.consumed c j ≡ [])
      → get conn_id v.connections ≡ some state
      → s.held ≡ []
      → Reached l k (beginning conn_id rx tx close_tx c v s) y
      → y.queue ≡ (conn_id, received id bs fin) ∷ rest
      → id % 2 ≡ 0
      → Answers conn_id state id bs fin y
  unfolding new_driver
  Reached-Answers conn_id rx tx close_tx c v state s y id bs fin rest none_sent none_consumed known
        free reached head even =
      let x : Joint p h = beginning conn_id rx tx close_tx c v s in
      let sound : (z : Joint p h) → Reached l k x z → IsSound l k z.session = λ z r.
        Life-IsSound l k d conn_id rx tx close_tx c z.session none_sent none_consumed
          (Reached-Life l k x z r) in
      let a =
        Reached-Agrees l k d polite conn_id state x y known sound
          (record {
            past = [];
            sent = none_sent;
            tag = refl;
            server = refl;
            covers = λ j alive. cc;
            held = free;
          })
          reached in
      let all : log k y.session ≡ a.past ++ (conn_id, received id bs fin) ∷ rest =
        a.sent ∙ ap (◌++◌ a.past) head in
      let (before, fits) =
        Orderly-split y.session.driver.conn_id nowhere a.past (conn_id, received id bs fin) rest
          (subst (Orderly y.session.driver.conn_id nowhere) all
            (sound y reached).orderly.ordered) in
      let (u, r, served) =
        handled polite v conn_id state (received id bs fin) y.store known a.held in
      elim (Option-cases (get id (table y.store state.conn))) [
        | inl gone ↦ absurd (a.covers id (fits.1 even) gone)
        | inr (slots, there) ↦ (
          u,
          slots,
          served.middle,
          rw a.server r,
          there,
          rw there at served.hears,
          served.calls ∙ rw there refl,
        )
      ]
