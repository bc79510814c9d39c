-- ===== src/System.antt =====
-- The two sides together: what a driver sends reaches PHP.
pub mod Outbound
pub mod Queue
pub mod Ending
use ext_quiche.Base.{ℕ, ◌%◌, ◌≡◌, Bool, some, List, [], ◌∷◌, ◌++◌, subst}
use ext_quiche.Base.Map.{get}
use ext_quiche.External.Quiche.{Bytes, ReadLaws, DuplexLaws}
use ext_quiche.External.Channel.{SenderLaws}
use ext_quiche.Connection.{StreamId, received}
use ext_quiche.Driver.{Ports, Session, new_driver}
use ext_quiche.Driver.Life.{Life, Life-IsSound}
use ext_quiche.Driver.Reads.Announcements.{nowhere}
use ext_quiche.Driver.Reads.Log.{Log, Orderly}
use ext_quiche.Driver.Reads.Sends.{log}
use ext_quiche.Stream.{Host, Store}
use ext_quiche.Socket.{ConnState, Server}
use ext_quiche.Socket.Courtesy.{Courteous}
use ext_quiche.Socket.Tick.{Ready}
use ext_quiche.Socket.Tick.Heard.{Hears, Delivers, tick-Hears}

module _ {p : Ports} (l : ReadLaws p.quiche) (k : SenderLaws p.events) (d : DuplexLaws p.quiche l)
    {h : Host} (polite : Courteous h) where
  -- For a driver that starts with nothing handed out and nothing sent, at any point of its life, and
  -- a server that knows its connection, whose callbacks are courteous (for new streams any methods,
  -- for data all but to set callbacks, for an end only to write and close) and which holds no lock:
  -- where the driver sent a chunk of a stream of the peer, and the turns of the loop select what it
  -- sent before, the loop deals with them and waits, the stream is then in the table, and the chunk
  -- is handled by one call of its `on_data`, if that is callable, followed by calls only if the chunk
  -- ends the stream.
  pub Life-Delivers :
      (conn_id : ℕ) (rx : p.writes.Rx) (tx : p.events.Tx) (close_tx : p.closes.Tx)
      (c : p.quiche.Conn) (t : Session p) (v : Server h) (state : ConnState) (rs : List Ready)
      (es later : Log) (id : StreamId) (bs : Bytes) (fin : Bool) (s : Store h)
      → k.sent tx ≡ []
      → ((j : StreamId) → l.consumed c j ≡ [])
      → Life l k (record { conn = c; driver = new_driver conn_id rx tx close_tx }) t
      → get t.driver.conn_id v.connections ≡ some state
      → Hears rs es
      → log k t ≡ es ++ (t.driver.conn_id, received id bs fin) ∷ later
      → id % 2 ≡ 0
      → s.held ≡ []
      → Delivers v t.driver.conn_id state rs id bs fin s
  Life-Delivers conn_id rx tx close_tx c t v state rs es later id bs fin s none_sent none_consumed
        life known hears sent even free =
      let sound = Life-IsSound l k d conn_id rx tx close_tx c t none_sent none_consumed life in
      tick-Hears polite v t.driver.conn_id state rs es later id bs fin s known hears
        (subst (Orderly t.driver.conn_id nowhere) sent sound.orderly.ordered) even free
