-- ===== src/Driver/Writes.antt =====
-- `process_writes` of src/quiche/driver.rs: from PHP's write channel into the connection.
use ext_quiche.Base.{
  ℕ, Bool, true, false, Option, none, some, List, [], ◌∷◌, ◌++◌, length, drop, ◌==◌,
}
pub mod Queue
pub mod Streams
pub mod Intake
pub mod Delivery
pub mod Untouched
use mathlib.Core.Option
use ext_quiche.Base.Map.{get, insert}
use ext_quiche.Base.Loop.{Flow, again, leave, loop}
use ext_quiche.External.Quiche.{Bytes, Quiche, SendResult}
use ext_quiche.Connection.{StreamId, StreamWriter}
use ext_quiche.Driver.{Ports, Session, Chunks}

-- `data.unwrap_or_else(Bytes::new)`
abbrev pub bytes_of : Option Bytes → Bytes
bytes_of none = []
bytes_of (some bs) = bs

-- `entry(stream_id).or_default()`
abbrev pub queue_of : Option Chunks → Chunks
queue_of none = []
queue_of (some queue) = queue

pub push_back : StreamWriter → List (StreamId × Chunks) → List (StreamId × Chunks)
push_back (id, bs, fin) pending =
    insert id (queue_of (get id pending) ++ (bytes_of bs, fin) ∷ []) pending

module _ (q : Quiche) where
  -- The queue of one stream: whether `retain` keeps it, what is left of it, and the connection.
  pub flush_queue : StreamId → Chunks → q.Conn → Bool × Chunks × q.Conn
  flush_queue id [] c = (false, [], c)
  flush_queue id ((bs, fin) ∷ rest) c =
      let sent = q.stream_send c id bs fin in
      elim sent.result [
        | SendResult.ok n ↦ elim (n == length bs) [
          | true ↦ flush_queue id rest sent.conn
          | false ↦ (true, (drop n bs, fin) ∷ rest, sent.conn)
        ]
        | SendResult.done ↦ (true, (bs, fin) ∷ rest, sent.conn)
        | SendResult.err e ↦ flush_queue id rest sent.conn
      ]

  -- `pending_writes.retain(…)`
  pub flush_streams : List (StreamId × Chunks) → q.Conn → List (StreamId × Chunks) × q.Conn
  unfolding flush_queue
  flush_streams [] c = ([], c)
  flush_streams ((id, queue) ∷ pending) c =
      let (keep, queue', c') = flush_queue id queue c in
      let (pending', c'') = flush_streams pending c' in
      (elim keep [ true ↦ (id, queue') ∷ pending' | false ↦ pending' ], c'')

module _ {p : Ports} where
  open p use {quiche, writes}

  -- A round of the loop that empties the write channel.
  pub take_write : Session p → Flow (Session p) (Session p)
  unfolding push_back
  take_write s =
      let (message, rx) = writes.try_recv s.driver.stream_event_recv in
      elim message [
        | some m ↦ again (record s {
          driver = record s.driver {
            stream_event_recv = rx;
            pending_writes = push_back m s.driver.pending_writes;
          };
        })
        | none ↦ leave (record s { driver = record s.driver { stream_event_recv = rx } })
      ]

  pub flush : Session p → Session p
  unfolding flush_streams
  flush s = record {
    conn = (flush_streams quiche s.driver.pending_writes s.conn).1;
    driver = record s.driver {
      pending_writes = (flush_streams quiche s.driver.pending_writes s.conn).0;
    };
  }

  -- `none` means that the fuel ran out.
  unfoldable pub process_writes : ℕ → Session p → Option (Session p)
  unfolding loop take_write flush get insert
  process_writes fuel s = Option.map flush (loop fuel take_write s)
