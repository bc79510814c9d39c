-- ===== src/Driver/Writes/Untouched.antt =====
-- What the reading side of a driver depends on, which `process_writes` leaves alone.
use ext_quiche.Base.{ℕ, ◌≡◌, refl, ◌∙◌, subst, Option, none, some, List, [], ◌∷◌, arith}
use mathlib.Core.Option
use ext_quiche.Base.Loop.{loop, loop_keeps, Kept, some_injective}
use ext_quiche.External.Quiche.{Quiche, ReadLaws, DuplexLaws}
use ext_quiche.External.Channel.{SenderLaws}
use ext_quiche.Connection.{StreamId, StreamWriter}
use ext_quiche.Driver.{Ports, Session, Chunks}
use ext_quiche.Driver.Reads.Sends.{log}
use ext_quiche.Driver.Writes.{take_write, flush_queue, flush_streams, flush, process_writes}

module _ {q : Quiche} (l : ReadLaws q) (d : DuplexLaws q l) where
  flush_queue-consumed :
      (id j : StreamId) (queue : Chunks) (c : q.Conn)
      → l.consumed (flush_queue q id queue c).2 j ≡ l.consumed c j
  unfolding flush_queue
  flush_queue-consumed id j [] c = refl
  flush_queue-consumed id j ((bs, fin) ∷ rest) c = ground (
    arith,
    d.send_consumed c id bs fin j,
    flush_queue-consumed id j rest (q.stream_send c id bs fin).conn,
  )

  flush_streams-consumed :
      (j : StreamId) (pending : List (StreamId × Chunks)) (c : q.Conn)
      → l.consumed (flush_streams q pending c).1 j ≡ l.consumed c j
  unfolding flush_streams
  flush_streams-consumed j [] c = refl
  flush_streams-consumed j ((id, queue) ∷ pending) c =
      flush_streams-consumed j pending (flush_queue q id queue c).2
      ∙ flush_queue-consumed id j queue c

module _ {p : Ports} (l : ReadLaws p.quiche) (k : SenderLaws p.events) where
  -- What the reading side of the driver depends on.
  pub record Alike (s t : Session p) : Type 0 where
    pub conn_id : t.driver.conn_id ≡ s.driver.conn_id
    pub sent : log k t ≡ log k s
    pub seen : t.driver.seen_streams ≡ s.driver.seen_streams
    pub buffer : t.driver.io_worker_buf ≡ s.driver.io_worker_buf
    pub consumed : (j : StreamId) → l.consumed t.conn j ≡ l.consumed s.conn j

  module _ (d : DuplexLaws p.quiche l) where
    take_write-Alike : (s t : Session p) → Alike s t → Kept (Alike s) (Alike s) (take_write t)
    unfolding take_write
    take_write-Alike s t a = split (p.writes.try_recv t.driver.stream_event_recv).0 refl
      where
        split :
            (m : Option StreamWriter)
            → (p.writes.try_recv t.driver.stream_event_recv).0 ≡ m
            → Kept (Alike s) (Alike s) (take_write t)
        split none e =
            rw (e, take_write)
              (record {
                conn_id = a.conn_id;
                sent = a.sent;
                seen = a.seen;
                buffer = a.buffer;
                consumed = a.consumed;
              })
        split (some m) e =
            rw (e, take_write)
              (record {
                conn_id = a.conn_id;
                sent = a.sent;
                seen = a.seen;
                buffer = a.buffer;
                consumed = a.consumed;
              })

    flush-Alike : (s t : Session p) → Alike s t → Alike s (flush t)
    unfolding flush
    flush-Alike s t a = record {
      conn_id = a.conn_id;
      sent = a.sent;
      seen = a.seen;
      buffer = a.buffer;
      consumed = λ j. flush_streams-consumed l d j t.driver.pending_writes t.conn ∙ a.consumed j;
    }

    pub process_writes-Alike :
        (fuel : ℕ) (s t : Session p) → process_writes fuel s ≡ some t → Alike s t
    unfolding process_writes
    process_writes-Alike fuel s t e = split (loop fuel take_write s) refl e
      where
        split :
            (o : Option (Session p))
            → loop fuel take_write s ≡ o
            → Option.map flush o ≡ some t
            → Alike s t
        split none r e = cc
        split (some u) r e = subst (Alike s) (some_injective e) (
            flush-Alike s u (
              loop_keeps (Alike s) (Alike s) take_write (take_write-Alike s) fuel s u r (record {
                conn_id = refl;
                sent = refl;
                seen = refl;
                buffer = refl;
                consumed = λ j. refl;
              })))
