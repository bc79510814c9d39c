-- ===== src/Driver/Reads/Stall.antt =====
-- What `process_reads` does to a stream when the event channel is full.
use ext_quiche.Base.{ℕ, ◌≡◌, refl, ap, ◌∙◌, true, false, some, List, ◌∷◌, suc}
use ext_quiche.Base.Loop.{loop_leave, leave}
use ext_quiche.External.Quiche.{ReadLaws}
use ext_quiche.External.Channel.{SenderLaws}
use ext_quiche.Connection.{StreamId}
use ext_quiche.Driver.{Ports, Session}
use ext_quiche.Driver.Reads.{
  process_reads, read_next, visit, read_stream, read_chunk, after_stream, join, reserved,
  break_outer,
}
use ext_quiche.Driver.Reads.Cases.{announce_cases}
use ext_quiche.Driver.Reads.Sends.{log, log-reserved}

module _ {p : Ports} where
  read_chunk_full :
      (id : StreamId) (s : Session p)
      → (p.events.try_reserve s.driver.event_tx).0 ≡ false
      → read_chunk id s ≡ leave (break_outer, reserved s)
  unfolding read_chunk
  read_chunk_full id s full = rw full

  read_stream_full :
      (fuel : ℕ) (id : StreamId) (s : Session p)
      → (p.events.try_reserve s.driver.event_tx).0 ≡ false
      → read_stream (suc fuel) id s ≡ some (break_outer, reserved s)
  unfolding read_stream
  read_stream_full fuel id s full = loop_leave fuel (read_chunk id) s (read_chunk_full id s full)

  visit_full :
      (fuel : ℕ) (id : StreamId) (s : Session p)
      → (p.events.try_reserve s.driver.event_tx).0 ≡ false
      → visit (suc fuel) id s ≡ leave (some (reserved s))
  unfolding visit
  visit_full fuel id s full =
      announce_cases
        (λ w.
          (elim w.0 [
            | true ↦ after_stream (read_stream (suc fuel) id w.1)
            | false ↦ leave (some w.1)
          ])
          ≡ leave (some (reserved s)))
        id s (λ client fresh granted. cc) (λ _. refl) (λ _. rw (read_stream_full fuel id s full))

  read_next-visit :
      (fuel : ℕ) (s : Session p) (id : StreamId)
      → (p.quiche.stream_readable_next s.conn).0 ≡ some id
      → read_next fuel s
        ≡ visit fuel id (record s { conn = (p.quiche.stream_readable_next s.conn).1 })
  unfolding read_next
  read_next-visit fuel s id e = rw (e, read_next)

  process_reads-visit :
      (fuel : ℕ) (s t : Session p) (id : StreamId)
      → (p.quiche.stream_readable_next s.conn).0 ≡ some id
      → visit (suc fuel) id (record s { conn = (p.quiche.stream_readable_next s.conn).1 })
        ≡ leave (some t)
      → process_reads (suc fuel) s ≡ some t
  unfolding process_reads
  process_reads-visit fuel s t id e v =
      ap join (loop_leave fuel (read_next (suc fuel)) s (read_next-visit (suc fuel) s id e ∙ v))

module _ {p : Ports} (l : ReadLaws p.quiche) (k : SenderLaws p.events) where
  -- Where a stream is readable and the first reservation in the event channel fails, a pass with
  -- any fuel but none ends, sends nothing and reads nothing, and still takes that stream out of the
  -- queue of readable streams.
  pub process_reads_full :
      (fuel : ℕ) (s : Session p) (id : StreamId) (ids : List StreamId)
      → l.ready s.conn ≡ id ∷ ids
      → (p.events.try_reserve s.driver.event_tx).0 ≡ false
      → (t : Session p) × (process_reads (suc fuel) s ≡ some t)
        × (l.ready t.conn ≡ ids)
        × (log k t ≡ log k s)
        × ((j : StreamId) → l.consumed t.conn j ≡ l.consumed s.conn j)
  process_reads_full fuel s id ids e full =
      let c : p.quiche.Conn = (p.quiche.stream_readable_next s.conn).1 in
      (
        reserved (record s { conn = c }),
        process_reads-visit fuel s _ id (l.next_some s.conn id ids e).0
            (visit_full fuel id (record s { conn = c }) full),
        (l.next_some s.conn id ids e).1,
        log-reserved k (record s { conn = c }),
        l.next_consumed s.conn,
      )
