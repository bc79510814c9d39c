-- ===== src/Driver/Writes/Delivery.antt =====
-- What a whole pass of `process_writes` does for one stream.
use ext_quiche.Base.{ℕ, ◌≡◌, ◌<◌, sym, ◌∙◌, some, [], ◌++◌, append-nil, append_assoc, length}
use ext_quiche.Base.Map.{IsMap}
use ext_quiche.External.Channel.{ReceiverLaws}
use ext_quiche.External.Quiche.{Bytes, SendLaws}
use ext_quiche.Connection.{StreamId}
use ext_quiche.Driver.{Ports, Session}
use ext_quiche.Driver.Writes.{process_writes, flush, flush_streams}
use ext_quiche.Driver.Writes.Queue.{
  content, content-append, NeverFails, AcceptsAll, AcceptsAll-NeverFails,
}
use ext_quiche.Driver.Writes.Streams.{
  Pending, waiting, flush_streams-IsMap, flush_streams-written, flush_streams_all,
}
use ext_quiche.Driver.Writes.Intake.{queued, chunks_for, Taken, take_writes}

module _ {p : Ports} (r : ReceiverLaws p.writes) (l : SendLaws p.quiche) where
  -- The bytes of a stream that quiche took, and then those that still wait.
  abbrev pub outbound : StreamId → Session p → Bytes
  outbound id s = l.written s.conn id ++ content (waiting id s.driver.pending_writes)

  -- A pass that ends, with its result and a property of it.
  abbrev pub Ends : ℕ → Session p → (Session p → Type 0) → Type 0
  Ends fuel s P = (t : Session p) × (process_writes fuel s ≡ some t) × P t

  process_writes-Taken :
      (fuel : ℕ) (s : Session p)
      → length (queued r s) < fuel
      → IsMap s.driver.pending_writes
      → (u : Session p) × (process_writes fuel s ≡ some (flush u)) × Taken r s u
  unfolding process_writes
  process_writes-Taken fuel s enough h =
      let (u, e, k) = take_writes r fuel s enough h in (u, rw e, k)

  Taken-outbound :
      {s u : Session p} (id : StreamId)
      → Taken r s u
      → outbound id u ≡ outbound id s ++ content (chunks_for id (queued r s))
  Taken-outbound {s} {u} id k =
      rw (k.conn, k.chunks id, content-append (waiting id s.driver.pending_writes))
        (sym (append_assoc (l.written s.conn id) _ _))

  -- With more fuel than messages in the channel, and a table without double keys, a pass ends,
  -- with the channel empty and a table without double keys.
  pub process_writes-IsMap :
      (fuel : ℕ) (s : Session p)
      → length (queued r s) < fuel
      → IsMap s.driver.pending_writes
      → Ends fuel s (λ t. (queued r t ≡ []) × IsMap t.driver.pending_writes)
  unfolding flush
  process_writes-IsMap fuel s enough h =
      let (u, e, k) = process_writes-Taken fuel s enough h in
      (flush u, e, (k.empty, flush_streams-IsMap l u.driver.pending_writes u.conn k.is_map))

  -- With more fuel than messages in the channel, a table without double keys, and a stream on
  -- which quiche never answers with an error but `Done`, a pass ends, and what quiche took for the
  -- stream followed by what still waits is what it was, followed by the bytes of the stream's
  -- messages in the channel, in order.
  pub process_writes-outbound :
      (fuel : ℕ) (s : Session p) (id : StreamId)
      → length (queued r s) < fuel
      → IsMap s.driver.pending_writes
      → NeverFails l id
      → Ends fuel s (λ t. outbound id t ≡ outbound id s ++ content (chunks_for id (queued r s)))
  unfolding flush
  process_writes-outbound fuel s id enough h never =
      let (u, e, k) = process_writes-Taken fuel s enough h in
      (
        flush u,
        e,
        flush_streams-written l id u.driver.pending_writes u.conn k.is_map never
            ∙ Taken-outbound id k,
      )

  -- With more fuel than messages in the channel, a table without double keys, and a stream of
  -- which quiche takes every chunk whole, a pass ends, nothing is left waiting for the stream, and
  -- quiche has taken all its bytes, those of the channel included. Nothing is assumed of other
  -- streams.
  pub process_writes_all :
      (fuel : ℕ) (s : Session p) (id : StreamId)
      → length (queued r s) < fuel
      → IsMap s.driver.pending_writes
      → AcceptsAll l id
      → Ends fuel s (λ t.
        (waiting id t.driver.pending_writes ≡ [])
        × (l.written t.conn id ≡ outbound id s ++ content (chunks_for id (queued r s))))
  unfolding flush
  process_writes_all fuel s id enough h all =
      let (u, e, k) = process_writes-Taken fuel s enough h in
      let never : NeverFails l id = AcceptsAll-NeverFails l id all in
      let pending : Pending = u.driver.pending_writes in
      let none_left : waiting id (flush_streams p.quiche pending u.conn).0 ≡ [] =
        flush_streams_all l id pending u.conn k.is_map all in
      (
        flush u,
        e,
        (
          none_left,
          sym (append-nil _)
              ∙ (rw none_left at (flush_streams-written l id pending u.conn k.is_map never))
              ∙ Taken-outbound id k,
        ),
      )
