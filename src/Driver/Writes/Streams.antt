-- ===== src/Driver/Writes/Streams.antt =====
-- `pending_writes.retain(…)` over the queues of all streams.
use ext_quiche.Base.{◌≡◌, refl, ◌∙◌, inl, inr, none, List, [], ◌∷◌, ◌++◌, ◌==◌, arith, Bool-cases}
use ext_quiche.Base.Map.{get, IsMap}
use ext_quiche.External.Quiche.{Quiche, SendLaws}
use ext_quiche.Connection.{StreamId}
use ext_quiche.Driver.{Chunks}
use ext_quiche.Driver.Writes.{flush_queue, flush_streams, queue_of}
use ext_quiche.Driver.Writes.Queue.{
  content, NeverFails, AcceptsAll, flush_queue_ne, flush_queue_keep, flush_queue_all,
  flush_queue-written,
}

abbrev pub Pending : Type 0
Pending = List (StreamId × Chunks)

-- What waits for a stream.
abbrev pub waiting : StreamId → Pending → Chunks
waiting id pending = queue_of (get id pending)

module _ {q : Quiche} (l : SendLaws q) where
  -- A stream with no queue is left alone.
  flush_streams_absent :
      (id : StreamId) (pending : Pending) (c : q.Conn)
      → get id pending ≡ none
      → (get id (flush_streams q pending c).0 ≡ none)
        × (l.written (flush_streams q pending c).1 id ≡ l.written c id)
  unfolding flush_streams get
  flush_streams_absent id [] c h = (refl, refl)
  flush_streams_absent id ((k, queue) ∷ pending) c h =
      let c' : q.Conn = (flush_queue q k queue c).2 in
      ground (arith, flush_streams_absent id pending c', flush_queue_ne l k id queue c)

  pub flush_streams-IsMap :
      (pending : Pending) (c : q.Conn) → IsMap pending → IsMap (flush_streams q pending c).0
  unfolding flush_streams
  flush_streams-IsMap [] c h = tt
  flush_streams-IsMap ((k, queue) ∷ pending) c h =
      let c' : q.Conn = (flush_queue q k queue c).2 in
      ground (arith, flush_streams-IsMap pending c', flush_streams_absent k pending c')

  -- The pass over all queues acts on a stream as the flush of its own queue would do alone.
  pub flush_streams_at :
      (id : StreamId) (pending : Pending) (c : q.Conn)
      → IsMap pending
      → (d : q.Conn) × (l.written d id ≡ l.written c id)
        × (waiting id (flush_streams q pending c).0 ≡ (flush_queue q id (waiting id pending) d).1)
        × (l.written (flush_streams q pending c).1 id
            ≡ l.written (flush_queue q id (waiting id pending) d).2 id)
  unfolding flush_streams get
  flush_streams_at id [] c h = (c, refl, refl, refl)
  flush_streams_at id ((k, queue) ∷ pending) c h = elim (Bool-cases (k == id)) [
    | inl here ↦ (
      c,
      refl,
      ground (
        arith,
        flush_streams_absent id pending (flush_queue q k queue c).2,
        flush_queue_keep l k queue c,
      ),
      ground (arith, flush_streams_absent id pending (flush_queue q k queue c).2),
    )
    | inr there ↦
        let ih = flush_streams_at id pending (flush_queue q k queue c).2 h.1 in
        (
          ih.0,
          ih.1 ∙ flush_queue_ne l k id queue c there,
          ground (arith, ih.2),
          ground (arith, ih.3),
        )
  ]

  pub flush_streams-written :
      (id : StreamId) (pending : Pending) (c : q.Conn)
      → IsMap pending
      → NeverFails l id
      → l.written (flush_streams q pending c).1 id
          ++ content (waiting id (flush_streams q pending c).0)
        ≡ l.written c id ++ content (waiting id pending)
  flush_streams-written id pending c h never =
      let (d, before, left, after) = flush_streams_at id pending c h in
      rw (left, after) (flush_queue-written l id (waiting id pending) d never ∙ rw before)

  pub flush_streams_all :
      (id : StreamId) (pending : Pending) (c : q.Conn)
      → IsMap pending
      → AcceptsAll l id
      → waiting id (flush_streams q pending c).0 ≡ []
  flush_streams_all id pending c h all =
      let (d, before, left, after) = flush_streams_at id pending c h in
      left
      ∙ flush_queue_keep l id (waiting id pending) d
          (flush_queue_all l id (waiting id pending) d all)
