-- ===== src/Driver/Writes/Intake.antt =====
-- The loop that moves PHP's chunks from the write channel into the queues of their streams.
use ext_quiche.Base.{
  ℕ, ◌≡◌, ◌<◌, refl, sym, ◌∙◌, inl, inr, some, List, [], ◌∷◌, ◌++◌, append-nil, append_assoc,
  length, ◌==◌, ==_iff, arith, Bool-cases, if◌then◌else◌,
}
use ext_quiche.Base.Map.{get-insert, IsMap, insert-IsMap}
use ext_quiche.Base.Loop.{loop, loop_lem, Round}
use ext_quiche.External.Channel.{ReceiverLaws}
use ext_quiche.Connection.{StreamId, StreamWriter}
use ext_quiche.Driver.{Ports, Session, Chunks}
use ext_quiche.Driver.Writes.{take_write, push_back, bytes_of}
use ext_quiche.Driver.Writes.Streams.{Pending, waiting}

-- The chunks of one stream among the messages of the channel.
abbrev pub chunks_for : StreamId → List StreamWriter → Chunks
chunks_for id [] = []
chunks_for id ((j, bs, fin) ∷ ms) =
    if j == id then (bytes_of bs, fin) ∷ chunks_for id ms else chunks_for id ms

waiting-push_back :
    (id : StreamId) (m : StreamWriter) (ms : List StreamWriter) (pending : Pending)
    → waiting id (push_back m pending) ++ chunks_for id ms
      ≡ waiting id pending ++ chunks_for id (m ∷ ms)
unfolding push_back
waiting-push_back id (j, bs, fin) ms pending = elim (Bool-cases (j == id)) [
  | inl here ↦
      rw (get-insert j id, here) (rw ((==_iff j id).0 here) (append_assoc (waiting id pending) _ _))
  | inr there ↦ rw (get-insert j id, there)
]

push_back-IsMap :
    (m : StreamWriter) (pending : Pending) → IsMap pending → IsMap (push_back m pending)
unfolding push_back
push_back-IsMap (j, bs, fin) pending h = insert-IsMap j _ pending h

module _ {p : Ports} (r : ReceiverLaws p.writes) where
  abbrev pub queued : Session p → List StreamWriter
  queued s = r.queued s.driver.stream_event_recv

  -- What the loop keeps, from the state `s` in which it starts.
  pub record Taking (s t : Session p) : Type 0 where
    pub conn : t.conn ≡ s.conn
    pub is_map : IsMap t.driver.pending_writes
    pub chunks :
        (id : StreamId)
        → waiting id t.driver.pending_writes ++ chunks_for id (queued t)
          ≡ waiting id s.driver.pending_writes ++ chunks_for id (queued s)

  pub record Taken (s t : Session p) : Type 0 where
    pub conn : t.conn ≡ s.conn
    pub is_map : IsMap t.driver.pending_writes
    pub empty : queued t ≡ []
    pub chunks :
        (id : StreamId)
        → waiting id t.driver.pending_writes
          ≡ waiting id s.driver.pending_writes ++ chunks_for id (queued s)

  take_write-Round :
      (s t : Session p)
      → Taking s t
      → Round (Taking s) (Taken s) (λ u. length (queued u)) (length (queued t)) (take_write t)
  unfolding take_write
  take_write-Round s t h = split (queued t) refl
    where
      rx : p.writes.Rx
      rx = t.driver.stream_event_recv

      split :
          (ms : List StreamWriter)
          → queued t ≡ ms
          → Round (Taking s) (Taken s) (λ u. length (queued u)) (length (queued t)) (take_write t)
      split [] e =
          rw ((r.try_recv_empty rx e).0, take_write)
            (record {
              conn = h.conn;
              is_map = h.is_map;
              empty = (r.try_recv_empty rx e).1;
              chunks = λ id.
                  sym (append-nil (waiting id t.driver.pending_writes)) ∙ (rw e at (h.chunks id));
            })
      split (m ∷ ms) e =
          rw ((r.try_recv_some rx m ms e).0, take_write)
            (
              record {
                conn = h.conn;
                is_map = push_back-IsMap m t.driver.pending_writes h.is_map;
                chunks = λ id.
                    rw ((r.try_recv_some rx m ms e).1)
                      (waiting-push_back id m ms t.driver.pending_writes ∙ (rw e at (h.chunks id)));
              },
              rw ((r.try_recv_some rx m ms e).1, e) (omega arith),
            )

  pub take_writes :
      (fuel : ℕ) (s : Session p)
      → length (queued s) < fuel
      → IsMap s.driver.pending_writes
      → (t : Session p) × (loop fuel take_write s ≡ some t) × Taken s t
  take_writes fuel s enough h =
      loop_lem (Taking s) (Taken s) (λ u. length (queued u)) take_write (take_write-Round s) fuel s
        enough (record { conn = refl; is_map = h; chunks = λ id. refl })
