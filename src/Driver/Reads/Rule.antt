-- ===== src/Driver/Reads/Rule.antt =====
-- The loops of `process_reads` end, and a rule for what they keep.
use ext_quiche.Base.{
  ℕ, ◌≡◌, ◌≤◌, ◌<◌, refl, ap, inl, inr, Bool, true, false, Option, none, some, arith, Option-cases,
}
use ext_quiche.Base.Loop.{Flow, again, leave, loop, loop_lem, Round}
use ext_quiche.External.Quiche.{ReadLaws}
use ext_quiche.Driver.Reads.Cases.{read_chunk_cases, announce_cases}
use ext_quiche.Connection.{StreamId}
use ext_quiche.Driver.{Ports, Session}
use ext_quiche.Driver.Reads.{
  Exit, next_stream, break_outer, announce, read_chunk, read_stream, visit, read_next, after_stream,
  join, process_reads,
}

module _ {p : Ports} where
  -- The session once `stream_readable_next` has been called.
  abbrev pub next_conn : Session p → Session p
  next_conn s = record s { conn = (p.quiche.stream_readable_next s.conn).1 }

module _ {p : Ports} (l : ReadLaws p.quiche) where
  abbrev pub left : Session p → ℕ
  left s = l.backlog s.conn

  conn-announce : (id : StreamId) (s : Session p) → (announce id s).1.conn ≡ s.conn
  conn-announce id s =
      announce_cases (λ w. w.1.conn ≡ s.conn) id s (λ _ _ _. refl) (λ _. refl) (λ _. refl)

  abbrev Shrinks : ℕ → Flow (Session p) (Exit × Session p) → Type 0
  Shrinks n (again t) = left t < n
  Shrinks n (leave (x, t)) = left t ≤ n

  read_chunk-Shrinks : (id : StreamId) (s : Session p) → Shrinks (left s) (read_chunk id s)
  read_chunk-Shrinks id s =
      read_chunk_cases (Shrinks (left s)) id s (λ _. omega arith)
        (λ n fin e. l.recv_backlog_lt s.conn id s.driver.io_worker_buf n fin e)
        (λ _. l.recv_backlog_le s.conn id s.driver.io_worker_buf)

  -- A pass that starts in `P` ends in `Q` if each round of the outer loop starts in `P` again or ends
  -- in `Q`: a report leads to `I id` by way of the announcement, which the inner loop keeps.
  module _ (P : Session p → Type 0) (I : StreamId → Session p → Type 0)
      (Q : Session p → Type 0) where
    abbrev pub Announced : StreamId → Bool × Session p → Type 0
    Announced id (true, t) = I id t
    Announced id (false, t) = Q t

    abbrev pub Reads : StreamId → Flow (Session p) (Exit × Session p) → Type 0
    Reads id (again t) = I id t
    Reads id (leave (next_stream, t)) = P t
    Reads id (leave (break_outer, t)) = Q t

    pub record Leads : Type 0 where
      pub ends :
          (s : Session p) → (p.quiche.stream_readable_next s.conn).0 ≡ none → P s → Q (next_conn s)
      pub announces :
          (id : StreamId) (s : Session p)
          → (p.quiche.stream_readable_next s.conn).0 ≡ some id
          → P s
          → Announced id (announce id (next_conn s))
      pub reads : (id : StreamId) (s : Session p) → I id s → Reads id (read_chunk id s)

    -- What the inner loop leaves with.
    abbrev Left : Exit → Session p → Type 0
    Left next_stream t = P t
    Left break_outer t = Q t

    round :
        (id : StreamId) (n m : ℕ) (w : Flow (Session p) (Exit × Session p))
        → Reads id w
        → Shrinks m w
        → m ≤ n
        → Round (λ t. I id t × (left t ≤ n)) (λ r. Left r.0 r.1 × (left r.1 ≤ n)) left m w
    round id n m (again t) h k le = ((h, omega arith), k)
    round id n m (leave (next_stream, t)) h k le = (h, omega arith)
    round id n m (leave (break_outer, t)) h k le = (h, omega arith)

    -- What the outer loop keeps, with fuel for each inner one, and what it leaves with.
    abbrev Going : ℕ → Session p → Type 0
    Going fuel s = P s × (left s < fuel)

    abbrev Good : Option (Session p) → Type 0
    Good none = ⊥
    Good (some t) = Q t

    after_stream-Round :
        (fuel n : ℕ) (x : Exit) (t : Session p)
        → Left x t
        → left t < n
        → n ≤ fuel
        → Round (Going fuel) Good left n (after_stream (some (x, t)))
    after_stream-Round fuel n next_stream t h m le = ((h, omega arith), m)
    after_stream-Round fuel n break_outer t h m le = h

    module _ (leads : Leads) where
      read_stream-Left :
          (fuel : ℕ) (id : StreamId) (s : Session p)
          → left s < fuel
          → I id s
          → (x : Exit) × (t : Session p) × (read_stream fuel id s ≡ some (x, t))
            × Left x t
            × (left t ≤ left s)
      unfolding read_stream
      read_stream-Left fuel id s enough h =
          let ((x, t), e, (g, m)) =
            loop_lem (λ t. I id t × (left t ≤ left s)) (λ r. Left r.0 r.1 × (left r.1 ≤ left s))
              left (read_chunk id)
              (λ t k.
                round id (left s) (left t) (read_chunk id t) (leads.reads id t k.0)
                  (read_chunk-Shrinks id t) k.1)
              fuel s enough (h, omega arith) in
          (x, t, e, g, m)

      visit-Round :
          (fuel n : ℕ) (id : StreamId) (s : Session p)
          → Announced id (announce id s)
          → left s < n
          → n ≤ fuel
          → Round (Going fuel) Good left n (visit fuel id s)
      unfolding visit
      visit-Round fuel n id s h m le = split (announce id s) h (conn-announce id s)
        where
          split :
              (w : Bool × Session p)
              → Announced id w
              → w.1.conn ≡ s.conn
              → Round (Going fuel) Good left n (elim w.0 [
                | true ↦ after_stream (read_stream fuel id w.1)
                | false ↦ leave (some w.1)
              ])
          split (false, t) k e = k
          split (true, t) k e =
              let same : left t ≡ left s = ap l.backlog e in
              let (x, u, r, g, d) = read_stream-Left fuel id t (omega arith) k in
              rw r (after_stream-Round fuel n x u g (omega arith) le)

      read_next-Round :
          (fuel : ℕ) (s : Session p)
          → Going fuel s
          → Round (Going fuel) Good left (left s) (read_next fuel s)
      unfolding read_next
      read_next-Round fuel s h = elim (Option-cases (p.quiche.stream_readable_next s.conn).0) [
        | inl e ↦ rw (e, read_next) (leads.ends s e h.0)
        | inr (id, e) ↦
            rw (e, read_next)
              (visit-Round fuel (left s) id (next_conn s) (leads.announces id s e h.0)
                (l.next_backlog s.conn id e) (omega arith))
      ]

      -- With fuel for the backlog the pass ends, in `Q`.
      pub process_reads-Leads :
          (fuel : ℕ) (s : Session p)
          → left s < fuel
          → P s
          → (t : Session p) × (process_reads fuel s ≡ some t) × Q t
      unfolding process_reads
      process_reads-Leads fuel s enough h = finish (
          loop_lem (Going fuel) Good left (read_next fuel) (read_next-Round fuel) fuel s enough
            (h, enough))
        where
          finish :
              (r : Option (Session p)) × (loop fuel (read_next fuel) s ≡ some r) × Good r
              → (t : Session p) × (join (loop fuel (read_next fuel) s) ≡ some t) × Q t
          finish (none, e, g) = absurd g
          finish (some t, e, g) = (t, ap join e, g)

  -- The rule where the pass ends in what it starts in.
  module _ (P : Session p → Type 0) (I : StreamId → Session p → Type 0) where
    pub record Keeps : Type 0 where
      pub next :
          (s : Session p) → P s → P (record s { conn = (p.quiche.stream_readable_next s.conn).1 })
      pub announces : (id : StreamId) (s : Session p) → P s → Announced P I P id (announce id s)
      pub reads : (id : StreamId) (s : Session p) → I id s → Reads P I P id (read_chunk id s)

    pub process_reads-Keeps :
        (keeps : Keeps) (fuel : ℕ) (s : Session p)
        → left s < fuel
        → P s
        → (t : Session p) × (process_reads fuel s ≡ some t) × P t
    process_reads-Keeps keeps = process_reads-Leads P I P (record {
      ends = λ s e h. keeps.next s h;
      announces = λ id s e h. keeps.announces id _ (keeps.next s h);
      reads = keeps.reads;
    })
