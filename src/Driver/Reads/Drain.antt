-- ===== src/Driver/Reads/Drain.antt =====
-- What `process_reads` does to a stream when the event channel has room.
use ext_quiche.Base.{
  ℕ, ◌≤◌, ◌<◌, ◌≡◌, refl, sym, ap, ◌∙◌, inl, inr, true, false, none, some, List, [], ◌∷◌, ◌++◌,
  length, append-nil, ◌==◌, subst, Bool-cases, arith,
}
use ext_quiche.Base.Map.{contains}
use ext_quiche.Base.Loop.{some_injective}
use ext_quiche.External.Quiche.{Bytes, IsStop, ReadLaws, DrainLaws}
use ext_quiche.External.Channel.{SenderLaws, RoomLaws}
use ext_quiche.Connection.{StreamId}
use ext_quiche.Driver.{Ports, Session}
use ext_quiche.Driver.Reads.{process_reads, announce, read_chunk}
use ext_quiche.Driver.Reads.Log.{delivered}
use ext_quiche.Driver.Reads.Sends.{log}
use ext_quiche.Driver.Reads.Cases.{read_chunk_cases, announce_cases}
use ext_quiche.Driver.Reads.Rule.{left, Leads, Announced, Reads, next_conn, process_reads-Leads}
use ext_quiche.Driver.Reads.Forwarding.{IsForwarded, process_reads-IsForwarded}
use ext_quiche.Driver.Reads.Steady.{
  Steady, Before, Within, Drained, granted, next_conn-Steady, told-Steady, known-Steady,
  deliver-Steady, stop_readable, stop-Steady,
}

module _ {p : Ports} (l : ReadLaws p.quiche) (d : DrainLaws p.quiche l) (k : SenderLaws p.events)
    (m : RoomLaws p.events) (j : StreamId) (total : Bytes) where
  abbrev Waiting : Session p → Type 0
  Waiting = Before l d k m j total

  abbrev Reading : StreamId → Session p → Type 0
  Reading = Within l d k m j total

  abbrev Done : Session p → Type 0
  Done = Drained l d k m j total

  ends :
      (s : Session p)
      → (p.quiche.stream_readable_next s.conn).0 ≡ none
      → Waiting s
      → Done (next_conn s)
  unfolding contains
  ends s e h = split (l.ready s.conn) refl
    where
      split : (ids : List ℕ) → l.ready s.conn ≡ ids → Done (next_conn s)
      split [] r =
          let empty = h.waits (rw r refl) in
          record {
            ready = d.next_empty s.conn r;
            readable = d.next_readable s.conn j ∙ empty;
            consumed = l.next_consumed s.conn j ∙ sym (append-nil _) ∙ rw (← empty) h.steady.bytes;
          }
      split (id ∷ ids) r = cc (e, (l.next_some s.conn id ids r).0)

  -- A reported stream that is not this one leaves it among those still to be reported.
  next_conn-waits :
      (id : StreamId) (s : Session p)
      → (p.quiche.stream_readable_next s.conn).0 ≡ some id
      → Waiting s
      → contains j (l.ready (next_conn s).conn) ≡ false
      → (id == j) ≡ false
      → d.readable (next_conn s).conn j ≡ []
  unfolding contains
  next_conn-waits id s e h gone other =
      d.next_readable s.conn j ∙ h.waits (split (l.ready s.conn) refl)
    where
      split : (ids : List ℕ) → l.ready s.conn ≡ ids → contains j (l.ready s.conn) ≡ false
      split [] r = rw r refl
      split (x ∷ xs) r =
          let (found, rest) = l.next_some s.conn x xs r in
          let same : x ≡ id = some_injective (sym found ∙ e) in rw (r, same, other, ← rest) gone

  announces :
      (id : StreamId) (s : Session p)
      → (p.quiche.stream_readable_next s.conn).0 ≡ some id
      → Waiting s
      → Announced l Waiting Reading Done id (announce id (next_conn s))
  announces id s e h =
      announce_cases (Announced l Waiting Reading Done id) id (next_conn s)
        (λ _ _ _. record {
          steady = told-Steady l d k m j total id (next_conn s) steady;
          waits = next_conn-waits id s e h;
        })
        (λ refused. cc (refused, granted l d k m j total 1 (next_conn s) steady))
        (λ _. record {
          steady = known-Steady l d k m j total (next_conn s) steady;
          waits = next_conn-waits id s e h;
        })
    where
      steady : Steady l d k m j total 1 (next_conn s)
      steady = next_conn-Steady l d k m j total id s e h.steady

  still_waits :
      (id : StreamId) (s : Session p)
      → Reading id s
      → let r = p.quiche.stream_recv s.conn id s.driver.io_worker_buf in
        contains j (l.ready r.conn) ≡ false → (id == j) ≡ false → d.readable r.conn j ≡ []
  still_waits id s h gone other =
      d.recv_other s.conn id s.driver.io_worker_buf j other
      ∙ h.waits (sym (l.recv_ready s.conn id s.driver.io_worker_buf j other) ∙ gone) other

  stopped_waits :
      (id : StreamId) (s : Session p)
      → Reading id s
      → let r = p.quiche.stream_recv s.conn id s.driver.io_worker_buf in
        IsStop r.result → contains j (l.ready r.conn) ≡ false → d.readable r.conn j ≡ []
  stopped_waits id s h e gone = elim (Bool-cases (id == j)) [
    | inl here ↦ (stop_readable l d k m j total id s h.steady e).1 here
    | inr there ↦ still_waits id s h gone there
  ]

  reads :
      (id : StreamId) (s : Session p)
      → Reading id s
      → Reads l Waiting Reading Done id (read_chunk id s)
  reads id s h =
      read_chunk_cases (Reads l Waiting Reading Done id) id s
        (λ refused. cc (refused, granted l d k m j total 0 s h.steady))
        (λ n fin e. record {
          steady = deliver-Steady l d k m j total id s n fin h.steady e;
          waits = λ gone other. still_waits id s h gone other;
        })
        (λ e. record {
          steady = stop-Steady l d k m j total id s h.steady e;
          waits = stopped_waits id s h e;
        })

  drains : Leads {p = p} l Waiting Reading Done
  drains = record { ends = ends; announces = announces; reads = reads }

  drained :
      (fuel : ℕ) (s : Session p)
      → left l s < fuel
      → Waiting s
      → (t : Session p) × (process_reads fuel s ≡ some t) × Done t
  drained = process_reads-Leads l Waiting Reading Done drains

module _ {p : Ports} (l : ReadLaws p.quiche) (d : DrainLaws p.quiche l) (k : SenderLaws p.events)
    (m : RoomLaws p.events) where
  -- Given more fuel than the backlog, more room in the event channel than the backlog, a buffer
  -- that is not empty, a stream that waits to be reported and was not reset, and that what was sent
  -- is what quiche had handed out: a pass ends, no stream waits to be reported, nothing of this
  -- one waits to be read, and the data sent of it is what was sent before followed by all that was
  -- there to read.
  pub process_reads_all :
      (fuel : ℕ) (s : Session p) (j : StreamId)
      → left l s < fuel
      → left l s < m.room s.driver.event_tx
      → 1 ≤ length s.driver.io_worker_buf
      → contains j (l.ready s.conn) ≡ true
      → d.is_reset s.conn j ≡ false
      → IsForwarded l k s
      → (t : Session p) × (process_reads fuel s ≡ some t)
        × (l.ready t.conn ≡ [])
        × (d.readable t.conn j ≡ [])
        × (delivered t.driver.conn_id j (log k t)
            ≡ delivered s.driver.conn_id j (log k s) ++ d.readable s.conn j)
  process_reads_all fuel s j enough room buffer ready whole forwarded =
      let (t, e, f) =
        drained l d k m j (l.consumed s.conn j ++ d.readable s.conn j) fuel s enough (record {
          steady = record {
            room = omega (arith, room);
            buffer = buffer;
            whole = whole;
            bytes = refl;
          };
          waits = λ gone. cc (ready, gone);
        }) in
      let (u, e', g) = process_reads-IsForwarded l k fuel s enough forwarded in
      let same : u ≡ t = some_injective (sym e' ∙ e) in
      (
        t,
        e,
        f.ready,
        f.readable,
        (subst (IsForwarded l k) same g).bytes j
            ∙ f.consumed
            ∙ ap (λ bs. bs ++ d.readable s.conn j) (sym (forwarded.bytes j)),
      )
