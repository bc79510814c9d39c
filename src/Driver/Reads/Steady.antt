-- ===== src/Driver/Reads/Steady.antt =====
-- What a pass of `process_reads` keeps of a stream while the event channel has room.
use ext_quiche.Base.{
  ℕ, ◌+◌, ◌≤◌, ◌<◌, ◌≡◌, refl, sym, ap, ◌∙◌, inl, inr, Bool, true, false, some, [], ◌++◌, length,
  take, append_assoc, ◌==◌, ==_iff, subst, Bool-cases, arith,
}
use ext_quiche.Base.Map.{contains}
use ext_quiche.External.Quiche.{Bytes, RecvResult, IsStop, ReadLaws, DrainLaws, Received}
use ext_quiche.External.Channel.{SenderLaws, RoomLaws}
use ext_quiche.Connection.{StreamId, received}
use ext_quiche.Driver.{Ports, Session}
use ext_quiche.Driver.Reads.{announcement, reserved, told, deliver, stop}
use ext_quiche.Driver.Reads.Rule.{left, next_conn}
use ext_quiche.Driver.Reads.Forwarding.{stop_bytes}

module _ {p : Ports} (l : ReadLaws p.quiche) (d : DrainLaws p.quiche l) (k : SenderLaws p.events)
    (m : RoomLaws p.events) (j : StreamId) (total : Bytes) where
  -- There is room for all that may still come and more, and bytes of the stream only move from what
  -- waits to what was handed out.
  pub record Steady (more : ℕ) (s : Session p) : Type 0 where
    pub room : left l s + more < m.room s.driver.event_tx
    pub buffer : 1 ≤ length s.driver.io_worker_buf
    pub whole : d.is_reset s.conn j ≡ false
    pub bytes : l.consumed s.conn j ++ d.readable s.conn j ≡ total

  -- The stream is still to be reported, or it is drained.
  pub record Before (s : Session p) : Type 0 where
    pub steady : Steady 0 s
    pub waits : contains j (l.ready s.conn) ≡ false → d.readable s.conn j ≡ []

  -- Or it is the one that is being read.
  pub record Within (id : StreamId) (s : Session p) : Type 0 where
    pub steady : Steady 0 s
    pub waits : contains j (l.ready s.conn) ≡ false → (id == j) ≡ false → d.readable s.conn j ≡ []

  pub record Drained (t : Session p) : Type 0 where
    pub ready : l.ready t.conn ≡ []
    pub readable : d.readable t.conn j ≡ []
    pub consumed : l.consumed t.conn j ≡ total

  pub granted :
      (more : ℕ) (s : Session p) → Steady more s → (p.events.try_reserve s.driver.event_tx).0 ≡ true
  granted more s h = (m.try_reserve_room s.driver.event_tx (omega (arith, h.room))).0

  pub next_conn-Steady :
      (id : StreamId) (s : Session p)
      → (p.quiche.stream_readable_next s.conn).0 ≡ some id
      → Steady 0 s
      → Steady 1 (next_conn s)
  next_conn-Steady id s e h = record {
    room = omega (arith, l.next_backlog s.conn id e, h.room);
    buffer = h.buffer;
    whole = d.next_reset s.conn j ∙ h.whole;
    bytes = rw (l.next_consumed s.conn j, d.next_readable s.conn j) h.bytes;
  }

  pub told-Steady : (id : StreamId) (s : Session p) → Steady 1 s → Steady 0 (told id (reserved s))
  told-Steady id s h =
      let (e, le) = m.try_reserve_room s.driver.event_tx (omega (arith, h.room)) in
      record {
        room = omega (
          arith,
          h.room,
          le,
          m.send_room (s.driver.conn_id, announcement id)
              (p.events.try_reserve s.driver.event_tx).1,
        );
        buffer = h.buffer;
        whole = h.whole;
        bytes = h.bytes;
      }

  pub known-Steady : (s : Session p) → Steady 1 s → Steady 0 s
  known-Steady s h = record {
    room = omega (arith, h.room);
    buffer = h.buffer;
    whole = h.whole;
    bytes = h.bytes;
  }

  deliver_total :
      (id : StreamId) (s : Session p) (n : ℕ) (fin : Bool)
      → let r = p.quiche.stream_recv s.conn id s.driver.io_worker_buf in
        r.result ≡ RecvResult.ok n fin
        → l.consumed r.conn j ++ d.readable r.conn j ≡ l.consumed s.conn j ++ d.readable s.conn j
  deliver_total id s n fin e =
      rw (l.recv_consumed s.conn id s.driver.io_worker_buf j) (elim (Bool-cases (id == j)) [
        | inl here ↦
            rw (here, e)
              (append_assoc (l.consumed s.conn j) _ _
                ∙ ap (λ bs. l.consumed s.conn j ++ bs) (sym (more_here ((==_iff id j).0 here))))
        | inr there ↦ rw (there, d.recv_other s.conn id s.driver.io_worker_buf j there) refl
      ])
    where
      r : Received p.quiche.Conn
      r = p.quiche.stream_recv s.conn id s.driver.io_worker_buf

      more_here : id ≡ j → d.readable s.conn j ≡ take n r.buf ++ d.readable r.conn j
      more_here same =
          subst (λ i. d.readable s.conn i ≡ take n r.buf ++ d.readable r.conn i) same
            (d.recv_more s.conn id s.driver.io_worker_buf n fin e)

  pub deliver-Steady :
      (id : StreamId) (s : Session p) (n : ℕ) (fin : Bool)
      → Steady 0 s
      → let r = p.quiche.stream_recv s.conn id s.driver.io_worker_buf in
        r.result ≡ RecvResult.ok n fin → Steady 0 (deliver id n fin (reserved s) r)
  deliver-Steady id s n fin h e =
      let (granted, le) = m.try_reserve_room s.driver.event_tx (omega (arith, h.room)) in
      record {
        room = omega (
          arith,
          h.room,
          le,
          l.recv_backlog_lt s.conn id s.driver.io_worker_buf n fin e,
          m.send_room
              (
                s.driver.conn_id,
                received id (take n (p.quiche.stream_recv s.conn id s.driver.io_worker_buf).buf)
                    fin,
              )
              (p.events.try_reserve s.driver.event_tx).1,
        );
        buffer = rw (l.recv_buf s.conn id s.driver.io_worker_buf) h.buffer;
        whole = d.recv_reset s.conn id s.driver.io_worker_buf j ∙ h.whole;
        bytes = deliver_total id s n fin e ∙ h.bytes;
      }

  -- Where no chunk comes, nothing was left of that stream, and the others keep what they have.
  pub stop_readable :
      (id : StreamId) (s : Session p)
      → Steady 0 s
      → let r = p.quiche.stream_recv s.conn id s.driver.io_worker_buf in
        IsStop r.result
        → (d.readable r.conn j ≡ d.readable s.conn j)
          × ((id == j) ≡ true → d.readable r.conn j ≡ [])
  stop_readable id s h e = elim (Bool-cases (id == j)) [
    | inl here ↦
        let (empty, still) = stop_here ((==_iff id j).0 here) in (still ∙ sym empty, λ _. still)
    | inr there ↦ (d.recv_other s.conn id s.driver.io_worker_buf j there, λ here. cc)
  ]
    where
      stop_here :
          id ≡ j
          → (d.readable s.conn j ≡ [])
            × (d.readable (p.quiche.stream_recv s.conn id s.driver.io_worker_buf).conn j ≡ [])
      stop_here same =
          subst
            (λ i.
              (d.readable s.conn i ≡ [])
              × (d.readable (p.quiche.stream_recv s.conn id s.driver.io_worker_buf).conn i ≡ []))
            same
            (d.recv_stop s.conn id s.driver.io_worker_buf e h.buffer
              (subst (λ i. d.is_reset s.conn i ≡ false) (sym same) h.whole))

  pub stop-Steady :
      (id : StreamId) (s : Session p)
      → Steady 0 s
      → let r = p.quiche.stream_recv s.conn id s.driver.io_worker_buf in
        IsStop r.result → Steady 0 (stop (reserved s) r)
  stop-Steady id s h e =
      let (granted, le) = m.try_reserve_room s.driver.event_tx (omega (arith, h.room)) in
      record {
        room = omega (
          arith,
          h.room,
          le,
          l.recv_backlog_le s.conn id s.driver.io_worker_buf,
          m.drop_permit_room (p.events.try_reserve s.driver.event_tx).1,
        );
        buffer = rw (l.recv_buf s.conn id s.driver.io_worker_buf) h.buffer;
        whole = d.recv_reset s.conn id s.driver.io_worker_buf j ∙ h.whole;
        bytes = rw (stop_bytes l k id s j e, (stop_readable id s h e).0) h.bytes;
      }
