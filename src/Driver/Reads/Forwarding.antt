-- ===== src/Driver/Reads/Forwarding.antt =====
-- Every byte that `process_reads` takes from quiche goes to the server, in order, in chunks that
-- fit the buffer.
use ext_quiche.Base.{
  ℕ, ◌<◌, ◌≡◌, refl, sym, ◌∙◌, Bool, some, [], ◌++◌, append-nil, ◌==◌, ==_refl, Bool-cases, inl,
  inr, if◌then◌else◌, arith,
}
use ext_quiche.External.Quiche.{IsStop, Bytes, RecvResult, ReadLaws, Received, chunk}
use ext_quiche.External.Channel.{SenderLaws}
use ext_quiche.Connection.{StreamId}
use ext_quiche.Driver.{Ports, Session}
use ext_quiche.Driver.Reads.{announcement, process_reads, reserved, told, deliver}
use ext_quiche.Driver.Reads.Log.{piece, delivered, delivered-append}
use ext_quiche.Driver.Reads.Sends.{log, log-reserved, log-told, log-deliver, log-stop}
use ext_quiche.Driver.Reads.Cases.{read_chunk_cases, announce_cases}
use ext_quiche.Driver.Reads.Rule.{left, Keeps, Announced, Reads, process_reads-Keeps}

piece-announcement : (c cid : ℕ) (j id : StreamId) → piece cid j (c, announcement id) ≡ []
unfolding announcement
piece-announcement c cid j id = ground arith

chunk-IsStop : (r : RecvResult) (buf : Bytes) → IsStop r → chunk r buf ≡ []
chunk-IsStop (RecvResult.ok n fin) buf h = absurd h
chunk-IsStop RecvResult.done buf h = refl
chunk-IsStop (RecvResult.err e) buf h = refl

module _ {p : Ports} (l : ReadLaws p.quiche) (k : SenderLaws p.events) where
  -- The server has been sent what quiche has handed out.
  pub record IsForwarded (s : Session p) : Type 0 where
    pub bytes : (j : StreamId) → delivered s.driver.conn_id j (log k s) ≡ l.consumed s.conn j

  told_bytes :
      (id : StreamId) (s : Session p) (j : StreamId)
      → delivered s.driver.conn_id j (log k (told id (reserved s)))
        ≡ delivered s.driver.conn_id j (log k s)
  told_bytes id s j = rw (log-told k id s) (
      delivered-append s.driver.conn_id j (log k s) _
      ∙ rw (piece-announcement s.driver.conn_id s.driver.conn_id j id) (append-nil _))

  deliver_bytes :
      (id : StreamId) (n : ℕ) (fin : Bool) (s : Session p) (j : StreamId)
      → let r = p.quiche.stream_recv s.conn id s.driver.io_worker_buf in
        r.result ≡ RecvResult.ok n fin
        → delivered s.driver.conn_id j (log k s) ≡ l.consumed s.conn j
        → delivered s.driver.conn_id j (log k (deliver id n fin (reserved s) r))
          ≡ l.consumed r.conn j
  deliver_bytes id n fin s j e h =
      rw (log-deliver k id n fin s (p.quiche.stream_recv s.conn id s.driver.io_worker_buf)) (
        delivered-append s.driver.conn_id j (log k s) _
        ∙ rw (h, ==_refl s.driver.conn_id)
            (elim (Bool-cases (id == j)) [
              | inl here ↦ rw here (sym (taken ∙ rw (here, e)))
              | inr there ↦ rw there (append-nil _ ∙ sym (taken ∙ rw there))
            ]))
    where
      r : Received p.quiche.Conn
      r = p.quiche.stream_recv s.conn id s.driver.io_worker_buf

      taken :
          l.consumed r.conn j
          ≡ (if id == j then l.consumed s.conn j ++ chunk r.result r.buf else l.consumed s.conn j)
      taken = l.recv_consumed s.conn id s.driver.io_worker_buf j

  pub stop_bytes :
      (id : StreamId) (s : Session p) (j : StreamId)
      → let r = p.quiche.stream_recv s.conn id s.driver.io_worker_buf in
        IsStop r.result → l.consumed r.conn j ≡ l.consumed s.conn j
  stop_bytes id s j none_left =
      l.recv_consumed s.conn id s.driver.io_worker_buf j
      ∙ rw (chunk-IsStop _ _ none_left) (rw append-nil (same (id == j)))
    where
      same :
          (b : Bool)
          → (if b then l.consumed s.conn j else l.consumed s.conn j) ≡ l.consumed s.conn j
      same b = ground arith

  IsForwarded-Keeps : Keeps l IsForwarded (λ id. IsForwarded)
  IsForwarded-Keeps = record {
    next = λ s h. record { bytes = λ j. h.bytes j ∙ sym (l.next_consumed s.conn j) };
    announces = λ id s h.
        announce_cases (Announced l IsForwarded (λ id. IsForwarded) IsForwarded id) id s
          (λ _ _ _. record { bytes = λ j. told_bytes id s j ∙ h.bytes j })
          (λ _. record { bytes = λ j. rw (log-reserved k s) (h.bytes j) }) (λ _. h);
    reads = λ id s h.
        read_chunk_cases (Reads l IsForwarded (λ id. IsForwarded) IsForwarded id) id s
          (λ _. record { bytes = λ j. rw (log-reserved k s) (h.bytes j) })
          (λ n fin e. record { bytes = λ j. deliver_bytes id n fin s j e (h.bytes j) })
          (λ none_left. record {
            bytes = λ j.
                rw (log-stop k s (p.quiche.stream_recv s.conn id s.driver.io_worker_buf))
                  (h.bytes j ∙ sym (stop_bytes id s j none_left));
          });
  }

  -- A pass with more fuel than the backlog ends, and if before it the bytes sent to the server
  -- were, stream by stream and in order, those that quiche had handed out, then so they are after
  -- it, wherever the event channel was full.
  pub process_reads-IsForwarded :
      (fuel : ℕ) (s : Session p)
      → left l s < fuel
      → IsForwarded s
      → (t : Session p) × (process_reads fuel s ≡ some t) × IsForwarded t
  process_reads-IsForwarded =
      process_reads-Keeps l IsForwarded (λ id. IsForwarded) IsForwarded-Keeps
