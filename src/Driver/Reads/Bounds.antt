-- ===== src/Driver/Reads/Bounds.antt =====
-- How large the chunks are that `process_reads` sends.
use ext_quiche.Base.{
  ℕ, ◌≤◌, ◌<◌, ◌≡◌, ◌∙◌, Bool, some, All, All-append, length, length-take-le, arith,
}
use ext_quiche.External.Quiche.{ReadLaws, Received}
use ext_quiche.External.Channel.{SenderLaws}
use ext_quiche.Connection.{StreamId}
use ext_quiche.Driver.{Ports, Session}
use ext_quiche.Driver.Reads.{announcement, process_reads, reserved, deliver}
use ext_quiche.Driver.Reads.Log.{size}
use ext_quiche.Driver.Reads.Sends.{log, log-reserved, log-told, log-deliver, log-stop}
use ext_quiche.Driver.Reads.Cases.{read_chunk_cases, announce_cases}
use ext_quiche.Driver.Reads.Rule.{left, Keeps, Announced, Reads, process_reads-Keeps}

size-announcement : (c : ℕ) (id : StreamId) (n : ℕ) → size (c, announcement id) ≤ n
unfolding announcement
size-announcement c id n = ground arith

module _ {p : Ports} (l : ReadLaws p.quiche) (k : SenderLaws p.events) (n : ℕ) where
  -- The buffer holds `n` bytes, and no chunk sent is longer.
  pub record IsBounded (s : Session p) : Type 0 where
    pub buffer : length s.driver.io_worker_buf ≡ n
    pub sizes : All (λ e. size e ≤ n) (log k s)

  deliver-IsBounded :
      (id : StreamId) (m : ℕ) (fin : Bool) (s : Session p)
      → IsBounded s
      → IsBounded
          (deliver id m fin (reserved s) (p.quiche.stream_recv s.conn id s.driver.io_worker_buf))
  deliver-IsBounded id m fin s b =
      let r : Received p.quiche.Conn = p.quiche.stream_recv s.conn id s.driver.io_worker_buf in
      let same : length r.buf ≡ n = l.recv_buf s.conn id s.driver.io_worker_buf ∙ b.buffer in
      record {
        buffer = same;
        sizes =
            rw (log-deliver k id m fin s r)
              (All-append _ (log k s) _ b.sizes (rw (← same) (length-take-le m r.buf), tt));
      }

  IsBounded-Keeps : Keeps l IsBounded (λ id. IsBounded)
  IsBounded-Keeps = record {
    next = λ s b. record { buffer = b.buffer; sizes = b.sizes };
    announces = λ id s b.
        announce_cases (Announced l IsBounded (λ id. IsBounded) IsBounded id) id s
          (λ _ _ _. record {
            buffer = b.buffer;
            sizes =
                rw (log-told k id s)
                  (All-append _ (log k s) _ b.sizes (size-announcement s.driver.conn_id id n, tt));
          })
          (λ _. record { buffer = b.buffer; sizes = rw (log-reserved k s) b.sizes }) (λ _. b);
    reads = λ id s b.
        read_chunk_cases (Reads l IsBounded (λ id. IsBounded) IsBounded id) id s
          (λ _. record { buffer = b.buffer; sizes = rw (log-reserved k s) b.sizes })
          (λ m fin e. deliver-IsBounded id m fin s b)
          (λ none_left. record {
            buffer = l.recv_buf s.conn id s.driver.io_worker_buf ∙ b.buffer;
            sizes =
                rw (log-stop k s (p.quiche.stream_recv s.conn id s.driver.io_worker_buf)) b.sizes;
          });
  }

  -- A pass with more fuel than the backlog ends and keeps this: the buffer holds `n` bytes, and no
  -- chunk that was sent to the server is longer than that.
  pub process_reads-IsBounded :
      (fuel : ℕ) (s : Session p)
      → left l s < fuel
      → IsBounded s
      → (t : Session p) × (process_reads fuel s ≡ some t) × IsBounded t
  process_reads-IsBounded = process_reads-Keeps l IsBounded (λ id. IsBounded) IsBounded-Keeps
