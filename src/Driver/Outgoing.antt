-- ===== src/Driver/Outgoing.antt =====
-- The life of a driver as far as it concerns what goes out: its callbacks in any order, and between
-- them what PHP puts into the write channel.
pub mod Balance
use ext_quiche.Base.{
  ℕ, ◌≡◌, ◌<◌, refl, sym, ap, ◌∙◌, subst, inl, inr, some, List, [], ◌∷◌, ◌++◌, append-nil,
  append_assoc, length, ◌==◌, Bool-cases,
}
use ext_quiche.Base.Loop.{some_injective}
use ext_quiche.Base.Map.{get, IsMap}
use ext_quiche.External.Quiche.{ReadLaws, SendLaws, HalvesLaws}
use ext_quiche.External.Channel.{ReceiverLaws}
use ext_quiche.Connection.{StreamId, StreamWriter}
use ext_quiche.Driver.{Ports, Session, new_driver, on_conn_established, on_conn_close}
use ext_quiche.Driver.Reads.{process_reads}
use ext_quiche.Driver.Reads.Cases.{read_chunk_cases, announce_cases}
use ext_quiche.Driver.Reads.Rule.{left, Announced, Reads, process_reads-Keeps}
use ext_quiche.Driver.Writes.{process_writes}
use ext_quiche.Driver.Writes.Queue.{content, content-append, NeverFails}
use ext_quiche.Driver.Writes.Streams.{Pending, waiting}
use ext_quiche.Driver.Writes.Intake.{queued, chunks_for}
use ext_quiche.Driver.Writes.Delivery.{outbound, process_writes-IsMap, process_writes-outbound}

module _ {p : Ports} (r : ReceiverLaws p.writes) (w : SendLaws p.quiche) where
  -- What the writing side depends on, for one stream.
  pub record SameOut (id : StreamId) (s t : Session p) : Type 0 where
    pub receiver : t.driver.stream_event_recv ≡ s.driver.stream_event_recv
    pub pending : t.driver.pending_writes ≡ s.driver.pending_writes
    pub written : w.written t.conn id ≡ w.written s.conn id

  module _ (l : ReadLaws p.quiche) where
    open p use {quiche, writes, events, closes}

    -- One callback, or a change from outside, with the messages that PHP sends in it. The network
    -- puts nothing out in PHP's place, and the receiver gets messages behind those that wait.
    pub data Step (s : Session p) : List StreamWriter → Session p → Type 0 where
      establish : Step s [] (on_conn_established s)
      close : Step s [] (on_conn_close s)
      read :
          (fuel : ℕ) (t : Session p) → left l s < fuel → process_reads fuel s ≡ some t → Step s [] t
      write :
          (fuel : ℕ) (t : Session p)
          → length (queued r s) < fuel
          → process_writes fuel s ≡ some t
          → Step s [] t
      send :
          (ms : List StreamWriter) (rx : writes.Rx)
          → r.queued rx ≡ queued r s ++ ms
          → Step s ms (record s { driver = record s.driver { stream_event_recv = rx } })
      outside :
          (c : quiche.Conn) (tx : events.Tx) (close_tx : closes.Tx)
          → ((j : StreamId) → w.written c j ≡ w.written s.conn j)
          → Step s [] (record {
            conn = c;
            driver = record s.driver { event_tx = tx; conn_close_tx = close_tx };
          })

    pub data Life (s : Session p) : List StreamWriter → Session p → Type 0 where
      start : Life s [] s
      after :
          (ms ns : List StreamWriter) (t u : Session p)
          → Life s ms t
          → Step t ns u
          → Life s (ms ++ ns) u

    module _ (h : HalvesLaws p.quiche w) (id : StreamId) where
      still :
          (s t u : Session p)
          → SameOut id s t
          → u.driver.stream_event_recv ≡ t.driver.stream_event_recv
          → u.driver.pending_writes ≡ t.driver.pending_writes
          → w.written u.conn id ≡ w.written t.conn id
          → SameOut id s u
      still s t u k receiver pending written = record {
        receiver = receiver ∙ k.receiver;
        pending = pending ∙ k.pending;
        written = written ∙ k.written;
      }

      pub process_reads-SameOut :
          (fuel : ℕ) (s : Session p)
          → left l s < fuel
          → (t : Session p) × (process_reads fuel s ≡ some t) × SameOut id s t
      process_reads-SameOut fuel s enough =
          let P : Session p → Type 0 = SameOut id s in
          process_reads-Keeps l P (λ _. P)
            (record {
              next = λ t k. still s t _ k refl refl (h.next_written t.conn id);
              announces = λ j t k.
                  announce_cases (Announced l P (λ _. P) P j) j t
                    (λ _ _ _. still s t _ k refl refl refl) (λ _. still s t _ k refl refl refl)
                    (λ _. k);
              reads = λ j t k.
                  let same = h.recv_written t.conn j t.driver.io_worker_buf id in
                  read_chunk_cases (Reads l P (λ _. P) P j) j t (λ _. still s t _ k refl refl refl)
                    (λ _ _ _. still s t _ k refl refl same) (λ _. still s t _ k refl refl same);
            })
            fuel s enough (record { receiver = refl; pending = refl; written = refl })
