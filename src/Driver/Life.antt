-- ===== src/Driver/Life.antt =====
-- The whole life of a driver: its callbacks in any order, and what happens between them.
use ext_quiche.Base.{length-replicate, ℕ, ◌≡◌, ◌<◌, refl, sym, ◌∙◌, subst, some, []}
use ext_quiche.Base.Loop.{some_injective}
use ext_quiche.Base.Map.{contains}
use ext_quiche.External.Quiche.{ReadLaws, DuplexLaws}
use ext_quiche.External.Channel.{SenderLaws}
use ext_quiche.Connection.{StreamId, stream_buffer_size}
use ext_quiche.Driver.{Ports, Session, new_driver, on_conn_established, on_conn_close}
use ext_quiche.Driver.Reads.{process_reads}
use ext_quiche.Driver.Reads.Cases.{read_chunk_cases, announce_cases}
use ext_quiche.Driver.Reads.Rule.{left, Announced, Reads, process_reads-Keeps}
use ext_quiche.Driver.Reads.Sends.{log}
use ext_quiche.Driver.Reads.Forwarding.{IsForwarded, process_reads-IsForwarded}
use ext_quiche.Driver.Reads.Announcements.{IsOrderly, process_reads-IsOrderly}
use ext_quiche.Driver.Reads.Bounds.{IsBounded, process_reads-IsBounded}
use ext_quiche.Driver.Writes.{process_writes}
use ext_quiche.Driver.Writes.Untouched.{Alike, process_writes-Alike}

module _ {p : Ports} (l : ReadLaws p.quiche) (k : SenderLaws p.events) where
  open p use {quiche, writes, events, closes}

  -- One callback, or a change from outside: the network changes the connection, PHP and the server
  -- use the other ends of the channels. Neither takes stream data from the connection, nor sends
  -- through the driver's end.
  pub data Step (s : Session p) : Session p → Type 0 where
    establish : Step s (on_conn_established s)
    close : Step s (on_conn_close s)
    read : (fuel : ℕ) (t : Session p) → left l s < fuel → process_reads fuel s ≡ some t → Step s t
    write : (fuel : ℕ) (t : Session p) → process_writes fuel s ≡ some t → Step s t
    outside :
        (c : quiche.Conn) (rx : writes.Rx) (tx : events.Tx) (close_tx : closes.Tx)
        → ((j : StreamId) → l.consumed c j ≡ l.consumed s.conn j)
        → k.sent tx ≡ log k s
        → Step s (record {
          conn = c;
          driver = record s.driver {
            stream_event_recv = rx;
            event_tx = tx;
            conn_close_tx = close_tx;
          };
        })

  pub data Life (s : Session p) : Session p → Type 0 where
    start : Life s s
    after : (t u : Session p) → Life s t → Step t u → Life s u

  -- What was sent is what quiche handed out, and every event came in its place.
  pub record IsSound (s : Session p) : Type 0 where
    pub forwarded : IsForwarded l k s
    pub orderly : IsOrderly l k s
    pub bounded : IsBounded l k stream_buffer_size s

  Alike-IsSound : (s t : Session p) → Alike l k s t → IsSound s → IsSound t
  Alike-IsSound s t a h = record {
    forwarded = record { bytes = λ j. rw (a.conn_id, a.sent, a.consumed j) (h.forwarded.bytes j) };
    orderly = record {
      seen = λ j. rw (a.sent, a.seen) (h.orderly.seen j);
      ordered = rw (a.conn_id, a.sent) h.orderly.ordered;
    };
    bounded = record { buffer = rw a.buffer h.bounded.buffer; sizes = rw a.sent h.bounded.sizes };
  }

  process_reads-conn_id :
      (n fuel : ℕ) (s : Session p)
      → left l s < fuel
      → s.driver.conn_id ≡ n
      → (t : Session p) × (process_reads fuel s ≡ some t) × (t.driver.conn_id ≡ n)
  process_reads-conn_id n fuel s enough same =
      let Same : Session p → Type 0 = λ s. s.driver.conn_id ≡ n in
      process_reads-Keeps l Same (λ id. Same)
        (record {
          next = λ s e. e;
          announces = λ id s e.
              announce_cases (Announced l Same (λ id. Same) Same id) id s (λ _ _ _. e) (λ _. e)
                (λ _. e);
          reads = λ id s e.
              read_chunk_cases (Reads l Same (λ id. Same) Same id) id s (λ _. e) (λ _ _ _. e)
                (λ _. e);
        })
        fuel s enough same

  module _ (d : DuplexLaws p.quiche l) where
    -- A driver keeps its id.
    pub Step-conn_id : (s t : Session p) → Step s t → t.driver.conn_id ≡ s.driver.conn_id
    unfolding on_conn_established on_conn_close
    Step-conn_id s _ establish = refl
    Step-conn_id s _ close = refl
    Step-conn_id s _ (read fuel t enough e) =
        let (u, e', same) = process_reads-conn_id s.driver.conn_id fuel s enough refl in
        subst (λ t. t.driver.conn_id ≡ s.driver.conn_id) (some_injective (sym e' ∙ e)) same
    Step-conn_id s _ (write fuel t e) = (process_writes-Alike l k d fuel s t e).conn_id
    Step-conn_id s _ (outside c rx tx close_tx same sent) = refl

    Step-IsSound : (s t : Session p) → Step s t → IsSound s → IsSound t
    unfolding on_conn_established on_conn_close
    Step-IsSound s _ establish h =
        Alike-IsSound s _
          (record { conn_id = refl; sent = refl; seen = refl; buffer = refl; consumed = λ j. refl })
          h
    Step-IsSound s _ close h =
        Alike-IsSound s _
          (record { conn_id = refl; sent = refl; seen = refl; buffer = refl; consumed = λ j. refl })
          h
    Step-IsSound s _ (read fuel t enough e) h =
        let (u, e', f) = process_reads-IsForwarded l k fuel s enough h.forwarded in
        let (w, e'', o) = process_reads-IsOrderly l k fuel s enough h.orderly in
        let (v, e3, b) = process_reads-IsBounded l k stream_buffer_size fuel s enough h.bounded in
        record {
          forwarded = subst (IsForwarded l k) (some_injective (sym e' ∙ e)) f;
          orderly = subst (IsOrderly l k) (some_injective (sym e'' ∙ e)) o;
          bounded = subst (IsBounded l k stream_buffer_size) (some_injective (sym e3 ∙ e)) b;
        }
    Step-IsSound s _ (write fuel t e) h =
        Alike-IsSound s t (process_writes-Alike l k d fuel s t e) h
    Step-IsSound s _ (outside c rx tx close_tx same sent) h =
        Alike-IsSound s _
          (record { conn_id = refl; sent = sent; seen = refl; buffer = refl; consumed = same }) h

    Life-Keeps : (s t : Session p) → Life s t → IsSound s → IsSound t
    Life-Keeps s _ start h = h
    Life-Keeps s _ (after t u life step) h = Step-IsSound t u step (Life-Keeps s t life h)

    -- For a connection of which nothing was handed out, and an end of the event channel through
    -- which nothing was sent: over the whole life of the new driver, its callbacks in any order and
    -- the outside between them, the data sent to the server is, stream by stream and in order, what
    -- quiche handed out, every event comes in its place, with seen_streams the live streams, and no
    -- chunk is longer than 64 KiB.
    pub Life-IsSound :
        (conn_id : ℕ) (rx : p.writes.Rx) (tx : p.events.Tx) (close_tx : p.closes.Tx)
        (c : p.quiche.Conn) (t : Session p)
        → k.sent tx ≡ []
        → ((j : StreamId) → l.consumed c j ≡ [])
        → Life (record { conn = c; driver = new_driver conn_id rx tx close_tx }) t
        → IsSound t
    unfolding new_driver contains
    Life-IsSound conn_id rx tx close_tx c t none_sent none_consumed life =
        Life-Keeps _ t life (record {
          forwarded = record { bytes = λ j. rw (none_sent, none_consumed j) refl };
          orderly = record { seen = λ j. rw none_sent refl; ordered = rw none_sent tt };
          bounded = record {
            buffer = length-replicate stream_buffer_size 0;
            sizes = rw none_sent tt;
          };
        })
