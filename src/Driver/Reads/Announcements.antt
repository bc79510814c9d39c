-- ===== src/Driver/Reads/Announcements.antt =====
-- The order in which `process_reads` announces streams and sends their data.
use ext_quiche.Base.{
  ℕ, ◌%◌, ◌<◌, ◌≡◌, ◌⊎◌, refl, sym, ◌∙◌, inl, inr, Bool, true, false, ◌||◌, some, List, ◌==◌,
  ==_refl, if◌then◌else◌, arith,
}
use ext_quiche.Base.Bits.{bit_and-one, bit_and_two}
use ext_quiche.Base.Map.{contains, discard, contains-add, contains-discard}
use ext_quiche.External.Quiche.{RecvResult, ReadLaws, Received}
use ext_quiche.External.Channel.{SenderLaws}
use ext_quiche.Connection.{StreamId}
use ext_quiche.Driver.{Ports, Session}
use ext_quiche.Driver.Reads.{
  announcement, client_initiated, process_reads, reserved, told, deliver, stop,
}
use ext_quiche.Driver.Reads.Log.{live, live-append, live_after, Fits, Orderly, Orderly-append}
use ext_quiche.Driver.Reads.Sends.{log, log-reserved, log-told, log-deliver, log-stop}
use ext_quiche.Driver.Reads.Cases.{read_chunk_cases, announce_cases}
use ext_quiche.Driver.Reads.Rule.{left, Keeps, Announced, Reads, process_reads-Keeps}

-- No stream is live.
abbrev pub nowhere : StreamId → Bool
nowhere id = false

-- `client_initiated` is the low bit of RFC 9000, and `announcement` goes by the next one.
pub client_initiated_even : (id : StreamId) → client_initiated id ≡ true → id % 2 ≡ 0
unfolding client_initiated
client_initiated_even id h = ground (arith, bit_and-one id)

pub even_client_initiated : (id : StreamId) → id % 2 ≡ 0 → client_initiated id ≡ true
unfolding client_initiated
even_client_initiated id h = ground (arith, bit_and-one id)

Fits-announcement :
    (cid : ℕ) (f : StreamId → Bool) (id : StreamId)
    → client_initiated id ≡ true
    → f id ≡ false
    → Fits cid f (cid, announcement id)
unfolding announcement client_initiated
Fits-announcement cid f id h k = ground (arith, bit_and-one id, bit_and_two id)

live_after-announcement :
    (f : StreamId → Bool) (id j : StreamId)
    → live_after f (announcement id) j ≡ (if id == j then true else f j)
unfolding announcement
live_after-announcement f id j = ground arith

or_true : (b : Bool) → (b || true) ≡ true
or_true b = ground arith

seen_after-received :
    (fin : Bool) (id j : StreamId) (f : StreamId → Bool) (seen : List StreamId)
    → f j ≡ contains j seen
    → (if fin then (if id == j then false else f j) else f j)
      ≡ contains j (if fin then discard id seen else seen)
seen_after-received true id j f seen e = rw e (sym (contains-discard id j seen))
seen_after-received false id j f seen e = e

module _ {p : Ports} (l : ReadLaws p.quiche) (k : SenderLaws p.events) where
  abbrev pub live_now : Session p → StreamId → Bool
  live_now s = live nowhere (log k s)

  -- `seen_streams` are the live streams, and every event came in order.
  pub record IsOrderly (s : Session p) : Type 0 where
    pub seen : (j : StreamId) → live_now s j ≡ contains j s.driver.seen_streams
    pub ordered : Orderly s.driver.conn_id nowhere (log k s)

  -- Inside the inner loop the stream is live, or its end was read.
  record InStream (id : StreamId) (s : Session p) : Type 0 where
    orderly : IsOrderly s
    here : client_initiated id ≡ true → (live_now s id ≡ true) ⊎ (l.fin_read s.conn id ≡ true)

  reserved-IsOrderly : (s : Session p) → IsOrderly s → IsOrderly (reserved s)
  reserved-IsOrderly s h = record {
    seen = λ j. rw (log-reserved k s) (h.seen j);
    ordered = rw (log-reserved k s) h.ordered;
  }

  told-IsOrderly :
      (id : StreamId) (s : Session p)
      → IsOrderly s
      → client_initiated id ≡ true
      → contains id s.driver.seen_streams ≡ false
      → IsOrderly (told id (reserved s))
  told-IsOrderly id s h client fresh = record {
    seen = λ j. rw (log-told k id s) (
        live-append nowhere (log k s) _ j
        ∙ live_after-announcement (live_now s) id j
        ∙ rw (h.seen j) (sym (contains-add id j s.driver.seen_streams)));
    ordered = rw (log-told k id s) (
        Orderly-append s.driver.conn_id nowhere (log k s) _ h.ordered
          (Fits-announcement s.driver.conn_id (live_now s) id client (h.seen id ∙ fresh)));
  }

  told_live : (id : StreamId) (s : Session p) → live_now (told id (reserved s)) id ≡ true
  told_live id s = rw (log-told k id s) (
      live-append nowhere (log k s) _ id
      ∙ live_after-announcement (live_now s) id id
      ∙ rw (==_refl id))

  deliver-IsOrderly :
      (id : StreamId) (n : ℕ) (fin : Bool) (s : Session p) (r : Received p.quiche.Conn)
      → IsOrderly s
      → (client_initiated id ≡ true → live_now s id ≡ true)
      → IsOrderly (deliver id n fin (reserved s) r)
  deliver-IsOrderly id n fin s r h open_now = record {
    seen = λ j. rw (log-deliver k id n fin s r) (
        live-append nowhere (log k s) _ j
        ∙ seen_after-received fin id j (live_now s) s.driver.seen_streams (h.seen j));
    ordered = rw (log-deliver k id n fin s r) (
        Orderly-append s.driver.conn_id nowhere (log k s) _ h.ordered
          (refl, λ even. open_now (even_client_initiated id even)));
  }

  stop-IsOrderly :
      (s : Session p) (r : Received p.quiche.Conn) → IsOrderly s → IsOrderly (stop (reserved s) r)
  stop-IsOrderly s r h = record {
    seen = λ j. rw (log-stop k s r) (h.seen j);
    ordered = rw (log-stop k s r) h.ordered;
  }

  -- A chunk comes only from a stream whose end was not read.
  InStream-live :
      (id : StreamId) (s : Session p) (n : ℕ) (fin : Bool)
      → InStream id s
      → (p.quiche.stream_recv s.conn id s.driver.io_worker_buf).result ≡ RecvResult.ok n fin
      → client_initiated id ≡ true
      → live_now s id ≡ true
  InStream-live id s n fin h e client = elim (h.here client) [
    | inl open_now ↦ open_now
    | inr over ↦ cc (over, l.recv_once s.conn id s.driver.io_worker_buf n fin e)
  ]

  deliver-here :
      (id : StreamId) (s : Session p) (n : ℕ) (fin : Bool)
      → let r = p.quiche.stream_recv s.conn id s.driver.io_worker_buf in
        r.result ≡ RecvResult.ok n fin
        → live_now s id ≡ true
        → (live_now (deliver id n fin (reserved s) r) id ≡ true)
          ⊎ (l.fin_read (deliver id n fin (reserved s) r).conn id ≡ true)
  deliver-here id s n true e h = inr (
      l.recv_fin s.conn id s.driver.io_worker_buf id
      ∙ rw (==_refl id, e) (or_true (l.fin_read s.conn id)))
  deliver-here id s n false e h = inl (
      rw (log-deliver k id n false s (p.quiche.stream_recv s.conn id s.driver.io_worker_buf))
        (live-append nowhere (log k s) _ id ∙ h))

  IsOrderly-Keeps : Keeps l IsOrderly InStream
  IsOrderly-Keeps = record {
    next = λ s h. record { seen = h.seen; ordered = h.ordered };
    announces = λ id s h.
        announce_cases (Announced l IsOrderly InStream IsOrderly id) id s
          (λ client fresh _. record {
            orderly = told-IsOrderly id s h client fresh;
            here = λ _. inl (told_live id s);
          })
          (λ _. reserved-IsOrderly s h)
          (λ known. record { orderly = h; here = λ client. inl (h.seen id ∙ known client) });
    reads = λ id s h.
        read_chunk_cases (Reads l IsOrderly InStream IsOrderly id) id s
          (λ _. reserved-IsOrderly s h.orderly)
          (λ n fin e. record {
            orderly =
                deliver-IsOrderly id n fin s (p.quiche.stream_recv s.conn id s.driver.io_worker_buf)
                  h.orderly (InStream-live id s n fin h e);
            here = λ client. deliver-here id s n fin e (InStream-live id s n fin h e client);
          })
          (λ _. stop-IsOrderly s (p.quiche.stream_recv s.conn id s.driver.io_worker_buf) h.orderly);
  }

  -- A pass with more fuel than the backlog ends and keeps this: each event sent has the connection's
  -- tag, a stream is announced as bidirectional or unidirectional by its two low bits and only
  -- while it is not live, data of a stream of the peer comes only while it is live, and
  -- `seen_streams` holds exactly the live streams.
  pub process_reads-IsOrderly :
      (fuel : ℕ) (s : Session p)
      → left l s < fuel
      → IsOrderly s
      → (t : Session p) × (process_reads fuel s ≡ some t) × IsOrderly t
  process_reads-IsOrderly = process_reads-Keeps l IsOrderly InStream IsOrderly-Keeps
