-- ===== src/External/Quiche.antt =====
-- `tokio_quiche::quic::QuicheConnection`, the connection type of quiche that src/quiche/driver.rs
-- calls. A call returns its result and the connection after it.
use ext_quiche.Base.{
  ℕ, ◌<◌, ◌≤◌, ◌≡◌, Bool, false, ◌||◌, Option, none, some, List, [], ◌∷◌, ◌++◌, length, take, ◌==◌,
  if◌then◌else◌,
}
use ext_quiche.Base.Map.{contains}

abbrev pub Bytes : Type 0
Bytes = List ℕ

-- `Ok((n, fin))`, `Err(Error::Done)` and any other `Err(e)` of `stream_recv`.
pub data RecvResult : Type 0 where
  ok : ℕ → Bool → RecvResult
  done : RecvResult
  err : ℕ → RecvResult

-- `Ok(n)`, `Err(Error::Done)` and any other `Err(e)` of `stream_send`.
pub data SendResult : Type 0 where
  ok : ℕ → SendResult
  done : SendResult
  err : ℕ → SendResult

pub record Received {ℓ} (Conn : Type ℓ) : Type ℓ where
  pub result : RecvResult
  -- the caller's buffer after the call
  pub buf : Bytes
  pub conn : Conn

pub record Sent {ℓ} (Conn : Type ℓ) : Type ℓ where
  pub result : SendResult
  pub conn : Conn

pub record Quiche : Type 1 where
  pub Conn : Type 0
  pub stream_readable_next : Conn → Option ℕ × Conn
  pub stream_recv : Conn → ℕ → Bytes → Received Conn
  pub stream_send : Conn → ℕ → Bytes → Bool → Sent Conn
  -- `peer_error().is_some()`
  pub peer_error : Conn → Bool

-- The bytes that a result hands to the caller, and whether the stream's end came with them.
abbrev pub chunk : RecvResult → Bytes → Bytes
chunk (ok n fin) buf = take n buf
chunk _ buf = []

abbrev pub is_fin : RecvResult → Bool
is_fin (ok n fin) = fin
is_fin _ = false

-- Neither data nor an end came.
abbrev pub IsStop : RecvResult → Type 0
IsStop (RecvResult.ok n fin) = ⊥
IsStop _ = Unit

-- The documented behaviour of the calls that read. `ready` is the queue of streams that
-- `stream_readable_next` has still to report, each once; `consumed` is what `stream_recv` has
-- handed out of a stream; `fin_read` says that the end of a stream was handed out; `backlog`
-- bounds the reports and chunks to come.
module _ (q : Quiche) where
  open q use {Conn, stream_readable_next, stream_recv}

  pub record ReadLaws : Type 0 where
    pub ready : Conn → List ℕ
    pub backlog : Conn → ℕ
    pub consumed : Conn → ℕ → Bytes
    pub fin_read : Conn → ℕ → Bool
    pub next_none : (c : Conn) → ready c ≡ [] → (stream_readable_next c).0 ≡ none
    pub next_some :
        (c : Conn) (id : ℕ) (ids : List ℕ)
        → ready c ≡ id ∷ ids
        → ((stream_readable_next c).0 ≡ some id) × (ready (stream_readable_next c).1 ≡ ids)
    pub next_backlog :
        (c : Conn) (id : ℕ)
        → (stream_readable_next c).0 ≡ some id
        → backlog (stream_readable_next c).1 < backlog c
    pub next_consumed : (c : Conn) (j : ℕ) → consumed (stream_readable_next c).1 j ≡ consumed c j
    pub next_fin : (c : Conn) (j : ℕ) → fin_read (stream_readable_next c).1 j ≡ fin_read c j
    pub recv_buf :
        (c : Conn) (id : ℕ) (buf : Bytes) → length (stream_recv c id buf).buf ≡ length buf
    pub recv_fits :
        (c : Conn) (id : ℕ) (buf : Bytes) (n : ℕ) (fin : Bool)
        → (stream_recv c id buf).result ≡ ok n fin
        → n ≤ length buf
    pub recv_backlog_le :
        (c : Conn) (id : ℕ) (buf : Bytes) → backlog (stream_recv c id buf).conn ≤ backlog c
    pub recv_backlog_lt :
        (c : Conn) (id : ℕ) (buf : Bytes) (n : ℕ) (fin : Bool)
        → (stream_recv c id buf).result ≡ ok n fin
        → backlog (stream_recv c id buf).conn < backlog c
    pub recv_consumed :
        (c : Conn) (id : ℕ) (buf : Bytes) (j : ℕ)
        → consumed (stream_recv c id buf).conn j ≡ (
            if id == j
            then consumed c j ++ chunk (stream_recv c id buf).result (stream_recv c id buf).buf
            else consumed c j)
    -- Nothing is handed out of a stream behind its end.
    pub recv_once :
        (c : Conn) (id : ℕ) (buf : Bytes) (n : ℕ) (fin : Bool)
        → (stream_recv c id buf).result ≡ ok n fin
        → fin_read c id ≡ false
    pub recv_fin :
        (c : Conn) (id : ℕ) (buf : Bytes) (j : ℕ)
        → fin_read (stream_recv c id buf).conn j
          ≡ (if id == j then fin_read c j || is_fin (stream_recv c id buf).result else fin_read c j)
    -- Reading a stream leaves the other streams in the queue, and puts none of them into it.
    pub recv_ready :
        (c : Conn) (id : ℕ) (buf : Bytes) (j : ℕ)
        → (id == j) ≡ false
        → contains j (ready (stream_recv c id buf).conn) ≡ contains j (ready c)

-- The documented behaviour of the calls that read, where it concerns what waits to be read.
-- `readable` is what of a stream has arrived in order and was not handed out, `is_reset` says that
-- the peer reset the stream, which discards it. A call for a chunk that gives none, with space for
-- one, says that nothing is left.
module _ (q : Quiche) (l : ReadLaws q) where
  open q use {Conn, stream_readable_next, stream_recv}

  pub record DrainLaws : Type 0 where
    pub readable : Conn → ℕ → Bytes
    pub is_reset : Conn → ℕ → Bool
    pub next_empty : (c : Conn) → l.ready c ≡ [] → l.ready (stream_readable_next c).1 ≡ []
    pub next_readable : (c : Conn) (j : ℕ) → readable (stream_readable_next c).1 j ≡ readable c j
    pub next_reset : (c : Conn) (j : ℕ) → is_reset (stream_readable_next c).1 j ≡ is_reset c j
    pub recv_reset :
        (c : Conn) (id : ℕ) (buf : Bytes) (j : ℕ)
        → is_reset (stream_recv c id buf).conn j ≡ is_reset c j
    pub recv_other :
        (c : Conn) (id : ℕ) (buf : Bytes) (j : ℕ)
        → (id == j) ≡ false
        → readable (stream_recv c id buf).conn j ≡ readable c j
    pub recv_more :
        (c : Conn) (id : ℕ) (buf : Bytes) (n : ℕ) (fin : Bool)
        → (stream_recv c id buf).result ≡ ok n fin
        → readable c id
          ≡ take n (stream_recv c id buf).buf ++ readable (stream_recv c id buf).conn id
    pub recv_stop :
        (c : Conn) (id : ℕ) (buf : Bytes)
        → IsStop (stream_recv c id buf).result
        → 1 ≤ length buf
        → is_reset c id ≡ false
        → (readable c id ≡ []) × (readable (stream_recv c id buf).conn id ≡ [])

-- Writing hands nothing out.
module _ (q : Quiche) (l : ReadLaws q) where
  pub record DuplexLaws : Type 0 where
    pub send_consumed :
        (c : q.Conn) (id : ℕ) (bs : Bytes) (fin : Bool) (j : ℕ)
        → l.consumed (q.stream_send c id bs fin).conn j ≡ l.consumed c j

-- How many bytes a result says were taken.
abbrev pub accepted : SendResult → ℕ
accepted (ok n) = n
accepted _ = 0

-- The documented behaviour of `stream_send`: it takes a first part of the bytes, or nothing.
-- `written` is what it has taken for a stream so far.
module _ (q : Quiche) where
  open q use {Conn, stream_send}

  pub record SendLaws : Type 0 where
    pub written : Conn → ℕ → Bytes
    pub send_fits :
        (c : Conn) (id : ℕ) (bs : Bytes) (fin : Bool) (n : ℕ)
        → (stream_send c id bs fin).result ≡ ok n
        → n ≤ length bs
    pub send_written :
        (c : Conn) (id : ℕ) (bs : Bytes) (fin : Bool) (j : ℕ)
        → written (stream_send c id bs fin).conn j ≡ (
            if id == j
            then written c j ++ take (accepted (stream_send c id bs fin).result) bs
            else written c j)

-- Reading sends nothing.
module _ (q : Quiche) (w : SendLaws q) where
  pub record HalvesLaws : Type 0 where
    pub next_written :
        (c : q.Conn) (j : ℕ) → w.written (q.stream_readable_next c).1 j ≡ w.written c j
    pub recv_written :
        (c : q.Conn) (id : ℕ) (buf : Bytes) (j : ℕ)
        → w.written (q.stream_recv c id buf).conn j ≡ w.written c j
