-- ===== src/Driver.antt =====
-- src/quiche/driver.rs: the protocol driver of one connection; its loops are in the modules below.
pub mod Reads
pub mod Writes
pub mod Life
pub mod Outgoing
use ext_quiche.Base.{ℕ, Bool, true, false, List, [], replicate}
use ext_quiche.External.Quiche.{Bytes, Quiche}
use ext_quiche.External.Channel.{Sender, Receiver}
use ext_quiche.Connection.{StreamId, StreamWriter, DriverEvent, stream_buffer_size}

-- What the driver is wired to: its connection and the channels of `ConnState::build`.
pub record Ports : Type 1 where
  pub quiche : Quiche
  pub writes : Receiver StreamWriter
  pub events : Sender (ℕ × DriverEvent)
  pub closes : Sender (ℕ × Bool)

abbrev pub Chunks : Type 0
Chunks = List (Bytes × Bool)

-- `write_notify` is waited on by `wait_for_data` only.
pub record StreamQuicDriver (p : Ports) : Type 0 where
  pub conn_id : ℕ
  pub stream_event_recv : p.writes.Rx
  pub event_tx : p.events.Tx
  pub conn_close_tx : p.closes.Tx
  pub established : Bool
  pub io_worker_buf : Bytes
  pub pending_writes : List (StreamId × Chunks)
  pub seen_streams : List StreamId

abbrev pub stream_id_initiator_mask : ℕ
stream_id_initiator_mask = 0b01

abbrev pub stream_id_direction_mask : ℕ
stream_id_direction_mask = 0b10

-- The driver and the connection that it is called with.
pub record Session (p : Ports) : Type 0 where
  pub driver : StreamQuicDriver p
  pub conn : p.quiche.Conn

module _ {p : Ports} where
  open p use {quiche, writes, events, closes}

  -- `ConnState::build`, the driver's half.
  unfoldable pub new_driver : ℕ → writes.Rx → events.Tx → closes.Tx → StreamQuicDriver p
  new_driver conn_id rx event_tx close_tx = record {
    conn_id = conn_id;
    stream_event_recv = rx;
    event_tx = event_tx;
    conn_close_tx = close_tx;
    established = false;
    io_worker_buf = replicate stream_buffer_size 0;
    pending_writes = [];
    seen_streams = [];
  }

  unfoldable pub on_conn_established : Session p → Session p
  on_conn_established s = record s { driver = record s.driver { established = true } }

  pub should_act : StreamQuicDriver p → Bool
  should_act d = d.established

  -- The flag says that the peer closed. A full channel drops the message, which is only logged.
  unfoldable pub on_conn_close : Session p → Session p
  on_conn_close s = record s { driver = record s.driver { conn_close_tx = attempt.1 } }
    where
      attempt : Bool × closes.Tx
      attempt = closes.try_send (s.driver.conn_id, quiche.peer_error s.conn) s.driver.conn_close_tx
