-- ===== src/Connection.antt =====
-- src/quiche/conn.rs: the types that the driver, the server and the PHP objects exchange.
use ext_quiche.Base.{ℕ, Bool, Option}
use ext_quiche.External.Quiche.{Bytes}

abbrev pub StreamId : Type 0
StreamId = ℕ

abbrev pub StreamData : Type 0
StreamData = Option Bytes

abbrev pub StreamFin : Type 0
StreamFin = Bool

-- An outbound chunk.
abbrev pub StreamWriter : Type 0
StreamWriter = StreamId × StreamData × StreamFin

pub data DriverEvent : Type 0 where
  new_bidi : StreamId → DriverEvent
  new_uni : StreamId → DriverEvent
  received : StreamId → Bytes → Bool → DriverEvent

abbrev pub stream_buffer_size : ℕ
stream_buffer_size = 65536
