-- ===== src/Driver/Reads.antt =====
-- `process_reads` of src/quiche/driver.rs: from the connection into the server's event channel.
pub mod Cases
pub mod Rule
pub mod Log
pub mod Sends
pub mod Forwarding
pub mod Announcements
pub mod Stall
pub mod Steady
pub mod Drain
pub mod Bounds
use Prim.Native.Nat.{bit_and}
use ext_quiche.Base.{ℕ, Bool, true, false, not, ◌&&◌, Option, none, some, take, ◌==◌, if◌then◌else◌}
use ext_quiche.Base.Map.{contains, add, discard}
use ext_quiche.Base.Loop.{Flow, again, leave, loop}
use ext_quiche.External.Quiche.{RecvResult, Received}
use ext_quiche.Connection.{StreamId, DriverEvent, new_bidi, new_uni, received}
use ext_quiche.Driver.{Ports, Session, stream_id_initiator_mask, stream_id_direction_mask}

pub client_initiated : StreamId → Bool
client_initiated id = bit_and id stream_id_initiator_mask == 0

pub announcement : StreamId → DriverEvent
announcement id = if bit_and id stream_id_direction_mask == 0 then new_bidi id else new_uni id

-- Why the inner loop of `process_reads` ends: `break`, or `break 'outer`.
pub data Exit : Type 0 where
  next_stream break_outer : Exit

module _ {p : Ports} where
  open p use {quiche, events}

  -- The session once `try_reserve` has been called.
  abbrev pub reserved : Session p → Session p
  reserved s = record s {
    driver = record s.driver { event_tx = (events.try_reserve s.driver.event_tx).1 };
  }

  -- The session once a new stream is announced with the permit.
  abbrev pub told : StreamId → Session p → Session p
  told id s = record s {
    driver = record s.driver {
      event_tx = events.send (s.driver.conn_id, announcement id) s.driver.event_tx;
      seen_streams = add id s.driver.seen_streams;
    };
  }

  -- The first part of the outer loop's body; false is `break 'outer`.
  pub announce : StreamId → Session p → Bool × Session p
  announce id s =
      if client_initiated id && not (contains id s.driver.seen_streams)
      then (if (events.try_reserve s.driver.event_tx).0
          then (true, told id (reserved s))
          else (false, reserved s))
      else (true, s)

  -- `Ok((n, fin))`: the permit carries the chunk to the server.
  abbrev pub deliver : StreamId → ℕ → Bool → Session p → Received quiche.Conn → Session p
  deliver id n fin s r = record {
    conn = r.conn;
    driver = record s.driver {
      io_worker_buf = r.buf;
      event_tx = events.send (s.driver.conn_id, received id (take n r.buf) fin) s.driver.event_tx;
      seen_streams = if fin then discard id s.driver.seen_streams else s.driver.seen_streams;
    };
  }

  -- Any other result: the permit is dropped.
  abbrev pub stop : Session p → Received quiche.Conn → Session p
  stop s r = record {
    conn = r.conn;
    driver = record s.driver {
      io_worker_buf = r.buf;
      event_tx = events.drop_permit s.driver.event_tx;
    };
  }

  -- A round of the inner loop once a permit is held: the outcome of `stream_recv`.
  abbrev pub on_recv :
      StreamId → Session p → Received quiche.Conn → RecvResult → Flow (Session p) (Exit × Session p)
  on_recv id s r (RecvResult.ok n fin) = again (deliver id n fin s r)
  on_recv id s r RecvResult.done = leave (next_stream, stop s r)
  on_recv id s r (RecvResult.err e) = leave (next_stream, stop s r)

  -- A round of the inner loop.
  pub read_chunk : StreamId → Session p → Flow (Session p) (Exit × Session p)
  read_chunk id s =
      let r = quiche.stream_recv s.conn id s.driver.io_worker_buf in
      if (events.try_reserve s.driver.event_tx).0
      then on_recv id (reserved s) r r.result
      else leave (break_outer, reserved s)

  -- The inner loop.
  pub read_stream : ℕ → StreamId → Session p → Option (Exit × Session p)
  unfolding loop read_chunk
  read_stream fuel id = loop fuel (read_chunk id)

  -- What the outer loop does after the inner one.
  abbrev pub after_stream : Option (Exit × Session p) → Flow (Session p) (Option (Session p))
  after_stream none = leave none
  after_stream (some (next_stream, s)) = again s
  after_stream (some (break_outer, s)) = leave (some s)

  -- The body of the outer loop.
  pub visit : ℕ → StreamId → Session p → Flow (Session p) (Option (Session p))
  unfolding announce read_stream
  visit fuel id s =
      let (allowed, t) = announce id s in
      elim allowed [ true ↦ after_stream (read_stream fuel id t) | false ↦ leave (some t) ]

  pub read_next : ℕ → Session p → Flow (Session p) (Option (Session p))
  unfolding visit
  read_next fuel s =
      let (next, c) = quiche.stream_readable_next s.conn in
      elim next [
        | some id ↦ visit fuel id (record s { conn = c })
        | none ↦ leave (some (record s { conn = c }))
      ]

  abbrev pub join : Option (Option (Session p)) → Option (Session p)
  join (some r) = r
  join none = none

  -- `none` means that the fuel ran out; either loop has it whole.
  unfoldable pub process_reads : ℕ → Session p → Option (Session p)
  unfolding read_next loop client_initiated announcement contains add discard
  process_reads fuel s = join (loop fuel (read_next fuel) s)
