-- ===== src/Tests/Writes.antt =====
-- `process_writes` on the connection in memory: stream 0 takes half of a chunk, stream 4 all of it.
use ext_quiche.Base.{ℕ, ◌≡◌, refl, Bool, true, false, none, some, [], ◌∷◌, ◌++◌, arith}
use mathlib.Core.Option
use ext_quiche.Base.Map.{get, IsMap}
use ext_quiche.Connection.{StreamWriter, DriverEvent}
use ext_quiche.Driver.{Ports, Session, new_driver, on_conn_established}
use ext_quiche.Driver.Outgoing.{start, after, establish, write, send}
use ext_quiche.Driver.Outgoing.Balance.{account, Life-Balanced}
use ext_quiche.Driver.Writes.{process_writes}
use ext_quiche.Driver.Writes.Queue.{NeverFails, AcceptsAll}
use ext_quiche.Driver.Writes.Streams.{waiting}
use ext_quiche.Driver.Writes.Delivery.{
  outbound, Ends, process_writes-IsMap, process_writes-outbound, process_writes_all,
}
use ext_quiche.Tests.Wire.{wire_sender, wire_receiver, receiver_laws}
use ext_quiche.Tests.Simulation.{Sim, simulated, simulated_sends, simulated_reads, simulated_halves}

abbrev pub wiring : Ports
wiring = record {
  quiche = simulated;
  writes = wire_receiver StreamWriter;
  events = wire_sender (ℕ × DriverEvent);
  closes = wire_sender (ℕ × Bool);
}

abbrev pub quiet : Sim
quiet = record {
  ready = [];
  inbox = [];
  consumed = λ id. [];
  fin_read = λ id. false;
  written = λ id. [];
  peer_closed = false;
}

abbrev pub writing : Session wiring
writing = record {
  conn = quiet;
  driver = record {
    conn_id = 7;
    stream_event_recv =
        (0, some (1 ∷ 2 ∷ 3 ∷ 4 ∷ []), false) ∷ (4, some (5 ∷ []), false) ∷ (4, none, true) ∷ [];
    event_tx = record { room = 2; log = [] };
    conn_close_tx = record { room = 1; log = [] };
    established = true;
    io_worker_buf = 0 ∷ 0 ∷ [];
    pending_writes = (4, (9 ∷ [], false) ∷ []) ∷ [];
    seen_streams = [];
  };
}

pending_IsMap : IsMap writing.driver.pending_writes
unfolding get
pending_IsMap = (refl, tt)

zero_NeverFails : NeverFails simulated_sends 0
zero_NeverFails c bs fin e h = cc

four_AcceptsAll : AcceptsAll simulated_sends 4
four_AcceptsAll c bs fin = refl

pass :
    Option.map (λ t. t.driver.pending_writes) (process_writes 4 writing)
    ≡ some ((0, (3 ∷ 4 ∷ [], false) ∷ []) ∷ [])
unfolding process_writes
pass = refl

process_writes-outbound_example : Ends (receiver_laws StreamWriter) simulated_sends 4 writing (λ t.
    outbound (receiver_laws StreamWriter) simulated_sends 0 t
    ≡ outbound (receiver_laws StreamWriter) simulated_sends 0 writing ++ 1 ∷ 2 ∷ 3 ∷ 4 ∷ [])
process_writes-outbound_example =
    process_writes-outbound (receiver_laws StreamWriter) simulated_sends 4 writing 0 (omega arith)
      pending_IsMap zero_NeverFails

process_writes_all_example :
    Ends
      (receiver_laws StreamWriter)
      simulated_sends
      4
      writing
      (λ t. (waiting 4 t.driver.pending_writes ≡ []) × (t.conn.written 4 ≡ 9 ∷ 5 ∷ []))
unfolding get
process_writes_all_example =
    process_writes_all (receiver_laws StreamWriter) simulated_sends 4 writing 4 (omega arith)
      pending_IsMap four_AcceptsAll

-- A new driver gets a chunk for stream 0, half of which quiche takes, and then another.
abbrev fresh : Session wiring
fresh = record {
  conn = quiet;
  driver = new_driver 7 [] (record { room = 2; log = [] }) (record { room = 1; log = [] });
}

abbrev in_channel : StreamWriter → Session wiring → Session wiring
in_channel m s = record s { driver = record s.driver { stream_event_recv = m ∷ [] } }

abbrev asked : Session wiring
asked = in_channel (0, some (1 ∷ 2 ∷ 3 ∷ 4 ∷ []), false) (on_conn_established fresh)

passed :
    Ends
      (receiver_laws StreamWriter)
      simulated_sends
      2
      asked
      (λ t. (t.driver.stream_event_recv ≡ []) × IsMap t.driver.pending_writes)
unfolding new_driver on_conn_established get
passed = process_writes-IsMap (receiver_laws StreamWriter) simulated_sends 2 asked (omega arith) tt

abbrev going_on : Session wiring
going_on = in_channel (0, some (5 ∷ []), true) passed.0

Life-Balanced_example :
    account (receiver_laws StreamWriter) simulated_sends simulated_reads simulated_halves 0 going_on
    ≡ 1 ∷ 2 ∷ 3 ∷ 4 ∷ 5 ∷ []
unfolding new_driver on_conn_established
Life-Balanced_example =
    Life-Balanced (receiver_laws StreamWriter) simulated_sends simulated_reads simulated_halves 0 7
      [] (record { room = 2; log = [] }) (record { room = 1; log = [] }) quiet
      ((0, some (1 ∷ 2 ∷ 3 ∷ 4 ∷ []), false) ∷ (0, some (5 ∷ []), true) ∷ []) going_on refl refl
      zero_NeverFails
      (after _ _ passed.0 going_on
        (after _ [] asked passed.0
          (after [] _ (on_conn_established fresh) asked (after [] [] fresh _ start establish)
            (send ((0, some (1 ∷ 2 ∷ 3 ∷ 4 ∷ []), false) ∷ []) _ refl))
          (write 2 passed.0 (omega arith) passed.1))
        (send ((0, some (5 ∷ []), true) ∷ []) _ (rw passed.2.0 refl)))
