-- ===== src/Tests/Reads.antt =====
-- `process_reads` on the connection in memory.
use ext_quiche.Base.{ℕ, ◌≡◌, refl, true, false, some, [], ◌∷◌, arith}
use mathlib.Core.Option
use ext_quiche.Base.Map.{contains}
use ext_quiche.Connection.{DriverEvent, new_bidi, new_uni, received}
use ext_quiche.Driver.{Session}
use ext_quiche.Driver.Reads.{process_reads}
use ext_quiche.Driver.Reads.Forwarding.{IsForwarded, process_reads-IsForwarded}
use ext_quiche.Driver.Reads.Announcements.{IsOrderly, process_reads-IsOrderly}
use ext_quiche.Driver.Reads.Log.{delivered}
use ext_quiche.Driver.Reads.Drain.{process_reads_all}
use ext_quiche.Driver.Reads.Stall.{process_reads_full}
use ext_quiche.Driver.{new_driver, on_conn_established}
use ext_quiche.Driver.Life.{start, after, establish, read, IsSound, Life-IsSound}
use ext_quiche.Tests.Wire.{wire_laws, wire_room}
use ext_quiche.Tests.Draining.{readable, simulated_drain}
use ext_quiche.Tests.Simulation.{simulated_reads, simulated_duplex}
use ext_quiche.Tests.Writes.{wiring, quiet, writing}

-- Streams 0 and 2 of the peer have data, and the channel has room for three events.
abbrev reading : Session wiring
reading = record {
  conn = record quiet {
    ready = 0 ∷ 2 ∷ [];
    inbox = (0, 65, false) ∷ (0, 66, true) ∷ (2, 67, true) ∷ [];
  };
  driver = record writing.driver { event_tx = record { room = 5; log = [] } };
}

-- The same with no room.
abbrev stuffed : Session wiring
stuffed = record reading {
  driver = record reading.driver { event_tx = record { room = 0; log = [] } };
}

-- The last reservation fails, after the third event of the first stream.
events_of_pass :
    Option.map (λ t. t.driver.event_tx.log) (process_reads 6 reading)
    ≡ some (
        (7, new_bidi 0)
        ∷ (7, received 0 (65 ∷ []) false)
        ∷ (7, received 0 (66 ∷ []) true)
        ∷ (7, new_uni 2)
        ∷ (7, received 2 (67 ∷ []) true)
        ∷ [])
unfolding process_reads
events_of_pass = refl

reading-IsForwarded : IsForwarded simulated_reads (wire_laws (ℕ × DriverEvent)) reading
reading-IsForwarded = record { bytes = λ j. refl }

reading-IsOrderly : IsOrderly simulated_reads (wire_laws (ℕ × DriverEvent)) reading
unfolding contains
reading-IsOrderly = record { seen = λ j. refl; ordered = tt }

process_reads-IsForwarded_example :
    (t : Session wiring) × (process_reads 6 reading ≡ some t)
    × IsForwarded simulated_reads (wire_laws (ℕ × DriverEvent)) t
process_reads-IsForwarded_example =
    process_reads-IsForwarded simulated_reads (wire_laws (ℕ × DriverEvent)) 6 reading (omega arith)
      reading-IsForwarded

process_reads-IsOrderly_example :
    (t : Session wiring) × (process_reads 6 reading ≡ some t)
    × IsOrderly simulated_reads (wire_laws (ℕ × DriverEvent)) t
process_reads-IsOrderly_example =
    process_reads-IsOrderly simulated_reads (wire_laws (ℕ × DriverEvent)) 6 reading (omega arith)
      reading-IsOrderly

process_reads_full_example :
    (t : Session wiring) × (process_reads 6 stuffed ≡ some t)
    × (t.conn.ready ≡ 2 ∷ [])
    × (t.driver.event_tx.log ≡ [])
    × ((j : ℕ) → t.conn.consumed j ≡ [])
process_reads_full_example =
    process_reads_full simulated_reads (wire_laws (ℕ × DriverEvent)) 5 stuffed 0 (2 ∷ []) refl refl

-- The same with room for more than the backlog.
abbrev roomy : Session wiring
roomy = record reading {
  driver = record reading.driver { event_tx = record { room = 6; log = [] } };
}

process_reads_all_example :
    (t : Session wiring) × (process_reads 6 roomy ≡ some t)
    × (t.conn.ready ≡ [])
    × (readable t.conn 2 ≡ [])
    × (delivered t.driver.conn_id 2 t.driver.event_tx.log ≡ 67 ∷ [])
unfolding contains
process_reads_all_example =
    process_reads_all simulated_reads simulated_drain (wire_laws (ℕ × DriverEvent))
      (wire_room (ℕ × DriverEvent)) 6 roomy 2 (omega arith) (omega arith) (omega arith) refl refl
      (record { bytes = λ j. refl })

-- A new driver before the connection of `reading`.
abbrev born : Session wiring
born = record {
  conn = reading.conn;
  driver = new_driver 7 [] (record { room = 5; log = [] }) (record { room = 1; log = [] });
}

abbrev ready_to_read : Session wiring
ready_to_read = record born { driver = record born.driver { established = true } }

first_pass :
    (t : Session wiring) × (process_reads 6 ready_to_read ≡ some t)
    × IsForwarded simulated_reads (wire_laws (ℕ × DriverEvent)) t
unfolding new_driver
first_pass =
    process_reads-IsForwarded simulated_reads (wire_laws (ℕ × DriverEvent)) 6 ready_to_read
      (omega arith) (record { bytes = λ j. refl })

Life-IsSound_example : IsSound simulated_reads (wire_laws (ℕ × DriverEvent)) first_pass.0
unfolding on_conn_established
Life-IsSound_example =
    Life-IsSound simulated_reads (wire_laws (ℕ × DriverEvent)) simulated_duplex 7 []
      (record { room = 5; log = [] }) (record { room = 1; log = [] }) reading.conn first_pass.0 refl
      (λ j. refl)
      (after ready_to_read first_pass.0 (after born ready_to_read start establish)
        (read 6 first_pass.0 (omega arith) first_pass.1))
