-- ===== src/Tests/System.antt =====
-- A driver that reads one chunk, and the server that hears of it.
use ext_quiche.Base.{ℕ, ◌≡◌, refl, true, some, [], ◌∷◌, replicate, replicate-suc, arith}
use ext_quiche.Base.Map.{get, insert}
use ext_quiche.Stream.{ok, with_lock}
use ext_quiche.Stream.Methods.{
  install_slot, make_slot_pair, register, call_method, run_methods, call_callback,
}
use ext_quiche.Socket.{call_stream_callback, on_new_bidi, dispatch_driver_event}
use ext_quiche.Connection.{DriverEvent, new_bidi, received}
use ext_quiche.Driver.{Session, new_driver, on_conn_established}
use ext_quiche.Driver.Reads.{process_reads}
use ext_quiche.Driver.Life.{start, after, establish, read}
use ext_quiche.Socket.Tick.{select}
use ext_quiche.Socket.Tick.Heard.{Delivers}
use ext_quiche.System.{Life-Delivers}
use ext_quiche.System.Queue.{Joint, begins, moves, drives, hears}
use ext_quiche.System.Queue.Answers.{beginning, Answers, Reached-Answers}
use ext_quiche.Socket.Tick.{driver, handle}
use ext_quiche.Tests.Wire.{wire_laws}
use ext_quiche.Tests.Simulation.{Sim, simulated_reads, simulated_duplex, handed}
use ext_quiche.Tests.Writes.{wiring, quiet}
use ext_quiche.Tests.Host.{hosting, attending, server, serving, open_conn}
use ext_quiche.Tests.Tick.{attending-Courteous, opening}

-- Stream 0 of the peer has one byte and ends, and the channel has room for two events.
abbrev arrived : Sim
arrived = record quiet { ready = 0 ∷ []; inbox = (0, 65, true) ∷ [] }

abbrev born : Session wiring
born = record {
  conn = arrived;
  driver = new_driver 7 [] (record { room = 2; log = [] }) (record { room = 1; log = [] });
}

abbrev ready_to_read : Session wiring
ready_to_read = record born { driver = record born.driver { established = true } }

abbrev read_once : Session wiring
read_once = record {
  conn = handed (record arrived { ready = [] }) 0 65 true [];
  driver = record ready_to_read.driver {
    event_tx = record { room = 0; log = (7, new_bidi 0) ∷ (7, received 0 (65 ∷ []) true) ∷ [] };
    io_worker_buf = 65 ∷ replicate 65535 0;
    seen_streams = [];
  };
}

-- The buffer has 65536 zeros.
one_more : replicate {A = ℕ} 65536 0 ≡ 0 ∷ replicate 65535 0
one_more = replicate-suc 65535 0

first_pass : process_reads 6 ready_to_read ≡ some read_once
unfolding process_reads new_driver
first_pass = rw one_more refl

Life-Delivers_example :
    Delivers (server attending) 7 open_conn (opening ∷ []) 0 (65 ∷ []) true (serving attending)
unfolding on_conn_established new_driver get select
Life-Delivers_example =
    Life-Delivers simulated_reads (wire_laws (ℕ × DriverEvent)) simulated_duplex attending-Courteous
      7 [] (record { room = 2; log = [] }) (record { room = 1; log = [] }) arrived read_once
      (server attending) open_conn (opening ∷ []) ((7, new_bidi 0) ∷ []) [] 0 (65 ∷ []) true
      (serving attending) refl (λ j. refl)
      (after ready_to_read read_once (after born ready_to_read start establish)
        (read 6 read_once (omega arith) first_pass))
      refl (refl, tt) refl refl refl

-- The driver is established and reads; the server hears of the new stream, and a chunk is left.
abbrev apart : Joint wiring (hosting attending)
apart =
    beginning simulated_reads (wire_laws (ℕ × DriverEvent)) simulated_duplex attending-Courteous 7
      [] (record { room = 2; log = [] }) (record { room = 1; log = [] }) arrived (server attending)
      (serving attending)

abbrev established : Joint wiring (hosting attending)
established = record apart { session = ready_to_read }

abbrev sent : Joint wiring (hosting attending)
sent = record established {
  session = read_once;
  queue = (7, new_bidi 0) ∷ (7, received 0 (65 ∷ []) true) ∷ [];
}

abbrev heard : Joint wiring (hosting attending)
heard = record sent {
  queue = (7, received 0 (65 ∷ []) true) ∷ [];
  store = (handle (server attending) (driver 7 (new_bidi 0)) (serving attending)).1;
}

first_turn :
    handle (server attending) (driver 7 (new_bidi 0)) (serving attending)
    ≡ (ok (server attending), heard.store)
unfolding get insert with_lock install_slot make_slot_pair register call_method run_methods
    call_callback call_stream_callback on_new_bidi dispatch_driver_event handle
first_turn = refl

Reached-Answers_example :
    Answers simulated_reads
      (wire_laws (ℕ × DriverEvent))
      simulated_duplex
      attending-Courteous
      7
      open_conn
      0
      (65 ∷ [])
      true
      heard
unfolding on_conn_established new_driver get select
Reached-Answers_example =
    Reached-Answers simulated_reads (wire_laws (ℕ × DriverEvent)) simulated_duplex
      attending-Courteous 7 [] (record { room = 2; log = [] }) (record { room = 1; log = [] })
      arrived (server attending) open_conn (serving attending) heard 0 (65 ∷ []) true [] refl
      (λ j. refl) refl refl
      (moves sent heard
        (moves established sent
          (moves apart established begins (drives ready_to_read [] establish refl))
          (drives read_once ((7, new_bidi 0) ∷ (7, received 0 (65 ∷ []) true) ∷ [])
            (read 6 read_once (omega arith) first_pass) refl))
        (hears (7, new_bidi 0) ((7, received 0 (65 ∷ []) true) ∷ []) (server attending) heard.store
          refl first_turn))
      refl refl
