-- ===== src/Tests/Outbound.antt =====
-- PHP writes to streams 4 and 7 of a connection, and its driver passes that on.
use ext_quiche.Base.{ℕ, ◌≡◌, refl, true, false, some, List, [], ◌∷◌, append_cancel_left, arith}
use ext_quiche.Base.Map.{get, IsMap}
use ext_quiche.External.Php.{Method, write, close}
use ext_quiche.Connection.{StreamWriter}
use ext_quiche.Driver.{Session, new_driver}
use ext_quiche.Driver.Outgoing.{write}
use ext_quiche.Driver.Outgoing.Balance.{account}
use ext_quiche.Driver.Writes.Queue.{AcceptsAll, AcceptsAll-NeverFails}
use ext_quiche.Driver.Writes.Streams.{waiting}
use ext_quiche.Driver.Writes.Delivery.{Ends, process_writes-IsMap}
use ext_quiche.Stream.{StreamObject, UniStream, incoming_bidi, uni, Store}
use ext_quiche.Stream.Methods.{call_method, send_chunk}
use ext_quiche.System.Outbound.{perform, perform-Reaches}
use ext_quiche.System.Outbound.Whole.{Both, got, begin, go, driver, call, Reached-Conserves}
use ext_quiche.Tests.Wire.{wire_laws, receiver_laws}
use ext_quiche.Tests.Simulation.{simulated_sends, simulated_reads, simulated_halves}
use ext_quiche.Tests.Writes.{wiring, quiet, writing}
use ext_quiche.Tests.Host.{hosting, attending, serving, echo}

abbrev opened : UniStream
opened = record { conn_id = 7; stream_id = 7; conn = 0; on_close = 3 }

-- The write channel has room for two messages.
abbrev crowded : Store (hosting attending)
crowded = record (serving attending) {
  conns = λ c. record ((serving attending).conns c) { write_tx = record { room = 2; log = [] } };
}

abbrev calls : List (StreamObject × Method ℕ)
calls =
    (incoming_bidi echo, write (65 ∷ []) false)
    ∷ (uni opened, write (66 ∷ []) true)
    ∷ (incoming_bidi echo, close)
    ∷ []

abbrev passing : Session wiring
passing = record writing {
  driver = record writing.driver {
    stream_event_recv = (4, some (65 ∷ []), false) ∷ (7, some (66 ∷ []), true) ∷ [];
    pending_writes = [];
  };
}

four_AcceptsAll : AcceptsAll simulated_sends 4
four_AcceptsAll c bs fin = refl

-- The third call raises.
perform-Reaches_example :
    Ends
      (receiver_laws StreamWriter)
      simulated_sends
      3
      passing
      (λ t. (waiting 4 t.driver.pending_writes ≡ []) × (t.conn.written 4 ≡ 65 ∷ []))
unfolding perform call_method send_chunk get
perform-Reaches_example =
    perform-Reaches (wire_laws StreamWriter) (receiver_laws StreamWriter) simulated_sends 0 calls
      crowded 3 passing 4 (refl, (refl, (refl, tt))) refl (omega arith) tt four_AcceptsAll

-- PHP writes to stream 4, the driver passes that on, PHP writes again, and a third call raises.
abbrev beginning : Both (hosting attending) wiring
beginning = record {
  store = crowded;
  session = record {
    conn = quiet;
    driver = new_driver 7 [] (record { room = 2; log = [] }) (record { room = 1; log = [] });
  };
}

abbrev write_echo : ℕ → Store (hosting attending) → Store (hosting attending)
write_echo x s = (call_method (incoming_bidi echo) (write (x ∷ []) false) s).1

abbrev first : Both (hosting attending) wiring
first = record {
  store = write_echo 65 crowded;
  session = got ((4, some (65 ∷ []), false) ∷ []) beginning.session;
}

passed :
    Ends
      (receiver_laws StreamWriter)
      simulated_sends
      2
      first.session
      (λ t. (t.driver.stream_event_recv ≡ []) × IsMap t.driver.pending_writes)
unfolding new_driver get
passed =
    process_writes-IsMap (receiver_laws StreamWriter) simulated_sends 2 first.session (omega arith)
      tt

abbrev between : Both (hosting attending) wiring
between = record first { session = passed.0 }

abbrev second : Both (hosting attending) wiring
second = record {
  store = write_echo 66 first.store;
  session = got ((4, some (66 ∷ []), false) ∷ []) passed.0;
}

abbrev third : Both (hosting attending) wiring
third = record {
  store = write_echo 67 second.store;
  session = got ((4, some (66 ∷ []), false) ∷ []) second.session;
}

Reached-Conserves_example :
    account
      (receiver_laws StreamWriter)
      simulated_sends
      simulated_reads
      simulated_halves
      4
      third.session
    ≡ 65 ∷ 66 ∷ []
unfolding call_method send_chunk new_driver
Reached-Conserves_example =
    Reached-Conserves (wire_laws StreamWriter) (receiver_laws StreamWriter) simulated_sends
      simulated_reads 0 simulated_halves 4 7 [] (record { room = 2; log = [] })
      (record { room = 1; log = [] }) quiet crowded
      ((4, some (65 ∷ []), false) ∷ (4, some (66 ∷ []), false) ∷ []) third refl refl
      (AcceptsAll-NeverFails simulated_sends 4 four_AcceptsAll)
      (go _ [] second third
        (go _ _ between second
          (go _ [] first between
            (go [] _ beginning first begin
              (call (incoming_bidi echo) (write (65 ∷ []) false) _ refl (λ ms e. e)))
            (driver passed.0 (write 2 passed.0 (omega arith) passed.1)))
          (call (incoming_bidi echo) (write (66 ∷ []) false) _ refl
            (λ ms e. rw passed.2.0 (append_cancel_left ((4, some (65 ∷ []), false) ∷ []) _ ms e))))
        (call (incoming_bidi echo) (write (67 ∷ []) false) _ refl
          (λ ms e. append_cancel_left ((4, some (65 ∷ []), false) ∷ []) _ _ e)))
