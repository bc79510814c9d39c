-- ===== src/Tests/Socket.antt =====
-- The server's handlers.
use ext_quiche.Base.{ℕ, Bool, some, ◌≡◌, refl, true, false, [], ◌∷◌}
use ext_quiche.Base.Map.{get, remove}
use ext_quiche.Connection.{received}
use ext_quiche.External.Php.{set_on_data, open_bidi_stream, chunk, peer_closed}
use ext_quiche.Stream.{incoming_bidi, Store, ok}
use ext_quiche.Socket.{close_server, on_conn_closed, dispatch_driver_event}
use ext_quiche.Socket.Effects.{table, DataOnlyWrites, CloseOnlyWrites}
use ext_quiche.Socket.Firing.{Becomes}
use ext_quiche.Socket.Closing.{emptied, on_conn_closed-Forgets}
use ext_quiche.Socket.Dispatch.{ended, dispatch-Handles}
use ext_quiche.Socket.Deadlock.{Hangs, set_on_data_in_on_data, open_stream_in_on_close}
use ext_quiche.Driver.{Session, on_conn_close}
use ext_quiche.System.Ending.{on_conn_close-Forgets}
use ext_quiche.Socket.Closing.{Forgets}
use ext_quiche.Tests.Wire.{wire_laws}
use ext_quiche.Tests.Writes.{wiring, quiet, writing}
use ext_quiche.Socket.Takeover.{open_bidi_deaf}
use ext_quiche.Stream.{BidiStream}
use ext_quiche.Stream.Methods.{open_bidi}
use ext_quiche.Socket.Shutdown.{drained, close_server_lem}
use ext_quiche.Tests.Host.{handle, echo, Program, hosting, serving, open_conn, server, echoing}

echoing-DataOnlyWrites : DataOnlyWrites (hosting echoing)
echoing-DataOnlyWrites bs fin z w = (tt, tt)

echoing-CloseOnlyWrites : CloseOnlyWrites (hosting echoing)
echoing-CloseOnlyWrites flag z w = (tt, tt)

on_conn_closed-Forgets_example :
    (t : Store (hosting echoing)) × (on_conn_closed (server echoing) 7 true (serving echoing)
      ≡ (ok (record (server echoing) { connections = [] }), t))
    × Becomes (serving echoing) t (emptied 0 (serving echoing)) ((30, peer_closed true) ∷ [])
unfolding get remove
on_conn_closed-Forgets_example =
    on_conn_closed-Forgets echoing-CloseOnlyWrites (server echoing) 7 true (serving echoing) refl

dispatch-Handles_example :
    (t : Store (hosting echoing)) × (dispatch_driver_event
        (server echoing)
        7
        (received 4 (65 ∷ []) true)
        (serving echoing)
      ≡ (ok tt, t))
    × Becomes
        (serving echoing)
        t
        (ended 0 4 true (serving echoing))
        ((20, chunk (65 ∷ []) true) ∷ (30, peer_closed true) ∷ [])
unfolding get
dispatch-Handles_example =
    dispatch-Handles echoing-DataOnlyWrites echoing-CloseOnlyWrites (server echoing) 7 4 (65 ∷ [])
      true (serving echoing) refl

-- Stream 4 has callbacks, until PHP opens a stream of that id.
open_bidi_deaf_example :
    (o : BidiStream) × (t : Store (hosting echoing)) × (u : Store (hosting echoing)) × (open_bidi
        handle 4
        (serving echoing)
      ≡ (ok o, t))
    × (dispatch_driver_event (server echoing) 7 (received 4 (65 ∷ []) true) t ≡ (ok tt, u))
    × (u.calls ≡ [])
unfolding get
open_bidi_deaf_example =
    open_bidi_deaf echoing-DataOnlyWrites echoing-CloseOnlyWrites (server echoing) 7 open_conn
      handle 4 (65 ∷ []) true (serving echoing) refl refl refl

abbrev rehooking : Program
rehooking args = (incoming_bidi echo, set_on_data 21) ∷ []

set_on_data_in_on_data_example :
    Hangs
      (dispatch_driver_event (server rehooking) 7 (received 4 (65 ∷ []) false) (serving rehooking))
unfolding get
set_on_data_in_on_data_example =
    set_on_data_in_on_data (server rehooking) 7 4 (65 ∷ []) false (serving rehooking) open_conn
      (record { on_data = 0; on_close = 1 }) 20 21 echo [] refl refl refl refl refl refl refl refl

abbrev reopening : Program
reopening args = (incoming_bidi echo, open_bidi_stream 9) ∷ []

open_stream_in_on_close_example :
    Hangs (on_conn_closed (server reopening) 7 true (serving reopening))
unfolding get
open_stream_in_on_close_example =
    open_stream_in_on_close (server reopening) 7 true (serving reopening) open_conn 4
      (record { on_data = 0; on_close = 1 }) ((8, record { on_data = 2; on_close = 3 }) ∷ []) 30
      echo 9 [] refl refl refl refl refl refl

close_server_lem_example :
    (t : Store (hosting echoing)) × (close_server (server echoing) (serving echoing)
      ≡ (ok (record (server echoing) { connections = []; listening = false }), t))
    × Becomes
        (serving echoing)
        t
        (drained (table (serving echoing)) (server echoing).connections)
        ((30, peer_closed false) ∷ [])
close_server_lem_example =
    close_server_lem echoing-CloseOnlyWrites (server echoing) (serving echoing) refl

-- The driver of connection 7, whose peer has closed it.
abbrev ended_by_peer : Session wiring
ended_by_peer = record writing { conn = record quiet { peer_closed = true } }

on_conn_close-Forgets_example :
    (7 ≡ ended_by_peer.driver.conn_id)
    × (true ≡ true)
    × Forgets (server echoing) 7 true (serving echoing) (some open_conn)
unfolding on_conn_close get
on_conn_close-Forgets_example =
    on_conn_close-Forgets (wire_laws (ℕ × Bool)) echoing-CloseOnlyWrites ended_by_peer
      (server echoing) (serving echoing) 7 true refl refl
