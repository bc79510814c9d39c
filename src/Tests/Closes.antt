-- ===== src/Tests/Closes.antt =====
-- The life of a server with a connection, a stream that ends twice, and an object made up.
use ext_quiche.Base.{Bool, ◌+◌, ◌≤◌, ◌≡◌, refl, true, some, List, [], ◌∷◌}
use ext_quiche.Base.Map.{get, insert, remove}
use ext_quiche.Connection.{new_bidi, received}
use ext_quiche.External.Php.{set_on_close, open_bidi_stream}
use ext_quiche.External.Quiche.{Bytes}
use ext_quiche.Stream.{incoming_bidi, Store, with_lock}
use ext_quiche.Stream.Methods.{
  install_slot, send_chunk, make_slot_pair, register, prepare_bidi_stream, open_bidi, opens,
  call_method, run_methods, call_callback,
}
use ext_quiche.Socket.{
  ConnState, Server, build, call_slot, fire_on_close, call_stream_callback, find_slots, take_slots,
  on_received, on_new_bidi, dispatch_driver_event, fire_all, close_streams, on_conn_closed,
  on_new_conn, close_connections, close_server,
}
use ext_quiche.Socket.Effects.{table}
use ext_quiche.Socket.Tick.{Ready, driver, conn_closed, select, handle, tick}
use ext_quiche.Socket.Once.{count, closes}
use ext_quiche.Socket.Once.Exactly.{ClosesOnce, closes_once}
use ext_quiche.Socket.Uses.{Use, ticks, closes_server, calls, run_uses}
use ext_quiche.Socket.Once.Runs.{run_uses-once}
use ext_quiche.Tests.Host.{hosting, serving, server, attending, echo}
use ext_quiche.Tests.Tick.{quiet_turn}

abbrev starting : Store (hosting attending)
starting = record (serving attending) {
  conns = λ c. record {
    write_tx = record { room = 256; log = [] };
    notified = 0;
    php_stream_callbacks = [];
  };
}

abbrev listening : Server (hosting attending)
listening = record (server attending) { connections = [] }

abbrev arrivals : List Ready
arrivals =
    record quiet_turn { listener = some (some 1) }
    ∷ record quiet_turn { server_event = some (8, new_bidi 0) }
    ∷ record quiet_turn { server_event = some (8, received 0 (65 ∷ []) true) }
    ∷ record quiet_turn { server_event = some (8, received 0 [] true) }
    ∷ record quiet_turn { server_event = some (8, new_bidi 4) }
    ∷ record quiet_turn { event_fd = true }
    ∷ []

-- `echo` names a stream that no driver announced.
abbrev life : List (Use (hosting attending).php.Zval)
life =
    ticks arrivals
    ∷ calls ((incoming_bidi echo, set_on_close 31) ∷ (incoming_bidi echo, open_bidi_stream 9) ∷ [])
    ∷ ticks (
        record quiet_turn { conn_close = some (8, true) }
        ∷ record quiet_turn { event_fd = true }
        ∷ [])
    ∷ closes_server
    ∷ []

run_uses-once_example :
    let t = (run_uses listening life starting).1 in
    count 5 (closes (table t 1)) + count 5 t.on_closes ≤ 1
run_uses-once_example = run_uses-once listening life starting (λ c. refl) refl 1 5

-- Both streams of the connection are closed, the later call first in the list.
life_closes : (run_uses listening life starting).1.on_closes ≡ 7 ∷ 5 ∷ []
unfolding get insert remove with_lock install_slot send_chunk make_slot_pair register
    prepare_bidi_stream open_bidi opens call_method run_methods call_callback build call_slot
    fire_on_close call_stream_callback find_slots take_slots on_received on_new_bidi
    dispatch_driver_event fire_all close_streams on_conn_closed on_new_conn close_connections
    close_server select handle tick run_uses
life_closes = refl

-- The peer connects, and opens stream 0.
abbrev opened : List (Use (hosting attending).php.Zval)
opened =
    ticks (
      record quiet_turn { listener = some (some 1) }
      ∷ record quiet_turn { server_event = some (8, new_bidi 0) }
      ∷ record quiet_turn { event_fd = true }
      ∷ [])
    ∷ []

abbrev guest : ConnState
guest = record {
  peer_addr = 1;
  conn = 1;
  open_handle = record { conn_id = 8; peer_addr = 1; conn = 1 };
}

abbrev hosting_guest : Server (hosting attending)
hosting_guest = record listening { connections = (8, guest) ∷ []; id_counter = 9 }

closes_once_example :
    let t = (run_uses listening opened starting).1 in
    ((bs : Bytes) → ClosesOnce (handle hosting_guest (driver 8 (received 0 bs true))) t 5)
    × ((flag : Bool) → ClosesOnce (handle hosting_guest (conn_closed 8 flag)) t 5)
    × ClosesOnce (close_server hosting_guest) t 5
unfolding get insert with_lock install_slot make_slot_pair register call_method run_methods
    call_callback build call_stream_callback on_new_bidi dispatch_driver_event on_new_conn select
    handle tick run_uses
closes_once_example =
    closes_once (λ bs fin z w. (tt, tt)) (λ flag z w. tt) listening hosting_guest opened starting
      (run_uses listening opened starting).1 8 guest 0 (record { on_data = 4; on_close = 5 })
      (λ c. refl) refl refl refl refl refl
