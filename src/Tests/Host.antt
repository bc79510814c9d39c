-- ===== src/Tests/Host.antt =====
-- PHP values that are numbers, those from 100 on not callable, and a server with a connection.
use ext_quiche.Base.{ℕ, true, false, none, some, List, [], ◌∷◌, ltb, ◌==◌, if◌then◌else◌}
use ext_quiche.Connection.{StreamWriter}
use ext_quiche.External.Php.{
  Method, write, set_on_data, Arguments, incoming, chunk, peer_closed, set_on_close,
}
use ext_quiche.Stream.{StreamObject, IncomingBidiStream, incoming_bidi, ConnOpenHandle, Host, Store}
use ext_quiche.Socket.{ConnState, Server}
use ext_quiche.Tests.Wire.{wire_sender}

abbrev pub handle : ConnOpenHandle
handle = record { conn_id = 7; peer_addr = 1; conn = 0 }

-- Stream 4 of connection 7.
abbrev pub echo : IncomingBidiStream
echo = record {
  conn_id = 7;
  stream_id = 4;
  peer_addr = 1;
  conn = 0;
  on_data = 0;
  on_close = 1;
  conn_handle = handle;
}

abbrev pub Script : Type 0
Script = List (StreamObject × Method ℕ)

-- What callbacks do for the given arguments.
abbrev pub Program : Type 0
Program = Arguments StreamObject → Script

abbrev pub hosting : Program → Host
hosting program = record {
  php = record {
    Zval = ℕ;
    is_callable = λ z. ltb z 100;
    World = Unit {0};
    try_call = λ z args w. (program args, w);
  };
  writes = wire_sender StreamWriter;
  channel = λ capacity. record { room = capacity; log = [] };
}

-- `on_data` of stream 4 is callback 20 and its `on_close` callback 30; stream 8 has none.
abbrev pub serving : (program : Program) → Store (hosting program)
serving program = record {
  slots = λ r. if r == 0 then some 20 else if r == 1 then some 30 else none;
  next_slot = 4;
  conns = λ c. record {
    write_tx = record { room = 256; log = [] };
    notified = 0;
    php_stream_callbacks =
        (4, record { on_data = 0; on_close = 1 }) ∷ (8, record { on_data = 2; on_close = 3 }) ∷ [];
  };
  next_conn = 1;
  held = [];
  world = tt;
  calls = [];
  on_closes = [];
}

abbrev pub open_conn : ConnState
open_conn = record { peer_addr = 1; conn = 0; open_handle = handle }

abbrev pub server : (program : Program) → Server (hosting program)
server program = record {
  connections = (7, open_conn) ∷ [];
  id_counter = 8;
  stream_callback = some 10;
  listening = true;
}

abbrev pub echoing : Program
echoing args = (incoming_bidi echo, write (65 ∷ []) false) ∷ []

-- A new stream gets callbacks, data is echoed, and an end does nothing.
abbrev pub attending : Program
attending (incoming o) = (o, set_on_data 20) ∷ (o, set_on_close 30) ∷ []
attending (chunk bs fin) = (incoming_bidi echo, write bs false) ∷ []
attending (peer_closed flag) = []
