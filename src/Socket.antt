-- ===== src/Socket.antt =====
-- src/quiche/socket.rs: the server's loop and its handlers. They run on the PHP thread.
pub mod Effects
pub mod Firing
pub mod Closing
pub mod Dispatch
pub mod Deadlock
pub mod Shutdown
pub mod Courtesy
pub mod Takeover
pub mod Stable
pub mod Callbacks
pub mod Uses
pub mod Balance
pub mod Once
pub mod Tick
use ext_quiche.Base.{
  ℕ, suc, ◌+◌, ◌%◌, ◌^◌, Bool, true, false, Option, none, some, List, [], ◌∷◌, if◌then◌else◌,
}
use ext_quiche.Base.Map.{get, insert, remove}
use ext_quiche.External.Quiche.{Bytes}
use ext_quiche.External.Php.{Arguments, incoming, chunk, peer_closed}
use ext_quiche.Connection.{StreamId, DriverEvent, new_bidi, new_uni, received}
use ext_quiche.Stream.{
  SlotRef, ConnRef, StreamSlots, ConnOpenHandle, StreamObject, incoming_bidi, incoming_uni, slot,
  callbacks, stream_callback, Outcome, ok, Shared, Host, Store, Exec, update, ◌>>=◌, ◌>>◌, pure,
  gets, modify, with_lock,
}
use ext_quiche.Stream.Methods.{make_slot_pair, register, set_callbacks, call_callback}

pub record ConnState : Type 0 where
  pub peer_addr : ℕ
  -- `php_stream_callbacks`
  pub conn : ConnRef
  pub open_handle : ConnOpenHandle

pub record Server (h : Host) : Type 0 where
  pub connections : List (ℕ × ConnState)
  pub id_counter : ℕ
  pub stream_callback : Option h.php.Zval
  -- whether `listener_stream` still has the listeners of `bind`
  pub listening : Bool

-- The capacity of a connection's write channel.
abbrev pub write_channel_capacity : ℕ
write_channel_capacity = 256

module _ {h : Host} where
  open h use {php}

  -- `ConnState::build`, the server's half.
  unfoldable pub build : ℕ → ℕ → Exec h ConnState
  build conn_id peer_addr s =
      let c = s.next_conn in
      (
        ok (record {
          peer_addr = peer_addr;
          conn = c;
          open_handle = record { conn_id = conn_id; peer_addr = peer_addr; conn = c };
        }),
        record s {
          next_conn = suc c;
          conns = update s.conns c (record {
            write_tx = h.channel write_channel_capacity;
            notified = 0;
            php_stream_callbacks = [];
          });
        },
      )

  -- The callback runs while its slot is locked.
  unfoldable pub call_slot : SlotRef → Arguments StreamObject → Exec h (Unit {0})
  call_slot r args = with_lock (slot r) (do z ← gets (λ s. s.slots r); call_callback z args)

  abbrev pub noted : SlotRef → Store h → Store h
  noted r s = record s { on_closes = r ∷ s.on_closes }

  unfoldable pub fire_on_close : SlotRef → Bool → Exec h (Unit {0})
  fire_on_close r flag = do modify (noted r); call_slot r (peer_closed flag)

  unfoldable pub call_stream_callback : Server h → StreamObject → Exec h (Unit {0})
  call_stream_callback v o =
      with_lock stream_callback (call_callback v.stream_callback (incoming o))

  -- `state.php_stream_callbacks.lock()`, and the value found at the stream.
  unfoldable pub find_slots : ConnRef → StreamId → Exec h (Option StreamSlots)
  find_slots c id = with_lock (callbacks c) (gets (λ s. get id (s.conns c).php_stream_callbacks))

  unfoldable pub take_slots : ConnRef → StreamId → Exec h (Option StreamSlots)
  take_slots c id = with_lock (callbacks c) do
    found ← gets (λ s. get id (s.conns c).php_stream_callbacks)
    modify (λ s. set_callbacks c (remove id (s.conns c).php_stream_callbacks) s)
    pure found

  abbrev pub on_found : Option StreamSlots → (StreamSlots → Exec h (Unit {0})) → Exec h (Unit {0})
  on_found none f = pure tt
  on_found (some slots) f = f slots

  -- The arm for `Data`.
  unfoldable pub on_received : ConnRef → StreamId → Bytes → Bool → Exec h (Unit {0})
  on_received c id bs fin = do
    found ← find_slots c id
    on_found found (λ slots. call_slot slots.on_data (chunk bs fin))
    if fin
        then (do
          removed ← take_slots c id
          on_found removed (λ slots. fire_on_close slots.on_close true))
        else pure tt

  -- The arms for `NewBidi` and `NewUni`.
  unfoldable pub on_new_bidi : Server h → ConnState → ℕ → StreamId → Exec h (Unit {0})
  on_new_bidi v state conn_id id = do
    pair ← make_slot_pair
    register state.conn id (record { on_data = pair.0; on_close = pair.1 })
    call_stream_callback v (
        incoming_bidi (record {
          conn_id = conn_id;
          stream_id = id;
          peer_addr = state.peer_addr;
          conn = state.open_handle.conn;
          on_data = pair.0;
          on_close = pair.1;
          conn_handle = state.open_handle;
        }))

  unfoldable pub on_new_uni : Server h → ConnState → ℕ → StreamId → Exec h (Unit {0})
  on_new_uni v state conn_id id = do
    pair ← make_slot_pair
    register state.conn id (record { on_data = pair.0; on_close = pair.1 })
    call_stream_callback v (
        incoming_uni (record {
          conn_id = conn_id;
          stream_id = id;
          peer_addr = state.peer_addr;
          on_data = pair.0;
          on_close = pair.1;
          conn_handle = state.open_handle;
        }))

  abbrev pub dispatch_to : Server h → ℕ → DriverEvent → Option ConnState → Exec h (Unit {0})
  dispatch_to v conn_id ev none = pure tt
  dispatch_to v conn_id (new_bidi id) (some state) = on_new_bidi v state conn_id id
  dispatch_to v conn_id (new_uni id) (some state) = on_new_uni v state conn_id id
  dispatch_to v conn_id (received id bs fin) (some state) = on_received state.conn id bs fin

  unfoldable pub dispatch_driver_event : Server h → ℕ → DriverEvent → Exec h (Unit {0})
  dispatch_driver_event v conn_id ev = dispatch_to v conn_id ev (get conn_id v.connections)

  unfoldable pub fire_all : Bool → List (StreamId × StreamSlots) → Exec h (Unit {0})
  fire_all flag [] = pure tt
  fire_all flag ((id, slots) ∷ rest) = do fire_on_close slots.on_close flag; fire_all flag rest

  -- `slots_map.drain()` with the map locked.
  unfoldable pub close_streams : ConnRef → Bool → Exec h (Unit {0})
  close_streams c flag = with_lock (callbacks c) do
    entries ← gets (λ s. (s.conns c).php_stream_callbacks)
    modify (set_callbacks c [])
    fire_all flag entries

  -- The arm for `ConnClosed`: the entry is taken out, then the callbacks are called.
  unfoldable pub on_conn_closed : Server h → ℕ → Bool → Exec h (Server h)
  on_conn_closed v conn_id flag = elim (get conn_id v.connections) [
    | none ↦ pure v
    | some state ↦
        let without = record v { connections = remove conn_id v.connections } in
        close_streams state.conn flag >> pure without
  ]

  -- The arm for `NewConn(Some(Ok(…)))`.
  unfoldable pub on_new_conn : Server h → ℕ → Exec h (Server h)
  on_new_conn v peer_addr = do
    state ← build v.id_counter peer_addr
    pure (record v {
      id_counter = (v.id_counter + 1) % 2 ^ 64;
      connections = insert v.id_counter state v.connections;
    })

  unfoldable pub close_connections : List (ℕ × ConnState) → Exec h (Unit {0})
  close_connections [] = pure tt
  close_connections ((id, state) ∷ rest) = do close_streams state.conn false; close_connections rest

  unfoldable pub close_server : Server h → Exec h (Server h)
  close_server v = do
    close_connections v.connections
    pure (record v { connections = []; listening = false })
