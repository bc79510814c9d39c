-- ===== src/ServerSocket.antt =====
-- src/conn.rs: the class `QuicheServerSocket`, and `bind` of src/quiche/socket.rs, which its
-- constructor calls.
pub mod Descriptors
pub mod Waiting
pub mod Signal
pub mod Life
use ext_quiche.Base.{
  ℕ, ◌-◌, ◌^◌, Bool, true, false, ◌&&◌, Option, none, some, List, [], ◌∷◌, ◌++◌, map, ltb, ◌==◌,
  if◌then◌else◌,
}
use ext_quiche.Text.{Text, format}
use ext_quiche.External.Io.{Io, Result, ok, err, Machine, Tokio}
use ext_quiche.SocketAddress.{SocketAddress, get_address_result}
use ext_quiche.External.Os.{Os}
use ext_quiche.External.Net.{Platform}
use ext_quiche.Error.{PhpException, QuicheError, runtime_init, into_exception}
use ext_quiche.Runtime.{Process, get_runtime}
use ext_quiche.Config.{Config}
use ext_quiche.Config.Getters.{get_cert_path, get_key_path}
use ext_quiche.Stream.{Outcome, Store}
use ext_quiche.Socket.{Server, close_server}
use ext_quiche.Socket.Tick.{Ready, tick}

-- "bind requires at least one socket address"
abbrev pub bind_text : Text
bind_text =
    98 ∷ 105 ∷ 110 ∷ 100 ∷ 32 ∷ 114 ∷ 101 ∷ 113 ∷ 117 ∷ 105 ∷ 114 ∷ 101 ∷ 115 ∷ 32 ∷ 97 ∷ 116 ∷ 32
    ∷ 108 ∷ 101 ∷ 97 ∷ 115 ∷ 116 ∷ 32 ∷ 111 ∷ 110 ∷ 101 ∷ 32 ∷ 115 ∷ 111 ∷ 99 ∷ 107 ∷ 101 ∷ 116 ∷ 32
    ∷ 97 ∷ 100 ∷ 100 ∷ 114 ∷ 101 ∷ 115 ∷ 115 ∷ []

-- "__construct expects a callable for $on_stream"
abbrev pub callable_text : Text
callable_text =
    95 ∷ 95 ∷ 99 ∷ 111 ∷ 110 ∷ 115 ∷ 116 ∷ 114 ∷ 117 ∷ 99 ∷ 116 ∷ 32 ∷ 101 ∷ 120 ∷ 112 ∷ 101 ∷ 99
    ∷ 116 ∷ 115 ∷ 32 ∷ 97 ∷ 32 ∷ 99 ∷ 97 ∷ 108 ∷ 108 ∷ 97 ∷ 98 ∷ 108 ∷ 101 ∷ 32 ∷ 102 ∷ 111 ∷ 114
    ∷ 32 ∷ 36 ∷ 111 ∷ 110 ∷ 95 ∷ 115 ∷ 116 ∷ 114 ∷ 101 ∷ 97 ∷ 109 ∷ []

-- `PhpException::default`
abbrev pub default_exception : Text → PhpException
default_exception message = record { message = message; code = 0 }

-- An `EventFd` is its descriptor.
pub record QuicheServerSocket (pl : Platform) : Type 0 where
  pub inner : Server pl.host
  pub event_fd : Option ℕ

-- What the calls of the PHP thread work on.
pub record Thread (pl : Platform) : Type 0 where
  -- `RUNTIME`
  pub runtime : Option pl.tokio.Runtime
  pub table : pl.os.Table
  pub store : Store pl.host

-- What `get_runtime` works on.
abbrev pub process_of : {pl : Platform} → Thread pl → Process pl.tokio
process_of s = record { runtime = s.runtime; world = s.table }

abbrev pub with_process : {pl : Platform} → Process pl.tokio → Thread pl → Thread pl
with_process p s = record s { runtime = p.runtime; table = p.world }

-- How a `tick` stands after the turns that it was given: back by the timer, still in its loop, or
-- left by an exception.
pub data Ticked (pl : Platform) : Type 0 where
  finished waits : QuicheServerSocket pl → Ticked pl
  threw : PhpException → QuicheServerSocket pl → Ticked pl

-- The arm for the timer, which waits for ever where there is no `EventFd`.
abbrev pub timer_arm : Option ℕ → Ready → Ready
timer_arm none r = record r { event_fd = false }
timer_arm (some fd) r = r

module _ (pl : Platform) where
  open pl use {io, std, tokio, os, net, host}

  abbrev pub listening_server : Option host.php.Zval → Server host
  listening_server callback = record {
    connections = [];
    id_counter = 0;
    stream_callback = callback;
    listening = true;
  }

  abbrev pub listened :
      Option host.php.Zval
      → Result (List net.Listener) io.Error × os.Table
      → Thread pl
      → Result (Server host) io.Error × Thread pl
  listened callback (ok listeners, w) s = (ok (listening_server callback), record s { table = w })
  listened callback (err e, w) s = (err e, record s { table = w })

  abbrev pub bound :
      Config std
      → Option host.php.Zval
      → Result (List net.Socket) io.Error × os.Table
      → Thread pl
      → Result (Server host) io.Error × Thread pl
  bound config callback (err e, w) s = (err e, record s { table = w })
  bound config callback (ok sockets, w) s =
      listened callback
        (net.listen sockets config.inner (get_cert_path config) (get_key_path config) w) s

  -- `QuicheServerSocketImpl::bind`
  unfoldable pub bind :
      List Text
      → Config std
      → Option host.php.Zval
      → Thread pl
      → Result (Server host) io.Error × Thread pl
  bind [] config callback s = (err (io.invalid_input bind_text), s)
  bind (addr ∷ addrs) config callback s =
      bound config callback (net.bind_all (addr ∷ addrs) s.table) s

  -- The block for `event_fd`: -1 stands for none, and a failed `dup` gives none.
  unfoldable pub duplicate : ℕ → os.Table → Option ℕ × os.Table
  duplicate event_fd_id t =
      let (dup_fd, u) = os.dup event_fd_id t in
      if event_fd_id == 2 ^ 32 - 1
      then (none, t)
      else if ltb dup_fd (2 ^ 31)
      then (some dup_fd, u)
      else (none, u)

  -- An `EventFd` that is dropped closes its descriptor.
  abbrev pub drop_event_fd : Option ℕ → os.Table → os.Table
  drop_event_fd none t = t
  drop_event_fd (some fd) t = os.close fd t

  -- `Ok(Self { event_fd, inner: server… })`; an error drops `event_fd`.
  abbrev pub finish :
      Result (Server host) io.Error
      → Option ℕ
      → Thread pl
      → Result (QuicheServerSocket pl) PhpException × Thread pl
  finish (ok server) event_fd s = (ok (record { inner = server; event_fd = event_fd }), s)
  finish (err e) event_fd s = (
    err (into_exception {io = io} (runtime_init e)),
    record s { table = drop_event_fd event_fd s.table },
  )

  -- Behind `get_runtime`.
  abbrev pub set_up :
      Result tokio.Runtime (QuicheError io)
      → List SocketAddress
      → Config std
      → ℕ
      → host.php.Zval
      → Thread pl
      → Result (QuicheServerSocket pl) PhpException × Thread pl
  set_up (err e) sockets config event_fd_id on_stream s = (err (into_exception e), s)
  set_up (ok rt) sockets config event_fd_id on_stream s =
      let (server, s1) = bind (map get_address_result sockets) config (some on_stream) s in
      let (event_fd, table) = duplicate event_fd_id s1.table in
      finish server event_fd (record s1 { table = table })

  -- `__construct`
  unfoldable pub construct :
      Machine
      → List SocketAddress
      → Config std
      → ℕ
      → host.php.Zval
      → Thread pl
      → Result (QuicheServerSocket pl) PhpException × Thread pl
  construct m sockets config event_fd_id on_stream s =
      let (rt, process) = get_runtime tokio m (process_of s) in
      if host.php.is_callable on_stream
      then set_up rt sockets config event_fd_id on_stream (with_process process s)
      else (err (default_exception callable_text), s)

  abbrev pub ticked :
      QuicheServerSocket pl
      → Outcome (Server host × Bool) × Store host
      → Thread pl
      → Outcome (Ticked pl) × Thread pl
  ticked o (Outcome.ok (v, true), store) s =
      (Outcome.ok (finished (record o { inner = v })), record s { store = store })
  ticked o (Outcome.ok (v, false), store) s =
      (Outcome.ok (waits (record o { inner = v })), record s { store = store })
  ticked o (Outcome.raised, store) s = (Outcome.raised, record s { store = store })
  ticked o (Outcome.deadlock, store) s = (Outcome.deadlock, record s { store = store })

  abbrev pub drive :
      Result tokio.Runtime (QuicheError io)
      → QuicheServerSocket pl
      → List Ready
      → Thread pl
      → Outcome (Ticked pl) × Thread pl
  drive (err e) o turns s = (Outcome.ok (threw (into_exception e) o), s)
  drive (ok rt) o turns s = ticked o (tick o.inner (map (timer_arm o.event_fd) turns) s.store) s

  -- `tick`, over what the turns of the loop find ready
  unfoldable pub tick_socket :
      Machine → QuicheServerSocket pl → List Ready → Thread pl → Outcome (Ticked pl) × Thread pl
  tick_socket m o turns s =
      let (rt, process) = get_runtime tokio m (process_of s) in
      drive rt o turns (with_process process s)

  abbrev pub closed :
      QuicheServerSocket pl
      → Outcome (Server host) × Store host
      → Thread pl
      → Outcome (QuicheServerSocket pl) × Thread pl
  closed o (Outcome.ok v, store) s = (
    Outcome.ok (record { inner = v; event_fd = none }),
    record s { store = store; table = drop_event_fd o.event_fd s.table },
  )
  closed o (Outcome.raised, store) s = (Outcome.raised, record s { store = store })
  closed o (Outcome.deadlock, store) s = (Outcome.deadlock, record s { store = store })

  -- `close`
  unfoldable pub close_socket :
      QuicheServerSocket pl → Thread pl → Outcome (QuicheServerSocket pl) × Thread pl
  close_socket o s = closed o (close_server o.inner s.store) s
