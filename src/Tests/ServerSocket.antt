-- ===== src/Tests/ServerSocket.antt =====
-- Objects of the server class.
use ext_quiche.Base.{
  ℕ, false, ◌+◌, sym, ◌∙◌, ==_refl, Option, some, List, length, ◌≡◌, ◌≢◌, ◌^◌, refl, none, [], ◌∷◌,
  arith,
}
use ext_quiche.External.Io.{Result, Tokio}
use ext_quiche.External.Os.{Alike}
use ext_quiche.External.Net.{Net, Platform, PlatformLaws}
use ext_quiche.Text.{Text, format, from_str_radix}
use ext_quiche.Runtime.{get_runtime, worker_thread_count}
use ext_quiche.Stream.{Outcome}
use ext_quiche.Eventfd.{network_eventfd_create, network_eventfd_signal, truncate, sign_extend}
use ext_quiche.SocketAddress.{SocketAddress, get_address_result}
use ext_quiche.ServerSocket.{
  QuicheServerSocket, Thread, finished, bind, construct, tick_socket, duplicate, listening_server,
}
use ext_quiche.SocketAddress.Split.{rsplit_once, get_address_result-rsplit_once}
use ext_quiche.ServerSocket.Descriptors.{Constructs, construct-Constructs}
use ext_quiche.ServerSocket.Waiting.{tick_without_event_fd}
use ext_quiche.ServerSocket.Signal.{signal_wakes}
use ext_quiche.Tests.Config.{plain_std, plain}
use ext_quiche.Tests.Runtime.{text_io, three_cores}
use ext_quiche.Tests.Descriptors.{
  memory_os, memory_laws, file_of, file_of-append, opened, even_file, is_odd, same-Unchanged,
  opened-Unchanged,
}
use ext_quiche.Tests.Host.{hosting, serving, attending}
use ext_quiche.Tests.Tick.{opening}

-- A runtime opens a file, and so does a socket; all can be had.
abbrev open_tokio : Tokio text_io memory_os.Table
open_tokio = record { Runtime = ℕ × ℕ; build = λ n t. (Result.ok (length t.0, n), opened t) }

abbrev open_sockets : List Text → memory_os.Table → memory_os.Table
open_sockets [] t = t
open_sockets (addr ∷ addrs) t = open_sockets addrs (opened t)

abbrev open_net : Net text_io plain_std memory_os.Table
open_net = record {
  Socket = Text;
  Listener = Text;
  bind_all = λ addrs t. (Result.ok addrs, open_sockets addrs t);
  listen = λ sockets settings cert key t. (Result.ok sockets, t);
}

abbrev machine : Platform
machine = record {
  io = text_io;
  std = plain_std;
  os = memory_os;
  tokio = open_tokio;
  net = open_net;
  host = hosting attending;
}

open_sockets-Alike :
    (addrs : List Text) (t : memory_os.Table) → Alike memory_laws is_odd t (open_sockets addrs t)
open_sockets-Alike [] t = same-Unchanged t
open_sockets-Alike (addr ∷ addrs) t =
    let a = opened-Unchanged t in
    let b = open_sockets-Alike addrs (opened t) in
    record {
      kept = λ g f ours here. b.kept g f ours (a.kept g f ours here);
      before = λ g f ours here. a.before g f ours (b.before g f ours here);
      counter =
          λ g f ours here. b.counter g f ours (a.kept g f ours here) ∙ a.counter g f ours here;
    }

eventfd_even :
    (t : memory_os.Table) (f : ℕ)
    → file_of (memory_os.eventfd t).1.0 (memory_os.eventfd t).0 ≡ some f
    → is_odd f ≡ false
eventfd_even (fs, count) f here =
    even f (length fs) (
      rw (==_refl (length fs)) at
        (sym (file_of-append fs (some (even_file fs)) (length fs)) ∙ here))
  where
    even : (f n : ℕ) → ◌≡◌ {A = Option ℕ} (some (n + n)) (some f) → is_odd f ≡ false
    even f n e = double f n cc
      where
        double : (f n : ℕ) → f ≡ n + n → is_odd f ≡ false
        double f n e = ground arith

abbrev machine_laws : PlatformLaws machine
machine_laws = record {
  descriptors = memory_laws;
  internal = is_odd;
  eventfd_external = λ t f fine here. eventfd_even t f here;
  build_alike = λ n t. opened-Unchanged t;
  bind_all_alike = open_sockets-Alike;
  listen_alike = λ sockets settings cert key t. same-Unchanged t;
}

-- A thread with three descriptors.
abbrev begun : Thread machine
begun = record {
  runtime = none;
  table = (some 0 ∷ some 2 ∷ some 4 ∷ [], λ f. 0);
  store = serving attending;
}

-- "::1", port 443
abbrev local : SocketAddress
local = record { address = 58 ∷ 58 ∷ 49 ∷ []; port = 443 }

-- The object for descriptor 2, and the thread behind its constructor.
abbrev made : QuicheServerSocket machine
made = record { inner = listening_server machine (some 10); event_fd = some 5 }

abbrev behind : Thread machine
behind = record begun {
  runtime = some (3, 3);
  table = (some 0 ∷ some 2 ∷ some 4 ∷ some 7 ∷ some 9 ∷ some 4 ∷ [], λ f. 0);
}

get_address_result-rsplit_once_example :
    (rsplit_once (get_address_result local) ≡ some (58 ∷ 58 ∷ 49 ∷ [], format 443))
    × (from_str_radix 10 (2 ^ 16) (format 443) ≡ some 443)
get_address_result-rsplit_once_example = get_address_result-rsplit_once local (omega arith)

construct-Constructs_example :
    Constructs machine machine_laws 2 10 begun
      (construct machine three_cores (local ∷ []) plain 2 10 begun)
construct-Constructs_example =
    construct-Constructs machine machine_laws three_cores (local ∷ []) plain 2 10 begun

-- The timer arm of the turn is ready, and yet it is not taken.
tick_without_event_fd_example :
    (tick_socket machine three_cores
      (record made { event_fd = none })
      (opening ∷ opening ∷ [])
      behind).0
    ≢ Outcome.ok (finished made)
tick_without_event_fd_example =
    tick_without_event_fd machine three_cores (record made { event_fd = none }) made
      (opening ∷ opening ∷ []) behind refl

-- The caller's eventfd is descriptor 3, and the object's descriptor 6.
abbrev signalled : QuicheServerSocket machine
signalled = record made { event_fd = some 6 }

abbrev listening : Thread machine
listening = record behind {
  runtime = some (4, 3);
  table = (
    some 0 ∷ some 2 ∷ some 4 ∷ some 6 ∷ some 9 ∷ some 11 ∷ some 6 ∷ [],
    (network_eventfd_create memory_os begun.table).1.1,
  );
}

constructed_with_eventfd :
    construct machine three_cores
      (local ∷ [])
      plain
      (truncate (network_eventfd_create memory_os begun.table).0)
      10
      (record begun { table = (network_eventfd_create memory_os begun.table).1 })
    ≡ (Result.ok signalled, listening)
unfolding construct get_runtime worker_thread_count bind duplicate network_eventfd_create truncate
    sign_extend
constructed_with_eventfd = refl

signal_wakes_example :
    (f : ℕ) × (file_of
        (network_eventfd_signal memory_os
          (network_eventfd_create memory_os begun.table).0
          listening.table).0
        6
      ≡ some f)
    × ((network_eventfd_signal memory_os
            (network_eventfd_create memory_os begun.table).0
            listening.table).1
          f
        ≡ 1)
signal_wakes_example =
    signal_wakes machine machine_laws three_cores (local ∷ []) plain 10 begun listening signalled 6
      (omega arith) constructed_with_eventfd refl
