-- ===== src/ServerSocket/Life.antt =====
-- An object of the class from its constructor to `close`.
use ext_quiche.Base.{◌≡◌, []}
use ext_quiche.External.Io.{ok}
use ext_quiche.External.Net.{Platform, PlatformLaws}
use ext_quiche.Config.{Config}
use ext_quiche.Stream.{Outcome}
use ext_quiche.Socket.Courtesy.{Courteous}
use ext_quiche.SocketAddress.{SocketAddress}
use ext_quiche.ServerSocket.{QuicheServerSocket, Thread, Ticked, finished, waits, threw}
use ext_quiche.ServerSocket.Descriptors.{Same}

-- The object behind a call of `tick`.
abbrev pub socket_of : {pl : Platform} → Ticked pl → QuicheServerSocket pl
socket_of (finished o) = o
socket_of (waits o) = o
socket_of (threw e o) = o

module _ (pl : Platform) (laws : PlatformLaws pl) (polite : Courteous pl.host) where
  -- A call of `tick` deals with its turns, and leaves the caller's descriptors and locks as they were.
  abbrev Holds : QuicheServerSocket pl → Thread pl → Outcome (Ticked pl) × Thread pl → Type 0
  Holds o s result =
      (r : Ticked pl) × (t : Thread pl) × (result ≡ (Outcome.ok r, t))
      × Same pl laws s.table t.table
      × (t.store.held ≡ [])
      × ((socket_of r).event_fd ≡ o.event_fd)
