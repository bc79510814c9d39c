-- ===== src/External/Net.antt =====
-- What `bind` calls of tokio and tokio-quiche, and all external parts together.
use ext_quiche.Base.{ℕ, ◌≡◌, Bool, false, some, List}
use ext_quiche.Text.{Text}
use ext_quiche.External.Std.{Std}
use ext_quiche.External.Io.{Io, Result, Tokio}
use ext_quiche.External.Os.{Os, OsLaws, IsDescriptor, Alike}
use ext_quiche.Config.{QuicSettings}
use ext_quiche.Stream.{Host}

pub record Net (io : Io) (std : Std) (Table : Type 0) : Type 1 where
  pub Socket : Type 0
  pub Listener : Type 0
  -- `try_join_all` of `UdpSocket::bind` of each address
  pub bind_all : List Text → Table → Result (List Socket) io.Error × Table
  -- `listen`, with the settings and the paths of the certificate and of its key
  pub listen :
      List Socket → QuicSettings std → Text → Text → Table → Result (List Listener) io.Error × Table

-- tokio works on the descriptors of the process as well.
pub record Platform : Type 1 where
  pub io : Io
  pub std : Std
  pub os : Os
  pub tokio : Tokio io os.Table
  pub net : Net io std os.Table
  pub host : Host

-- The open files that tokio and its sockets keep for themselves are `internal`; an eventfd is not.
-- tokio opens and closes descriptors for internal files, and leaves the others alone.
pub record PlatformLaws (pl : Platform) : Type 0 where
  pub descriptors : OsLaws pl.os
  pub internal : ℕ → Bool
  pub eventfd_external :
      (t : pl.os.Table) (f : ℕ)
      → IsDescriptor (pl.os.eventfd t).0
      → descriptors.file (pl.os.eventfd t).1 (pl.os.eventfd t).0 ≡ some f
      → internal f ≡ false
  pub build_alike : (n : ℕ) (t : pl.os.Table) → Alike descriptors internal t (pl.tokio.build n t).1
  pub bind_all_alike :
      (addrs : List Text) (t : pl.os.Table)
      → Alike descriptors internal t (pl.net.bind_all addrs t).1
  pub listen_alike :
      (sockets : List pl.net.Socket) (settings : QuicSettings pl.std) (cert key : Text)
      (t : pl.os.Table)
      → Alike descriptors internal t (pl.net.listen sockets settings cert key t).1
