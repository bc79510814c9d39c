-- ===== src/ServerSocket/Signal.antt =====
-- That a signal on the caller's descriptor reaches the object's.
use ext_quiche.Base.{
  ℕ, ◌≡◌, refl, Bool, true, false, Option, subst, ◌∙◌, some, List, ◌==◌, ==_refl, arith,
  if◌then◌else◌,
}
use ext_quiche.External.Io.{ok, Machine}
use ext_quiche.External.Os.{IsDescriptor}
use ext_quiche.External.Net.{Platform, PlatformLaws}
use ext_quiche.Config.{Config}
use ext_quiche.Eventfd.{
  sign_extend, truncate, network_eventfd_create, network_eventfd_signal, truncate-sign_extend,
}
use ext_quiche.SocketAddress.{SocketAddress}
use ext_quiche.ServerSocket.{QuicheServerSocket, Thread, construct}
use ext_quiche.ServerSocket.Descriptors.{
  file, counter, Duplicated, Owns, Constructs, construct-Constructs,
}

module _ (pl : Platform) (laws : PlatformLaws pl) where
  same_choice :
      (b : Bool) (x y : Option ℕ) (f : ℕ) → x ≡ some f → y ≡ some f → (if b then x else y) ≡ some f
  same_choice true x y f e k = e
  same_choice false x y f e k = k

  -- Both descriptors refer to the file of the caller's.
  both_file :
      (fd id f : ℕ) (t u : pl.os.Table)
      → Duplicated pl laws fd id t u
      → laws.internal f ≡ false
      → file pl laws t id ≡ some f
      → (file pl laws u fd ≡ some f) × (file pl laws u id ≡ some f)
  both_file fd id f t u d ours here = (
    d.kept fd f ours (rw (==_refl fd) here),
    d.kept id f ours (same_choice (fd == id) (file pl laws t id) (file pl laws t id) f here here),
  )

  -- Where `network_eventfd_create` gives a descriptor, and the constructor is given its value and
  -- makes an object that holds an `EventFd`: a call of `network_eventfd_signal` with that value
  -- leaves the counter of the object's `EventFd` at one, so that it is ready to read.
  pub signal_wakes :
      (m : Machine) (sockets : List SocketAddress) (config : Config pl.std) (z : pl.host.php.Zval)
      (s t : Thread pl) (o : QuicheServerSocket pl) (d : ℕ)
      → IsDescriptor (pl.os.eventfd s.table).0
      → construct pl m sockets config
          (truncate (network_eventfd_create pl.os s.table).0)
          z
          (record s { table = (network_eventfd_create pl.os s.table).1 })
        ≡ (ok o, t)
      → o.event_fd ≡ some d
      → (f : ℕ) × (file pl laws
            (network_eventfd_signal pl.os (network_eventfd_create pl.os s.table).0 t.table)
            d
          ≡ some f)
        × (counter pl laws
              (network_eventfd_signal pl.os (network_eventfd_create pl.os s.table).0 t.table)
              f
            ≡ 1)
  unfolding network_eventfd_create network_eventfd_signal
  signal_wakes m sockets config z s t o d fine made held =
      let (f, there, zero_count) = laws.descriptors.eventfd_file s.table fine in
      let (id, u) = pl.os.eventfd s.table in
      let value = truncate-sign_extend id (omega arith) in
      let ours = laws.eventfd_external s.table f fine there in
      let (owns, _, _) =
        subst (Constructs pl laws (truncate (sign_extend id)) z (record s { table = u })) made (
          construct-Constructs pl laws m sockets config (truncate (sign_extend id)) z
            (record s { table = u })) in
      let added : Duplicated pl laws d id u t.table =
        subst (λ i. Owns pl laws (some d) i u t.table) value
          (subst (λ e. Owns pl laws e (truncate (sign_extend id)) u t.table) held owns) in
      let (mine, caller) = both_file d id f u t.table added ours there in
      let count = added.counter id f ours there ∙ zero_count in
      (
        f,
        laws.descriptors.write_u64_file (truncate (sign_extend id)) 1 t.table d ∙ mine,
        laws.descriptors.write_u64_counter (truncate (sign_extend id)) 1 t.table f (rw value caller)
              (rw count (omega arith))
            ∙ rw count refl,
      )
