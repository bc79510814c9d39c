-- ===== src/ServerSocket/Descriptors.antt =====
-- Who owns which file descriptor.
use ext_quiche.Base.{
  ℕ, ◌-◌, ◌^◌, ◌≡◌, refl, sym, ◌≢◌, Bool, true, false, subst, ==_iff, ◌∙◌, Option, none, some, List,
  [], ◌∷◌, map, ltb, ◌==◌, Bool-cases, inl, inr, arith, if◌then◌else◌,
}
use ext_quiche.External.Io.{Result, ok, err, Machine}
use ext_quiche.External.Os.{Alike}
use ext_quiche.External.Net.{Platform, PlatformLaws}
use ext_quiche.Error.{PhpException, QuicheError}
use ext_quiche.Config.{Config}
use ext_quiche.Config.Getters.{get_cert_path, get_key_path}
use ext_quiche.Text.{Text}
use ext_quiche.Runtime.{get_runtime, place, Process, worker_thread_count}
use ext_quiche.Socket.{Server}
use ext_quiche.SocketAddress.{SocketAddress, get_address_result}
use ext_quiche.ServerSocket.{
  QuicheServerSocket, Thread, bind, bound, listened, listening_server, duplicate, drop_event_fd,
  finish, set_up, construct, process_of, with_process,
}

module _ (pl : Platform) (laws : PlatformLaws pl) where
  open laws use {internal}

  abbrev pub file : pl.os.Table → ℕ → Option ℕ
  file = laws.descriptors.file

  abbrev pub counter : pl.os.Table → ℕ → ℕ
  counter = laws.descriptors.counter

  -- But for the files that tokio keeps for itself.
  abbrev pub Same : pl.os.Table → pl.os.Table → Type 0
  Same t u = Alike laws.descriptors internal t u

  pub Same-refl : (t : pl.os.Table) → Same t t
  Same-refl t = record {
    kept = λ g f ours here. here;
    before = λ g f ours here. here;
    counter = λ g f ours here. refl;
  }

  pub Same-trans : (t u v : pl.os.Table) → Same t u → Same u v → Same t v
  Same-trans t u v a b = record {
    kept = λ g f ours here. b.kept g f ours (a.kept g f ours here);
    before = λ g f ours here. a.before g f ours (b.before g f ours here);
    counter = λ g f ours here. b.counter g f ours (a.kept g f ours here) ∙ a.counter g f ours here;
  }

  -- From `t` to `u`, `fd` was added, for what `id` refers to, and nothing else.
  pub record Duplicated (fd id : ℕ) (t u : pl.os.Table) : Type 0 where
    pub fresh : (f : ℕ) → internal f ≡ false → file t fd ≢ some f
    pub kept :
        (g f : ℕ)
        → internal f ≡ false
        → (if fd == g then file t id else file t g) ≡ some f
        → file u g ≡ some f
    pub before :
        (g f : ℕ)
        → internal f ≡ false
        → file u g ≡ some f
        → (if fd == g then file t id else file t g) ≡ some f
    pub counter : (g f : ℕ) → internal f ≡ false → file t g ≡ some f → counter u f ≡ counter t f

  -- What the object's descriptor means: a new one, for what the caller's refers to.
  abbrev pub Owns : Option ℕ → ℕ → pl.os.Table → pl.os.Table → Type 0
  Owns none id t u = Same t u
  Owns (some fd) id t u = Duplicated fd id t u

  chosen :
      (b : Bool) (x y : Option ℕ) (x' y' : Option ℕ) (f : ℕ)
      → (x ≡ some f → x' ≡ some f)
      → (y ≡ some f → y' ≡ some f)
      → (if b then x else y) ≡ some f
      → (if b then x' else y') ≡ some f
  chosen true x y x' y' f h k e = h e
  chosen false x y x' y' f h k e = k e

  dup-Duplicated :
      (id : ℕ) (s t : pl.os.Table)
      → Same s t
      → ltb (pl.os.dup id t).0 (2 ^ 31) ≡ true
      → Duplicated (pl.os.dup id t).0 id s (pl.os.dup id t).1
  dup-Duplicated id s t same fine =
      let (fd, u) = pl.os.dup id t in
      let now : (g : ℕ) → file u g ≡ (if fd == g then file t id else file t g) =
        λ g. laws.descriptors.dup_file id t g (ground arith) in
      record {
        fresh = λ f ours there.
            cc (same.kept fd f ours there, laws.descriptors.dup_fresh id t (ground arith));
        kept = λ g f ours here.
            now g
            ∙ chosen (fd == g) (file s id) (file s g) (file t id) (file t g) f (same.kept id f ours)
                (same.kept g f ours) here;
        before = λ g f ours here.
            chosen (fd == g) (file t id) (file t g) (file s id) (file s g) f (same.before id f ours)
              (same.before g f ours) (sym (now g) ∙ here);
        counter = λ g f ours here. laws.descriptors.dup_counter id t f ∙ same.counter g f ours here;
      }

  failed-Same :
      (id : ℕ) (s t : pl.os.Table)
      → Same s t
      → ltb (pl.os.dup id t).0 (2 ^ 31) ≡ false
      → Same s (pl.os.dup id t).1
  failed-Same id s t same failed =
      let now : (g : ℕ) → file (pl.os.dup id t).1 g ≡ file t g =
        λ g. laws.descriptors.dup_fails id t g (ground arith) in
      record {
        kept = λ g f ours here. now g ∙ same.kept g f ours here;
        before = λ g f ours here. same.before g f ours (sym (now g) ∙ here);
        counter = λ g f ours here. laws.descriptors.dup_counter id t f ∙ same.counter g f ours here;
      }

  duplicate-Owns :
      (id : ℕ) (s t : pl.os.Table)
      → Same s t
      → Owns (duplicate pl id t).0 id s (duplicate pl id t).1
  unfolding duplicate
  duplicate-Owns id s t same = elim (Bool-cases (id == 2 ^ 32 - 1)) [
    | inl minus_one ↦ rw minus_one same
    | inr given ↦ elim (Bool-cases (ltb (pl.os.dup id t).0 (2 ^ 31))) [
      | inl fine ↦ rw (given, fine) (dup-Duplicated id s t same fine)
      | inr failed ↦ rw (given, failed) (failed-Same id s t same failed)
    ]
  ]

  -- What tokio does behind it changes nothing.
  pub Owns-Same :
      (fd : Option ℕ) (id : ℕ) (s t u : pl.os.Table) → Owns fd id s t → Same t u → Owns fd id s u
  Owns-Same none id s t u owns same = Same-trans s t u owns same
  Owns-Same (some fd) id s t u owns same = record {
    fresh = owns.fresh;
    kept = λ g f ours here. same.kept g f ours (owns.kept g f ours here);
    before = λ g f ours here. owns.before g f ours (same.before g f ours here);
    counter = λ g f ours here. elim (Bool-cases (fd == g)) [
      | inl equal ↦ absurd (owns.fresh f ours (rw ((==_iff fd g).0 equal) here))
      | inr other ↦
          same.counter g f ours (owns.kept g f ours (rw other here)) ∙ owns.counter g f ours here
    ];
  }

  closed_ne :
      (fd g : ℕ) (t : pl.os.Table) → (fd == g) ≡ false → file (pl.os.close fd t) g ≡ file t g
  closed_ne fd g t other = laws.descriptors.close_file fd t g ∙ rw other refl

  -- Once dropped, it has left no trace.
  pub drop_event_fd-Owns :
      (fd : Option ℕ) (id : ℕ) (t u : pl.os.Table) → Owns fd id t u → Same t (drop_event_fd pl fd u)
  drop_event_fd-Owns none id t u same = same
  drop_event_fd-Owns (some fd) id t u owns = record {
    kept = stays;
    before = λ g f ours here. elim (Bool-cases (fd == g)) [
      | inl equal ↦ absurd (gone g f equal here)
      | inr other ↦ rw other at (owns.before g f ours (sym (closed_ne fd g u other) ∙ here))
    ];
    counter = λ g f ours here.
        laws.descriptors.close_counter fd u g f (stays g f ours here) ∙ owns.counter g f ours here;
  }
    where
      gone : (g f : ℕ) → (fd == g) ≡ true → file (pl.os.close fd u) g ≢ some f
      gone g f equal here = cc (here, (rw equal at (laws.descriptors.close_file fd u g)))

      stays :
          (g f : ℕ) → internal f ≡ false → file t g ≡ some f → file (pl.os.close fd u) g ≡ some f
      stays g f ours here = elim (Bool-cases (fd == g)) [
        | inl equal ↦ absurd (owns.fresh f ours (rw ((==_iff fd g).0 equal) here))
        | inr other ↦ closed_ne fd g u other ∙ owns.kept g f ours (rw other here)
      ]

  place-Same :
      (r : Result pl.tokio.Runtime pl.io.Error) (p : Process pl.tokio)
      → (place pl.tokio r p).1.world ≡ p.world
  place-Same (ok rt) p = refl
  place-Same (err e) p = refl

  pub get_runtime-Same :
      (m : Machine) (s : Thread pl) → Same s.table (get_runtime pl.tokio m (process_of s)).1.world
  unfolding get_runtime
  get_runtime-Same m s = split s.runtime
    where
      split :
          (cell : Option pl.tokio.Runtime)
          → Same s.table
              (get_runtime pl.tokio m (record { runtime = cell; world = s.table })).1.world
      split (some rt) = Same-refl s.table
      split none =
          let (r, w) = pl.tokio.build (worker_thread_count m) s.table in
          subst (Same s.table) (sym (place-Same r (record { runtime = none; world = w })))
            (laws.build_alike (worker_thread_count m) s.table)

  -- What a constructor did: an object owns its descriptor and has a fresh server; an exception
  -- leaves the descriptors as they were.
  abbrev pub Constructs :
      ℕ
      → pl.host.php.Zval
      → Thread pl
      → Result (QuicheServerSocket pl) PhpException × Thread pl
      → Type 0
  Constructs id z s (ok o, t) =
      Owns o.event_fd id s.table t.table
      × (t.store ≡ s.store)
      × (o.inner ≡ listening_server pl (some z))
  Constructs id z s (err e, t) = Same s.table t.table × (t.store ≡ s.store)

  abbrev IsListening :
      Option pl.host.php.Zval → Thread pl → Result (Server pl.host) pl.io.Error × Thread pl → Type 0
  IsListening callback s (r, t) =
      Same s.table t.table
      × (t.store ≡ s.store)
      × ((v : Server pl.host) → r ≡ ok v → v ≡ listening_server pl callback)

  listened-IsListening :
      (callback : Option pl.host.php.Zval) (r : Result (List pl.net.Listener) pl.io.Error)
      (w : pl.os.Table) (s : Thread pl)
      → Same s.table w
      → IsListening callback s (listened pl callback (r, w) s)
  listened-IsListening callback (ok listeners) w s same = (same, refl, λ v e. cc)
  listened-IsListening callback (err e) w s same = (same, refl, λ v e. absurd cc)

  bound-IsListening :
      (config : Config pl.std) (callback : Option pl.host.php.Zval)
      (r : Result (List pl.net.Socket) pl.io.Error) (w : pl.os.Table) (s : Thread pl)
      → Same s.table w
      → IsListening callback s (bound pl config callback (r, w) s)
  bound-IsListening config callback (err e) w s same = (same, refl, λ v e. absurd cc)
  bound-IsListening config callback (ok sockets) w s same =
      let (r, w') =
        pl.net.listen sockets config.inner (get_cert_path config) (get_key_path config) w in
      listened-IsListening callback r w' s (
        Same-trans s.table w w' same
          (laws.listen_alike sockets config.inner (get_cert_path config) (get_key_path config) w))

  bind-IsListening :
      (addrs : List Text) (config : Config pl.std) (callback : Option pl.host.php.Zval)
      (s : Thread pl)
      → IsListening callback s (bind pl addrs config callback s)
  unfolding bind
  bind-IsListening [] config callback s = (Same-refl s.table, refl, λ v e. absurd cc)
  bind-IsListening (addr ∷ addrs) config callback s =
      let (r, w) = pl.net.bind_all (addr ∷ addrs) s.table in
      bound-IsListening config callback r w s (laws.bind_all_alike (addr ∷ addrs) s.table)

  finish-Constructs :
      (r : Result (Server pl.host) pl.io.Error) (fd : Option ℕ) (id : ℕ) (z : pl.host.php.Zval)
      (s t : Thread pl)
      → Owns fd id s.table t.table
      → t.store ≡ s.store
      → ((v : Server pl.host) → r ≡ ok v → v ≡ listening_server pl (some z))
      → Constructs id z s (finish pl r fd t)
  finish-Constructs (ok v) fd id z s t owns store server = (owns, store, server v refl)
  finish-Constructs (err e) fd id z s t owns store server =
      (drop_event_fd-Owns fd id s.table t.table owns, store)

  set_up-Constructs :
      (rt : Result pl.tokio.Runtime (QuicheError pl.io)) (sockets : List SocketAddress)
      (config : Config pl.std) (id : ℕ) (z : pl.host.php.Zval) (s t : Thread pl)
      → Same s.table t.table
      → t.store ≡ s.store
      → Constructs id z s (set_up pl rt sockets config id z t)
  set_up-Constructs (err e) sockets config id z s t same store = (same, store)
  set_up-Constructs (ok rt) sockets config id z s t same store =
      let (listens, kept, server) =
        bind-IsListening (map get_address_result sockets) config (some z) t in
      let (r, t1) = bind pl (map get_address_result sockets) config (some z) t in
      let (fd, u) = duplicate pl id t1.table in
      finish-Constructs r fd id z s (record t1 { table = u })
        (duplicate-Owns id s.table t1.table (Same-trans s.table t.table t1.table same listens))
        (kept ∙ store) server

  -- However the constructor ends, and leaving the files aside that tokio and its sockets keep for
  -- themselves: an object has a server without connections that listens, and it owns a descriptor
  -- for what the caller's descriptor refers to, which referred to no such file before, or none;
  -- with an exception it leaves no such descriptor behind. All other descriptors refer to the same
  -- files as before, the caller's with them, no other descriptor was added for one of these, their
  -- counters are the same, and so is what the callbacks work on.
  pub construct-Constructs :
      (m : Machine) (sockets : List SocketAddress) (config : Config pl.std) (id : ℕ)
      (z : pl.host.php.Zval) (s : Thread pl)
      → Constructs id z s (construct pl m sockets config id z s)
  unfolding construct
  construct-Constructs m sockets config id z s = elim (Bool-cases (pl.host.php.is_callable z)) [
    | inl callable ↦ rw callable (
        let (rt, process) = get_runtime pl.tokio m (process_of s) in
        set_up-Constructs rt sockets config id z s (with_process process s) (get_runtime-Same m s)
          refl)
    | inr other ↦ rw other (Same-refl s.table, refl)
  ]
