-- ===== src/Runtime.antt =====
-- src/quiche/runtime.rs: the runtime that all servers of the process share.
pub mod Workers
pub mod Once
pub mod Steps
use ext_quiche.Stream.{update}
use ext_quiche.Base.{ℕ, ◌^◌, Option, none, some, List, [], ◌∷◌, ltb, leb, if◌then◌else◌}
use ext_quiche.External.Io.{Io, Result, ok, err, Machine, Tokio}
use ext_quiche.Text.{Text, from_str_radix}
use ext_quiche.Error.{QuicheError, runtime_init}

abbrev pub min_worker_threads : ℕ
min_worker_threads = 2

abbrev pub detected : Option ℕ → ℕ
detected none = min_worker_threads
detected (some n) = if ltb n min_worker_threads then min_worker_threads else n

-- `usize` has 64 bits.
abbrev pub configured : Option ℕ → ℕ → ℕ
configured none otherwise = otherwise
configured (some n) otherwise = if leb 1 n then n else otherwise

unfoldable pub worker_thread_count : Machine → ℕ
worker_thread_count m = elim m.worker_threads_var [
  | none ↦ detected m.parallelism
  | some s ↦ configured (from_str_radix 10 (2 ^ 64) s) (detected m.parallelism)
]

-- "runtime init failed"
abbrev failed_text : Text
failed_text =
    114 ∷ 117 ∷ 110 ∷ 116 ∷ 105 ∷ 109 ∷ 101 ∷ 32 ∷ 105 ∷ 110 ∷ 105 ∷ 116 ∷ 32 ∷ 102 ∷ 97 ∷ 105 ∷ 108
    ∷ 101 ∷ 100 ∷ []

-- Where a call of `get_runtime` is: before `RUNTIME.get()`, before `build`, before
-- `RUNTIME.set(rt)`, before the second `RUNTIME.get()`, or back.
pub data Phase {io : Io} {World : Type 0} (tokio : Tokio io World) : Type 0 where
  entered building reading : Phase tokio
  placing : tokio.Runtime → Phase tokio
  returned : Result tokio.Runtime (QuicheError io) → Phase tokio

-- `RUNTIME`, and what lies outside.
pub record Process {io : Io} {World : Type 0} (tokio : Tokio io World) : Type 0 where
  pub runtime : Option tokio.Runtime
  pub world : World

module _ {io : Io} {World : Type 0} (tokio : Tokio io World) where
  abbrev pub built : Result tokio.Runtime io.Error → Phase tokio
  built (ok rt) = placing rt
  built (err e) = returned (err (runtime_init e))

  abbrev pub read_runtime : Option tokio.Runtime → Result tokio.Runtime (QuicheError io)
  read_runtime (some rt) = ok rt
  read_runtime none = err (runtime_init (io.other failed_text))

  -- `OnceLock::set`: a value that is there stays, and the new one is dropped.
  abbrev pub set_runtime : tokio.Runtime → Option tokio.Runtime → Option tokio.Runtime
  set_runtime rt (some old) = some old
  set_runtime rt none = some rt

  -- The next step of a call; other threads may go on before the one after it.
  unfoldable pub advance : Machine → Phase tokio → Process tokio → Phase tokio × Process tokio
  advance m entered s = elim s.runtime [ some rt ↦ (returned (ok rt), s) | none ↦ (building, s) ]
  advance m building s =
      let (r, w) = tokio.build (worker_thread_count m) s.world in (built r, record s { world = w })
  advance m (placing rt) s = (reading, record s { runtime = set_runtime rt s.runtime })
  advance m reading s = (returned (read_runtime s.runtime), s)
  advance m (returned r) s = (returned r, s)

  abbrev pub place :
      Result tokio.Runtime io.Error
      → Process tokio
      → Result tokio.Runtime (QuicheError io) × Process tokio
  place (err e) s = (err (runtime_init e), s)
  place (ok rt) s =
      let cell = set_runtime rt s.runtime in (read_runtime cell, record s { runtime = cell })

  -- The whole call, with no other thread in between.
  unfoldable pub get_runtime :
      Machine → Process tokio → Result tokio.Runtime (QuicheError io) × Process tokio
  get_runtime m s = elim s.runtime [
    | some rt ↦ (ok rt, s)
    | none ↦
        let (r, w) = tokio.build (worker_thread_count m) s.world in place r (record s { world = w })
  ]

  -- Threads that call `get_runtime`, each at its own place.
  abbrev pub Threads : Type 0
  Threads = (ℕ → Phase tokio) × Process tokio

  abbrev pub turn_of : Machine → ℕ → Threads → Threads
  turn_of m i (phases, s) = let (p, t) = advance m (phases i) s in (update phases i p, t)

  -- The threads take their steps in the given order.
  unfoldable pub run : Machine → List ℕ → Threads → Threads
  run m [] ts = ts
  run m (i ∷ is) ts = run m is (turn_of m i ts)
