-- ===== src/Runtime/Once.antt =====
-- Calls of `get_runtime` on several threads, in any order of their steps.
use ext_quiche.Base.{
  ℕ, ◌≡◌, refl, sym, ◌∙◌, Option, none, some, List, [], ◌∷◌, ◌==◌, Bool-cases, inl, inr, subst,
}
use ext_quiche.Base.Loop.{some_injective}
use ext_quiche.Stream.{update}
use ext_quiche.External.Io.{Io, Result, ok, err, Machine, Tokio, TokioLaws}
use ext_quiche.Error.{runtime_init}
use ext_quiche.Runtime.{
  worker_thread_count, Phase, entered, building, placing, reading, returned, Process, advance, run,
  Threads, turn_of, built,
}

module _ {io : Io} {World : Type 0} (tokio : Tokio io World) (m : Machine) where
  -- What `build` answered to a request for the configured number of threads.
  abbrev pub Answered : Result tokio.Runtime io.Error → Type 0
  Answered r = (w : World) × ((tokio.build (worker_thread_count m) w).0 ≡ r)

  abbrev pub IsPlaced : Option tokio.Runtime → Type 0
  IsPlaced none = Unit
  IsPlaced (some rt) = Answered (ok rt)

  -- What holds of a call at its place: a runtime that it has returned is the shared one, and an
  -- error is one of `build`.
  abbrev pub Fits : Option tokio.Runtime → Phase tokio → Type 0
  Fits cell entered = Unit
  Fits cell building = Unit
  Fits cell (placing rt) = Answered (ok rt)
  Fits cell reading = (rt : tokio.Runtime) × (cell ≡ some rt)
  Fits cell (returned (ok rt)) = cell ≡ some rt
  Fits cell (returned (err e)) = (x : io.Error) × (e ≡ runtime_init x) × Answered (err x)

  -- A runtime once placed stays.
  abbrev pub Keeps : Option tokio.Runtime → Option tokio.Runtime → Type 0
  Keeps cell cell' = (rt : tokio.Runtime) → cell ≡ some rt → cell' ≡ some rt

  Fits-Keeps :
      (cell cell' : Option tokio.Runtime) (p : Phase tokio)
      → Keeps cell cell'
      → Fits cell p
      → Fits cell' p
  Fits-Keeps cell cell' entered k h = tt
  Fits-Keeps cell cell' building k h = tt
  Fits-Keeps cell cell' (placing rt) k h = h
  Fits-Keeps cell cell' reading k (rt, e) = (rt, k rt e)
  Fits-Keeps cell cell' (returned (ok rt)) k h = k rt h
  Fits-Keeps cell cell' (returned (err e)) k h = h

  record Goes (p : Phase tokio) (s : Process tokio) (r : Phase tokio × Process tokio) : Type 0 where
    pub keeps : Keeps s.runtime r.1.runtime
    pub placed : IsPlaced r.1.runtime
    pub fits : Fits r.1.runtime r.0

  built-Goes :
      (r : Result tokio.Runtime io.Error) (cell : Option tokio.Runtime) (w w' : World)
      → Answered r
      → IsPlaced cell
      → Goes building
          (record { runtime = cell; world = w })
          (built tokio r, record { runtime = cell; world = w' })
  built-Goes (ok rt) cell w w' a placed = record { keeps = λ rt e. e; placed = placed; fits = a }
  built-Goes (err x) cell w w' a placed = record {
    keeps = λ rt e. e;
    placed = placed;
    fits = (x, refl, a);
  }

  advance-Goes :
      (p : Phase tokio) (cell : Option tokio.Runtime) (w : World)
      → IsPlaced cell
      → Fits cell p
      → Goes p
          (record { runtime = cell; world = w })
          (advance tokio m p (record { runtime = cell; world = w }))
  unfolding advance
  advance-Goes entered none w placed fits = record { keeps = λ rt e. e; placed = placed; fits = tt }
  advance-Goes entered (some rt) w placed fits = record {
    keeps = λ rt e. e;
    placed = placed;
    fits = refl;
  }
  advance-Goes building cell w placed fits =
      let (r, w') = tokio.build (worker_thread_count m) w in built-Goes r cell w w' (w, refl) placed
  advance-Goes (placing rt) none w placed fits = record {
    keeps = λ rt e. cc;
    placed = fits;
    fits = (rt, refl);
  }
  advance-Goes (placing rt) (some old) w placed fits = record {
    keeps = λ rt e. e;
    placed = placed;
    fits = (old, refl);
  }
  advance-Goes reading none w placed (rt, e) = absurd cc
  advance-Goes reading (some rt) w placed fits = record {
    keeps = λ rt e. e;
    placed = placed;
    fits = refl;
  }
  advance-Goes (returned r) cell w placed fits = record {
    keeps = λ rt e. e;
    placed = placed;
    fits = fits;
  }

  pub record IsShared (ts : Threads tokio) : Type 0 where
    pub placed : IsPlaced ts.1.runtime
    pub fits : (i : ℕ) → Fits ts.1.runtime (ts.0 i)

  update-Fits :
      (i : ℕ) (p : Phase tokio) (phases : ℕ → Phase tokio) (cell : Option tokio.Runtime)
      → Fits cell p
      → ((j : ℕ) → Fits cell (phases j))
      → (j : ℕ) → Fits cell (update phases i p j)
  update-Fits i p phases cell here there j = elim (Bool-cases (i == j)) [
    | inl same ↦ rw same here
    | inr other ↦ rw other (there j)
  ]

  turn_of-IsShared : (i : ℕ) (ts : Threads tokio) → IsShared ts → IsShared (turn_of tokio m i ts)
  turn_of-IsShared i (phases, s) h =
      let g = advance-Goes (phases i) s.runtime s.world h.placed (h.fits i) in
      let (p, t) = advance tokio m (phases i) s in
      record {
        placed = g.placed;
        fits =
            update-Fits i p phases t.runtime g.fits
              (λ j. Fits-Keeps s.runtime t.runtime (phases j) g.keeps (h.fits j));
      }

  -- Any steps of the threads keep this: a runtime in `RUNTIME` is one that `build` gave for the
  -- configured number of threads, every call that has returned a runtime has returned that one, and
  -- an error that was returned is an error of `build`.
  pub run-IsShared : (is : List ℕ) (ts : Threads tokio) → IsShared ts → IsShared (run tokio m is ts)
  unfolding run
  run-IsShared [] ts h = h
  run-IsShared (i ∷ is) ts h = run-IsShared is (turn_of tokio m i ts) (turn_of-IsShared i ts h)

  abbrev pub at_start : World → Threads tokio
  at_start w = (λ i. entered, record { runtime = none; world = w })

  -- In a process without a runtime, whatever the order in which any number of threads take their
  -- steps: two calls that have returned a runtime have returned the same one, which has the
  -- configured number of worker threads.
  pub get_runtime_once :
      (laws : TokioLaws tokio) (w : World) (is : List ℕ) (i j : ℕ) (a b : tokio.Runtime)
      → (run tokio m is (at_start w)).0 i ≡ returned (ok a)
      → (run tokio m is (at_start w)).0 j ≡ returned (ok b)
      → (a ≡ b) × (laws.worker_threads a ≡ worker_thread_count m)
  get_runtime_once laws w is i j a b e f =
      let h = run-IsShared is (at_start w) (record { placed = tt; fits = λ k. tt }) in
      let cell = (run tokio m is (at_start w)).1.runtime in
      let here = subst (Fits cell) e (h.fits i) in
      let there = subst (Fits cell) f (h.fits j) in
      let (v, g) = subst IsPlaced here h.placed in
      (some_injective (sym here ∙ there), laws.build_worker_threads (worker_thread_count m) v a g)
