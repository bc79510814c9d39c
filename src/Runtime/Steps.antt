-- ===== src/Runtime/Steps.antt =====
-- What the steps of a call of `get_runtime` come to where no other thread steps in.
use ext_quiche.Base.{ℕ, zero, suc, ◌≡◌, refl, Option, none, some}
use ext_quiche.External.Io.{Io, Result, ok, err, Machine, Tokio}
use ext_quiche.Runtime.{
  worker_thread_count, Phase, entered, returned, Process, advance, built, get_runtime, place,
}

module _ {io : Io} {World : Type 0} (tokio : Tokio io World) (m : Machine) where
  -- One thread alone.
  abbrev steps : ℕ → Phase tokio × Process tokio → Phase tokio × Process tokio
  steps zero (p, s) = (p, s)
  steps (suc n) (p, s) = steps n (advance tokio m p s)

  built-place :
      (r : Result tokio.Runtime io.Error) (w : World)
      → steps 2 (built tokio r, record { runtime = none; world = w }) ≡ (
        returned (place tokio r (record { runtime = none; world = w })).0,
        (place tokio r (record { runtime = none; world = w })).1,
      )
  unfolding advance
  built-place (ok rt) w = refl
  built-place (err e) w = refl

  -- A call that no other thread steps into returns what `get_runtime` as a whole computes.
  steps-get_runtime :
      (cell : Option tokio.Runtime) (w : World)
      → steps 4 (entered, record { runtime = cell; world = w }) ≡ (
        returned (get_runtime tokio m (record { runtime = cell; world = w })).0,
        (get_runtime tokio m (record { runtime = cell; world = w })).1,
      )
  unfolding advance get_runtime
  steps-get_runtime (some rt) w = refl
  steps-get_runtime none w = let (r, w') = tokio.build (worker_thread_count m) w in built-place r w'
