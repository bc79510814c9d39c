-- ===== src/Tests/Runtime.antt =====
-- The shared runtime.
use ext_quiche.Base.{ℕ, suc, ◌≡◌, ◌≤◌, ◌<◌, ◌^◌, refl, none, some, List, [], ◌∷◌, arith}
use ext_quiche.External.Io.{Io, Result, Machine, Tokio, TokioLaws}
use ext_quiche.Text.{Text, format}
use ext_quiche.Error.{format_signed}
use ext_quiche.Runtime.{advance, worker_thread_count, run}
use ext_quiche.Runtime.Workers.{worker_thread_count-format, worker_thread_count_bounds}
use ext_quiche.Runtime.Once.{get_runtime_once}

-- Errors are their messages.
abbrev pub text_io : Io
text_io = record { Error = Text; to_string = λ t. t; other = λ t. t; invalid_input = λ t. t }

-- A runtime is its number and its worker threads; every `build` succeeds.
abbrev pub counting : Tokio text_io ℕ
counting = record { Runtime = ℕ × ℕ; build = λ n w. (Result.ok (w, n), suc w) }

counted :
    (n w : ℕ) (rt : ℕ × ℕ)
    → ◌≡◌ {A = Result (ℕ × ℕ) Text} (Result.ok (w, n)) (Result.ok rt)
    → rt.1 ≡ n
counted n w rt e = cc

abbrev counting_laws : TokioLaws counting
counting_laws = record { worker_threads = λ rt. rt.1; build_worker_threads = counted }

abbrev pub three_cores : Machine
three_cores = record { worker_threads_var = none; parallelism = some 3 }

-- Both threads build, and the second one is first to place its runtime.
abbrev race : List ℕ
race = 0 ∷ 1 ∷ 0 ∷ 1 ∷ 1 ∷ 0 ∷ 0 ∷ 1 ∷ []

-- "-1"
minus_one : format_signed 4294967295 ≡ 45 ∷ 49 ∷ []
unfolding format_signed format
minus_one = refl

-- The parallelism of one core gives two threads, and the variable can ask for one.
worker_thread_count-format_example :
    worker_thread_count (record { worker_threads_var = some (format 1); parallelism = some 8 }) ≡ 1
worker_thread_count-format_example =
    worker_thread_count-format 1 (some 8) (omega arith) (omega arith)

worker_thread_count_bounds_example :
    (1 ≤ worker_thread_count (record { worker_threads_var = some (48 ∷ []); parallelism = some 1 }))
    × (worker_thread_count (record { worker_threads_var = some (48 ∷ []); parallelism = some 1 })
        < 2 ^ 64)
worker_thread_count_bounds_example =
    worker_thread_count_bounds (some (48 ∷ [])) (some 1) (omega arith)

get_runtime_once_example : (◌≡◌ {A = ℕ × ℕ} (1, 3) (1, 3)) × (3 ≡ worker_thread_count three_cores)
unfolding run advance worker_thread_count
get_runtime_once_example =
    get_runtime_once counting three_cores counting_laws 0 race 0 1 (1, 3) (1, 3) refl refl
