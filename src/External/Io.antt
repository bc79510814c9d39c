-- ===== src/External/Io.antt =====
-- `std::io::Error`, and the parts of std and tokio that make threads for the server.
use ext_quiche.Base.{ℕ, ◌≡◌, Option}
use ext_quiche.Text.{Text}

pub record Io : Type 1 where
  pub Error : Type 0
  -- its `Display`
  pub to_string : Error → Text
  -- `io::Error::other` and `io::Error::new` with `ErrorKind::InvalidInput`
  pub other : Text → Error
  pub invalid_input : Text → Error

pub data Result {ℓ κ} (A : Type ℓ) (E : Type κ) : Type (ℓ ⊔ κ) where
  ok : A → Result A E
  err : E → Result A E

-- What a runtime is built from; the variable is `QUICHE_WORKER_THREADS`, where it is set and
-- Unicode, and the parallelism that of `available_parallelism`, where that is known.
pub record Machine : Type 0 where
  pub worker_threads_var : Option Text
  pub parallelism : Option ℕ

-- `Builder::new_multi_thread()`, with the number of worker threads, and its `build`, which works on
-- what lies outside.
pub record Tokio (io : Io) (World : Type 0) : Type 1 where
  pub Runtime : Type 0
  pub build : ℕ → World → Result Runtime io.Error × World

-- A runtime has as many worker threads as asked for.
pub record TokioLaws {io : Io} {World : Type 0} (tokio : Tokio io World) : Type 0 where
  pub worker_threads : tokio.Runtime → ℕ
  pub build_worker_threads :
      (n : ℕ) (w : World) (rt : tokio.Runtime)
      → (tokio.build n w).0 ≡ Result.ok rt
      → worker_threads rt ≡ n
