-- ===== src/Eventfd.antt =====
-- src/timer.rs: the functions of PHP for an eventfd. PHP's integers are i64, by their 64 bits.
use ext_quiche.Base.{ℕ, ◌+◌, ◌%◌, ◌-◌, ◌^◌, ◌<◌, ◌≡◌, ltb, arith, if◌then◌else◌}
use ext_quiche.External.Os.{Os}

-- `n as i64` of an i32, and `n as i32` of an i64
unfoldable pub sign_extend : ℕ → ℕ
sign_extend n = if ltb n (2 ^ 31) then n else n + (2 ^ 64 - 2 ^ 32)

unfoldable pub truncate : ℕ → ℕ
truncate n = n % 2 ^ 32

module _ (os : Os) where
  unfoldable pub network_eventfd_create : os.Table → ℕ × os.Table
  unfolding sign_extend
  network_eventfd_create t = let (fd, u) = os.eventfd t in (sign_extend fd, u)

  unfoldable pub network_eventfd_signal : ℕ → os.Table → os.Table
  unfolding truncate
  network_eventfd_signal fd t = os.write_u64 (truncate fd) 1 t

  unfoldable pub network_eventfd_close : ℕ → os.Table → os.Table
  unfolding truncate
  network_eventfd_close fd t = os.close (truncate fd) t

pub truncate-sign_extend : (n : ℕ) → n < 2 ^ 32 → truncate (sign_extend n) ≡ n
unfolding truncate sign_extend
truncate-sign_extend n h = ground arith
