-- ===== src/Runtime/Workers.antt =====
-- How many worker threads a runtime gets.
use ext_quiche.Base.{
  ℕ, ◌+◌, ◌*◌, ◌^◌, ◌≤◌, ◌<◌, ◌≡◌, Option, none, some, [], ◌∷◌, ltb, ◌==◌, ◌&&◌, Bool-cases, inl,
  inr, arith, if◌then◌else◌,
}
use ext_quiche.Text.{Text, format, to_digit, parse_digits, from_str_radix}
use ext_quiche.Text.Digits.{from_str_radix-format}
use ext_quiche.Config.RoundTrip.{Below}
use ext_quiche.Runtime.{detected, configured, worker_thread_count}

-- A number that fits 64 bits, in the variable in decimal, is the number of worker threads, unless
-- it is zero, whatever the parallelism of the machine.
pub worker_thread_count-format :
    (n : ℕ) (cores : Option ℕ)
    → 1 ≤ n
    → n < 2 ^ 64
    → worker_thread_count (record { worker_threads_var = some (format n); parallelism = cores }) ≡ n
unfolding worker_thread_count
worker_thread_count-format n cores positive fits =
    rw (from_str_radix-format n (2 ^ 64) fits (omega arith)) (ground arith)

parse_digits-Below :
    (radix bound n : ℕ) (cs : Text) → n < bound → Below bound (parse_digits radix bound n cs)
unfolding parse_digits
parse_digits-Below radix bound n [] fits = fits
parse_digits-Below radix bound n (c ∷ cs) fits =
    elim (to_digit c)
      as (λ x. Below bound (elim x [
        | none ↦ none
        | some d ↦
            let rest = parse_digits radix bound (n * radix + d) cs in
            if ltb d radix && ltb (n * radix + d) bound then rest else none
      ])) [
        | none ↦ tt
        | some d ↦ elim (Bool-cases (ltb d radix && ltb (n * radix + d) bound)) [
          | inl fine ↦ rw fine (parse_digits-Below radix bound (n * radix + d) cs (ground arith))
          | inr large ↦ rw large tt
        ]
      ]

detected_bounds :
    (cores : Option ℕ) → Below (2 ^ 64) cores → (1 ≤ detected cores) × (detected cores < 2 ^ 64)
detected_bounds none fits = (omega arith, omega arith)
detected_bounds (some n) fits = ground arith

configured_bounds :
    (asked : Option ℕ) (n : ℕ)
    → Below (2 ^ 64) asked
    → 1 ≤ n
    → n < 2 ^ 64
    → (1 ≤ configured asked n) × (configured asked n < 2 ^ 64)
configured_bounds none n fits positive small = (positive, small)
configured_bounds (some k) n fits positive small = ground arith

from_str_radix-Below :
    (radix bound : ℕ) (cs : Text) → 0 < bound → Below bound (from_str_radix radix bound cs)
unfolding from_str_radix
from_str_radix-Below radix bound [] fits = tt
from_str_radix-Below radix bound (c ∷ []) fits = elim (Bool-cases (c == 43)) [
  | inl plus ↦ rw plus tt
  | inr other ↦ rw other (parse_digits-Below radix bound 0 (c ∷ []) fits)
]
from_str_radix-Below radix bound (c ∷ d ∷ cs) fits = elim (Bool-cases (c == 43)) [
  | inl plus ↦ rw plus (parse_digits-Below radix bound 0 (d ∷ cs) fits)
  | inr other ↦ rw other (parse_digits-Below radix bound 0 (c ∷ d ∷ cs) fits)
]

-- Whatever text the variable has, and whatever the parallelism of the machine, if below 2^64, the
-- number is positive and below 2^64: tokio's builder panics on zero.
pub worker_thread_count_bounds :
    (var : Option Text) (cores : Option ℕ)
    → Below (2 ^ 64) cores
    → (1 ≤ worker_thread_count (record { worker_threads_var = var; parallelism = cores }))
      × (worker_thread_count (record { worker_threads_var = var; parallelism = cores }) < 2 ^ 64)
unfolding worker_thread_count
worker_thread_count_bounds none cores fits = detected_bounds cores fits
worker_thread_count_bounds (some text) cores fits =
    let (positive, small) = detected_bounds cores fits in
    configured_bounds (from_str_radix 10 (2 ^ 64) text) (detected cores)
      (from_str_radix-Below 10 (2 ^ 64) text (omega arith)) positive small
