-- ===== src/Text/Digits.antt =====
-- Numbers are read back as they were written.
use ext_quiche.Base.{
  ℕ, zero, suc, ◌+◌, ◌*◌, ◌/◌, ◌%◌, ◌^◌, ◌≤◌, ◌<◌, ◌≡◌, ◌≢◌, refl, ap, ◌∙◌, inl, inr, true, some,
  [], ◌∷◌, ltb, ◌==◌, Bool-cases, arith,
}
use ext_quiche.Text.{
  Text, digit, push_digits, to_digit, parse_digits, from_str_radix, format_hex, format,
}

ltb-true : (n m : ℕ) → n < m → ltb n m ≡ true
ltb-true n m h = ground arith

to_digit-digit : (d : ℕ) → d < 16 → to_digit (digit d) ≡ some d
unfolding to_digit digit
to_digit-digit d h = ground arith

-- A base, with the laws of division by it, and the bound of the type.
pub record Base (radix : ℕ) : Type 0 where
  pub small : radix ≤ 16
  pub join : (n : ℕ) → n / radix * radix + n % radix ≡ n
  pub last : (n : ℕ) → n % radix < radix
  pub shrink : (n m : ℕ) → n < m * radix → n / radix < m
  pub divide_le : (n : ℕ) → n / radix ≤ n
  pub first : (d : ℕ) → 0 * radix + d ≡ d

pub hexadecimal : Base 16
hexadecimal = record {
  small = omega arith;
  join = λ n. omega arith;
  last = λ n. omega arith;
  shrink = λ n m h. omega arith;
  divide_le = λ n. omega arith;
  first = λ d. omega arith;
}

pub decimal : Base 10
decimal = record {
  small = omega arith;
  join = λ n. omega arith;
  last = λ n. omega arith;
  shrink = λ n m h. omega arith;
  divide_le = λ n. omega arith;
  first = λ d. omega arith;
}

-- The numbers with at most one digit more than given.
abbrev pub limit : ℕ → ℕ → ℕ
limit radix zero = radix
limit radix (suc f) = limit radix f * radix

module _ {radix : ℕ} (b : Base radix) (bound : ℕ) where
  parse_digits-cons :
      (n d : ℕ) (cs : Text)
      → d < radix
      → n * radix + d < bound
      → parse_digits radix bound n (digit d ∷ cs) ≡ parse_digits radix bound (n * radix + d) cs
  unfolding parse_digits
  parse_digits-cons n d cs small fits =
      rw (to_digit-digit d (omega arith), parse_digits)
        (rw (ltb-true d radix small, ltb-true (n * radix + d) bound fits) refl)

  parse_first :
      (n : ℕ) (cs : Text)
      → n < radix
      → n < bound
      → parse_digits radix bound 0 (digit n ∷ cs) ≡ parse_digits radix bound n cs
  parse_first n cs small fits =
      parse_digits-cons 0 n cs small (rw (b.first n) fits)
      ∙ ap (λ m. parse_digits radix bound m cs) (b.first n)

  push_digits_lem :
      (f n : ℕ) (acc : Text)
      → n < limit radix f
      → n < bound
      → parse_digits radix bound 0 (push_digits radix (suc f) n acc)
        ≡ parse_digits radix bound n acc
  unfolding push_digits
  push_digits_lem zero n acc enough fits =
      rw (ltb-true n radix enough, push_digits) (parse_first n acc enough fits)
  push_digits_lem (suc f) n acc enough fits = elim (Bool-cases (ltb n radix)) [
    | inl small ↦ rw (small, push_digits) (parse_first n acc (ground arith) fits)
    | inr large ↦
        rw (large, push_digits)
          (push_digits_lem f (n / radix) (digit (n % radix) ∷ acc)
              (b.shrink n (limit radix f) enough) (omega (arith, b.divide_le n))
            ∙ parse_digits-cons (n / radix) (n % radix) acc (b.last n) (rw (b.join n) fits)
            ∙ ap (λ m. parse_digits radix bound m acc) (b.join n))
  ]

  plus_sign :
      (c n : ℕ) (cs : Text) → (c == 43) ≡ true → parse_digits radix bound 0 (c ∷ cs) ≢ some n
  unfolding parse_digits to_digit
  plus_sign c n cs plus e = ground arith

  -- What parses from zero is a text with digits, where there is a text.
  from_str_radix_lem :
      (c n : ℕ) (cs : Text)
      → parse_digits radix bound 0 (c ∷ cs) ≡ some n
      → from_str_radix radix bound (c ∷ cs) ≡ some n
  unfolding from_str_radix
  from_str_radix_lem c n [] e = elim (Bool-cases (c == 43)) [
    | inl plus ↦ absurd (plus_sign c n [] plus e)
    | inr other ↦ rw (other, from_str_radix) e
  ]
  from_str_radix_lem c n (d ∷ cs) e = elim (Bool-cases (c == 43)) [
    | inl plus ↦ absurd (plus_sign c n (d ∷ cs) plus e)
    | inr other ↦ rw (other, from_str_radix) e
  ]

  from_str_radix_cons :
      (n : ℕ) (text : Text)
      → (c : ℕ) × (cs : Text) × (text ≡ c ∷ cs)
      → parse_digits radix bound 0 text ≡ some n
      → from_str_radix radix bound text ≡ some n
  from_str_radix_cons n text (c, cs, e) h = rw e (from_str_radix_lem c n cs (rw e at h))

-- Digits are pushed in front.
push_digits-cons :
    (radix f n x : ℕ) (acc : Text)
    → (c : ℕ) × (cs : Text) × (push_digits radix f n (x ∷ acc) ≡ c ∷ cs)
unfolding push_digits
push_digits-cons radix zero n x acc = (x, acc, refl)
push_digits-cons radix (suc f) n x acc = elim (Bool-cases (ltb n radix)) [
  | inl small ↦ rw (small, push_digits) (digit n, x ∷ acc, refl)
  | inr large ↦
      rw (large, push_digits) (push_digits-cons radix f (n / radix) (digit (n % radix)) (x ∷ acc))
]

first_digit : (radix f n : ℕ) → (c : ℕ) × (cs : Text) × (push_digits radix (suc f) n [] ≡ c ∷ cs)
unfolding push_digits
first_digit radix f n = elim (Bool-cases (ltb n radix)) [
  | inl small ↦ rw (small, push_digits) (digit n, [], refl)
  | inr large ↦
      rw (large, push_digits) (push_digits-cons radix f (n / radix) (digit (n % radix)) [])
]

module _ {radix : ℕ} (b : Base radix) (bound : ℕ) where
  from_str_radix-push_digits :
      (f n : ℕ)
      → n < limit radix f
      → n < bound
      → from_str_radix radix bound (push_digits radix (suc f) n []) ≡ some n
  unfolding parse_digits
  from_str_radix-push_digits f n enough fits =
      from_str_radix_cons b bound n (push_digits radix (suc f) n []) (first_digit radix f n)
        (push_digits_lem b bound f n [] enough fits)

-- A u128 has at most 32 hexadecimal digits, a number below 2^64 at most 20 decimal ones.
pub from_str_radix-format_hex :
    (n : ℕ) → n < 2 ^ 128 → from_str_radix 16 (2 ^ 128) (format_hex n) ≡ some n
unfolding format_hex
from_str_radix-format_hex n fits = from_str_radix-push_digits hexadecimal (2 ^ 128) 31 n fits fits

pub from_str_radix-format :
    (n bound : ℕ) → n < bound → bound ≤ 2 ^ 64 → from_str_radix 10 bound (format n) ≡ some n
unfolding format
from_str_radix-format n bound fits small =
    from_str_radix-push_digits decimal bound 19 n (omega arith) fits
