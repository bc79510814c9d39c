-- ===== src/SocketAddress/Split.antt =====
-- The addresses that `bind` is given.
use ext_quiche.Base.{
  ℕ, zero, suc, ◌/◌, ◌%◌, ◌^◌, ◌<◌, ◌≡◌, refl, false, Option, none, some, [], ◌∷◌, ◌++◌, ltb, ◌==◌,
  Bool-cases, inl, inr, arith, if◌then◌else◌,
}
use ext_quiche.Text.{Text, digit, push_digits, format, from_str_radix}
use ext_quiche.Text.Digits.{from_str_radix-format}
use ext_quiche.SocketAddress.{SocketAddress, get_address_result}

-- How std reads the address of a socket: the host and the port, on both sides of the last colon.
abbrev after_first : ℕ → Text → Option (Text × Text) → Option (Text × Text)
after_first c cs (some (a, b)) = some (c ∷ a, b)
after_first c cs none = if c == 58 then some ([], cs) else none

abbrev pub rsplit_once : Text → Option (Text × Text)
rsplit_once [] = none
rsplit_once (c ∷ cs) = after_first c cs (rsplit_once cs)

digit_lem : (d : ℕ) → (digit d == 58) ≡ false
unfolding digit
digit_lem d = ground arith

rsplit_once-digit : (d : ℕ) (cs : Text) → rsplit_once cs ≡ none → rsplit_once (digit d ∷ cs) ≡ none
rsplit_once-digit d cs e = rw (e, digit_lem d) refl

rsplit_once-push_digits :
    (f n : ℕ) (acc : Text) → rsplit_once acc ≡ none → rsplit_once (push_digits 10 f n acc) ≡ none
unfolding push_digits
rsplit_once-push_digits zero n acc e = e
rsplit_once-push_digits (suc f) n acc e = elim (Bool-cases (ltb n 10)) [
  | inl small ↦ rw small (rsplit_once-digit n acc e)
  | inr large ↦
      rw large (
        rsplit_once-push_digits f (n / 10) (digit (n % 10) ∷ acc)
          (rsplit_once-digit (n % 10) acc e))
]

rsplit_once-append : (a b : Text) → rsplit_once b ≡ none → rsplit_once (a ++ 58 ∷ b) ≡ some (a, b)
rsplit_once-append [] b e = rw e refl
rsplit_once-append (c ∷ a) b e = rw (rsplit_once-append a b e) refl

-- The text of an address, whatever colons its host has, splits at the last colon into its host and
-- a text that reads as its port, where that fits 16 bits.
pub get_address_result-rsplit_once :
    (a : SocketAddress)
    → a.port < 2 ^ 16
    → (rsplit_once (get_address_result a) ≡ some (a.address, format a.port))
      × (from_str_radix 10 (2 ^ 16) (format a.port) ≡ some a.port)
unfolding get_address_result format
get_address_result-rsplit_once a fits = (
  rsplit_once-append a.address (format a.port) (rsplit_once-push_digits 20 a.port [] refl),
  from_str_radix-format a.port (2 ^ 16) fits (omega arith),
)
