-- ===== src/Config/RoundTrip.antt =====
-- Settings that are read back as they were set.
use ext_quiche.Base.{
  ℕ, ◌^◌, ◌<◌, ◌≡◌, refl, ap, true, Option, none, some, List, [], ◌∷◌, All, map, arith,
}
use mathlib.Core.Option
use ext_quiche.External.Std.{Std, StdLaws}
use ext_quiche.Text.{Text, format_hex}
use ext_quiche.Text.Digits.{from_str_radix-format_hex}
use ext_quiche.Config.{Config, from_millis, as_millis}
use ext_quiche.Config.Getters.{
  get_max_idle_timeout, get_handshake_timeout, get_stateless_reset_token,
}
use ext_quiche.Config.Setters.{
  set_max_idle_timeout, set_handshake_timeout, set_stateless_reset_token,
}

-- The value, if there is one, is below a bound.
abbrev pub Below : ℕ → Option ℕ → Type 0
Below bound none = Unit
Below bound (some n) = n < bound

as_millis-from_millis : (ms : ℕ) → ms < 2 ^ 64 → as_millis (from_millis ms) ≡ ms
unfolding as_millis from_millis
as_millis-from_millis ms h = omega arith

pub millis_back :
    (t : Option ℕ) → Below (2 ^ 64) t → Option.map as_millis (Option.map from_millis t) ≡ t
millis_back none fits = refl
millis_back (some n) fits = ap some (as_millis-from_millis n fits)

-- Texts that need no repair.
abbrev pub Valid : (e : Std) → List Text → Type 0
Valid e texts = All (λ t. e.is_utf8 t ≡ true) texts

pub lossy_back :
    {e : Std} (laws : StdLaws e) (texts : List Text)
    → Valid e texts
    → map e.from_utf8_lossy texts ≡ texts
lossy_back laws [] valid = refl
lossy_back laws (t ∷ texts) valid =
    rw (laws.from_utf8_lossy_valid t valid.0) (ap (λ ts. t ∷ ts) (lossy_back laws texts valid.1))

module _ {e : Std} where
  -- A token that fits 128 bits, or none, which is read as text from one configuration and set in
  -- another, is that token there, and all other settings are as they were.
  pub set_stateless_reset_token-get :
      (c d : Config e)
      → Below (2 ^ 128) c.inner.stateless_reset_token
      → set_stateless_reset_token (get_stateless_reset_token c) d ≡ record d {
        inner = record d.inner { stateless_reset_token = c.inner.stateless_reset_token };
      }
  unfolding set_stateless_reset_token get_stateless_reset_token
  set_stateless_reset_token-get c d fits = copy c.inner.stateless_reset_token fits
    where
      copy :
          (t : Option ℕ)
          → Below (2 ^ 128) t
          → set_stateless_reset_token (Option.map format_hex t) d
            ≡ record d { inner = record d.inner { stateless_reset_token = t } }
      copy none fits = refl
      copy (some n) fits = rw (from_str_radix-format_hex n fits, set_stateless_reset_token) refl

  -- Timeouts in milliseconds that fit 64 bits, or none, are read back as they were set, each
  -- whatever the other was set to.
  timeouts_get :
      (idle handshake : Option ℕ) (c : Config e)
      → Below (2 ^ 64) idle
      → Below (2 ^ 64) handshake
      → let d = set_handshake_timeout handshake (set_max_idle_timeout idle c) in
        (get_max_idle_timeout d ≡ idle) × (get_handshake_timeout d ≡ handshake)
  unfolding get_max_idle_timeout set_max_idle_timeout get_handshake_timeout set_handshake_timeout
  timeouts_get idle handshake c fits fits' = (millis_back idle fits, millis_back handshake fits')
