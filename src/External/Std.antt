-- ===== src/External/Std.antt =====
-- What src/config.rs uses of std that is not modelled further: floating-point numbers, which are
-- only passed on, and the repair of a text that is not UTF-8.
use ext_quiche.Base.{◌≡◌, Bool, true}
use ext_quiche.Text.{Text}

pub record Std : Type 1 where
  -- `f64`
  pub Float : Type 0
  -- `std::str::from_utf8(text).is_ok()`
  pub is_utf8 : Text → Bool
  -- `String::from_utf8_lossy`
  pub from_utf8_lossy : Text → Text

-- A text that is UTF-8 needs no repair.
pub record StdLaws (e : Std) : Type 0 where
  pub from_utf8_lossy_valid : (t : Text) → e.is_utf8 t ≡ true → e.from_utf8_lossy t ≡ t
