-- ===== src/Error.antt =====
-- src/quiche/error.rs: the errors, their messages, and how PHP gets them.
use ext_quiche.Base.{ℕ, ◌-◌, ◌^◌, [], ◌∷◌, ◌++◌, ltb, if◌then◌else◌}
use ext_quiche.External.Io.{Io}
use ext_quiche.Text.{Text, format}

-- An i32 is its 32 bits.
pub data QuicheError (io : Io) : Type 0 where
  runtime_init : io.Error → QuicheError io
  status : ℕ → Text → QuicheError io
  invalid_arg invalid_uri callback_failed : Text → QuicheError io

-- An exception of the class `Exception`.
pub record PhpException : Type 0 where
  pub message : Text
  pub code : ℕ

-- `format!("{}", code)` of an i32
unfoldable pub format_signed : ℕ → Text
format_signed n = if ltb n (2 ^ 31) then format n else 45 ∷ format (2 ^ 32 - n)

-- "failed to initialize tokio runtime: "
abbrev pub runtime_text : Text
runtime_text =
    102 ∷ 97 ∷ 105 ∷ 108 ∷ 101 ∷ 100 ∷ 32 ∷ 116 ∷ 111 ∷ 32 ∷ 105 ∷ 110 ∷ 105 ∷ 116 ∷ 105 ∷ 97 ∷ 108
    ∷ 105 ∷ 122 ∷ 101 ∷ 32 ∷ 116 ∷ 111 ∷ 107 ∷ 105 ∷ 111 ∷ 32 ∷ 114 ∷ 117 ∷ 110 ∷ 116 ∷ 105 ∷ 109
    ∷ 101 ∷ 58 ∷ 32 ∷ []

-- "gRPC status "
abbrev pub status_text : Text
status_text = 103 ∷ 82 ∷ 80 ∷ 67 ∷ 32 ∷ 115 ∷ 116 ∷ 97 ∷ 116 ∷ 117 ∷ 115 ∷ 32 ∷ []

-- "invalid argument: "
abbrev pub arg_text : Text
arg_text =
    105 ∷ 110 ∷ 118 ∷ 97 ∷ 108 ∷ 105 ∷ 100 ∷ 32 ∷ 97 ∷ 114 ∷ 103 ∷ 117 ∷ 109 ∷ 101 ∷ 110 ∷ 116 ∷ 58
    ∷ 32 ∷ []

-- "invalid URI: "
abbrev pub uri_text : Text
uri_text = 105 ∷ 110 ∷ 118 ∷ 97 ∷ 108 ∷ 105 ∷ 100 ∷ 32 ∷ 85 ∷ 82 ∷ 73 ∷ 58 ∷ 32 ∷ []

-- "callback failed: "
abbrev pub callback_text : Text
callback_text =
    99 ∷ 97 ∷ 108 ∷ 108 ∷ 98 ∷ 97 ∷ 99 ∷ 107 ∷ 32 ∷ 102 ∷ 97 ∷ 105 ∷ 108 ∷ 101 ∷ 100 ∷ 58 ∷ 32 ∷ []

module _ {io : Io} where
  unfoldable pub to_string : QuicheError io → Text
  unfolding format_signed
  to_string (runtime_init e) = runtime_text ++ io.to_string e
  to_string (status code message) = status_text ++ format_signed code ++ 58 ∷ 32 ∷ message
  to_string (invalid_arg message) = arg_text ++ message
  to_string (invalid_uri message) = uri_text ++ message
  to_string (callback_failed message) = callback_text ++ message

  unfoldable pub into_exception : QuicheError io → PhpException
  into_exception e = record { message = to_string e; code = 0 }
