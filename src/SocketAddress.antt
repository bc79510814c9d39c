-- ===== src/SocketAddress.antt =====
-- src/conn.rs: the class `SocketAddress`.
pub mod Split
use ext_quiche.Base.{ℕ, ◌∷◌, ◌++◌}
use ext_quiche.Text.{Text, format}

pub record SocketAddress : Type 0 where
  pub address : Text
  pub port : ℕ

abbrev pub new_address : Text → ℕ → SocketAddress
new_address address port = record { address = address; port = port }

abbrev pub get_address : SocketAddress → Text
get_address a = a.address

abbrev pub set_address : Text → SocketAddress → SocketAddress
set_address address a = record a { address = address }

abbrev pub get_port : SocketAddress → ℕ
get_port a = a.port

abbrev pub set_port : ℕ → SocketAddress → SocketAddress
set_port port a = record a { port = port }

-- "<address>:<port>"
unfoldable pub get_address_result : SocketAddress → Text
unfolding format
get_address_result a = a.address ++ 58 ∷ format a.port
