-- ===== src/Socket/Uses.antt =====
-- Whole lives of a server: any `tick`s, a `close`, and PHP code that calls methods in between.
use ext_quiche.Base.{List, [], ◌∷◌}
use ext_quiche.External.Php.{Method}
use ext_quiche.Stream.{StreamObject, Host, Exec, ◌>>=◌, ◌>>◌, pure}
use ext_quiche.Stream.Methods.{run_methods}
use ext_quiche.Socket.{Server, close_server}
use ext_quiche.Socket.Tick.{Ready, tick}

-- What the PHP thread does with a server: it ticks, over what the turns find ready, it closes, or
-- it calls methods of stream objects that it has, or made up.
pub data Use (Z : Type 0) : Type 0 where
  ticks : List Ready → Use Z
  closes_server : Use Z
  calls : List (StreamObject × Method Z) → Use Z

module _ {h : Host} where
  open h use {php}

  abbrev pub use_once : Server h → Use php.Zval → Exec h (Server h)
  use_once v (ticks rs) = do w ← tick v rs; pure w.0
  use_once v closes_server = close_server v
  use_once v (calls ms) = do run_methods ms; pure v

  unfoldable pub run_uses : Server h → List (Use php.Zval) → Exec h (Server h)
  run_uses v [] = pure v
  run_uses v (u ∷ us) = do w ← use_once v u; run_uses w us
