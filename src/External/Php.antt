-- ===== src/External/Php.antt =====
-- The PHP engine as ext-php-rs shows it: values, and calls of callables. A call runs PHP code, of
-- which the extension sees the methods that it calls on stream objects, in their order.
use ext_quiche.Base.{Bool, List}
use ext_quiche.External.Quiche.{Bytes}
use ext_quiche.Connection.{StreamId}

-- A method of a stream object, as PHP calls it.
pub data Method (Zval : Type 0) : Type 0 where
  set_on_data set_on_close : Zval → Method Zval
  write : Bytes → Bool → Method Zval
  close : Method Zval
  open_bidi_stream open_uni_stream : StreamId → Method Zval

-- The arguments of a callback: an incoming stream, a chunk with its end flag, or `$peerClosed`.
pub data Arguments (Object : Type 0) : Type 0 where
  incoming : Object → Arguments Object
  chunk : Bytes → Bool → Arguments Object
  peer_closed : Bool → Arguments Object

pub record Php (Object : Type 0) : Type 1 where
  pub Zval : Type 0
  -- `Zval::is_callable()`, and whether `ZendCallable::new` succeeds
  pub is_callable : Zval → Bool
  -- the state of the PHP program
  pub World : Type 0
  -- `ZendCallable::try_call`
  pub try_call : Zval → Arguments Object → World → List (Object × Method Zval) × World
