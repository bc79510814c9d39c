-- ===== src/Stream.antt =====
-- src/stream.rs and the handles of src/quiche/conn.rs: the stream objects that PHP holds, over the
-- state that they share with the server through `Arc`, and the locks of that state.
pub mod Methods
use ext_quiche.Base.{
  ℕ, suc, ◌+◌, ◌≡◌, Bool, true, false, not, ◌&&◌, ◌||◌, Option, none, some, List, [], ◌∷◌, ◌++◌,
  ◌==◌, if◌then◌else◌,
}
use ext_quiche.Base.Map.{get, insert}
use ext_quiche.External.Quiche.{Bytes}
use ext_quiche.External.Channel.{Sender}
use ext_quiche.External.Php.{
  Method, set_on_data, set_on_close, write, close, open_bidi_stream, open_uni_stream, Arguments,
  Php,
}
use ext_quiche.Connection.{StreamId, StreamWriter}

-- Where a `CallbackSlot` and what one connection shares are kept.
abbrev pub SlotRef : Type 0
SlotRef = ℕ

abbrev pub ConnRef : Type 0
ConnRef = ℕ

pub record StreamSlots : Type 0 where
  pub on_data : SlotRef
  pub on_close : SlotRef

-- `conn` stands for `write_tx`, `write_notify` and `php_stream_callbacks`.
pub record ConnOpenHandle : Type 0 where
  pub conn_id : ℕ
  pub peer_addr : ℕ
  pub conn : ConnRef

pub record IncomingBidiStream : Type 0 where
  pub conn_id : ℕ
  pub stream_id : StreamId
  pub peer_addr : ℕ
  pub conn : ConnRef
  pub on_data : SlotRef
  pub on_close : SlotRef
  pub conn_handle : ConnOpenHandle

pub record IncomingUniStream : Type 0 where
  pub conn_id : ℕ
  pub stream_id : StreamId
  pub peer_addr : ℕ
  pub on_data : SlotRef
  pub on_close : SlotRef
  pub conn_handle : ConnOpenHandle

pub record BidiStream : Type 0 where
  pub conn_id : ℕ
  pub stream_id : StreamId
  pub conn : ConnRef
  pub on_data : SlotRef
  pub on_close : SlotRef

pub record UniStream : Type 0 where
  pub conn_id : ℕ
  pub stream_id : StreamId
  pub conn : ConnRef
  pub on_close : SlotRef

pub data StreamObject : Type 0 where
  incoming_bidi : IncomingBidiStream → StreamObject
  incoming_uni : IncomingUniStream → StreamObject
  bidi : BidiStream → StreamObject
  uni : UniStream → StreamObject

pub data Lock : Type 0 where
  slot : SlotRef → Lock
  callbacks : ConnRef → Lock
  stream_callback : Lock

abbrev pub same_lock : Lock → Lock → Bool
same_lock (slot a) (slot b) = a == b
same_lock (callbacks a) (callbacks b) = a == b
same_lock stream_callback stream_callback = true
same_lock _ _ = false

-- parking_lot's mutexes are not reentrant: the thread that holds one waits for itself for ever.
pub data Outcome {ℓ} (A : Type ℓ) : Type ℓ where
  ok : A → Outcome A
  raised : Outcome A
  deadlock : Outcome A

-- What one connection shares with its objects; `notified` counts the calls of `notify_one`.
pub record Shared (Tx : Type 0) : Type 0 where
  pub write_tx : Tx
  pub notified : ℕ
  pub php_stream_callbacks : List (StreamId × StreamSlots)

-- What the PHP thread runs against: the engine and the write channels.
pub record Host : Type 1 where
  pub php : Php StreamObject
  pub writes : Sender StreamWriter
  -- the sending end of `mpsc::channel(capacity)`
  pub channel : ℕ → writes.Tx

pub record Store (h : Host) : Type 0 where
  pub slots : SlotRef → Option h.php.Zval
  pub next_slot : SlotRef
  pub conns : ConnRef → Shared h.writes.Tx
  pub next_conn : ConnRef
  -- the locks that the thread holds
  pub held : List Lock
  pub world : h.php.World
  -- the callables called so far, with their arguments
  pub calls : List (h.php.Zval × Arguments StreamObject)
  -- the slots for which `fire_on_close` was called so far
  pub on_closes : List SlotRef

abbrev pub update {ℓ} : {A : Type ℓ} → (ℕ → A) → ℕ → A → ℕ → A
update f k v j = if k == j then v else f j

abbrev pub Exec {ℓ} : Host → Type ℓ → Type ℓ
Exec h A = Store h → Outcome A × Store h

abbrev pub holds : Lock → List Lock → Bool
holds l [] = false
holds l (k ∷ ks) = same_lock k l || holds l ks

abbrev pub release : List Lock → List Lock
release [] = []
release (k ∷ ks) = ks

module _ {h : Host} where
  open h use {php, writes}

  abbrev pub continue {ℓ κ} : {A : Type ℓ} {B : Type κ} → Outcome A → (A → Exec h B) → Exec h B
  continue (ok a) f s = f a s
  continue raised f s = (raised, s)
  continue deadlock f s = (deadlock, s)

  infixl 5 ◌>>=◌ ◌>>◌
  abbrev pub ◌>>=◌ {ℓ κ} : {A : Type ℓ} {B : Type κ} → Exec h A → (A → Exec h B) → Exec h B
  ◌>>=◌ m f s = let (r, t) = m s in continue r f t

  abbrev pub ◌>>◌ {ℓ κ} : {A : Type ℓ} {B : Type κ} → Exec h A → Exec h B → Exec h B
  m >> n = m >>= λ _. n

  abbrev pub pure {ℓ} : {A : Type ℓ} → A → Exec h A
  pure a s = (ok a, s)

  abbrev pub raise {ℓ} : {A : Type ℓ} → Exec h A
  raise s = (raised, s)

  abbrev pub gets {ℓ} : {A : Type ℓ} → (Store h → A) → Exec h A
  gets f s = (ok (f s), s)

  abbrev pub modify : (Store h → Store h) → Exec h (Unit {0})
  modify f s = (ok tt, f s)

  -- A block that holds a guard; guards are dropped last in, first out.
  unfoldable pub with_lock {ℓ} : {A : Type ℓ} → Lock → Exec h A → Exec h A
  with_lock l m s =
      let (r, t) = m (record s { held = l ∷ s.held }) in
      elim (holds l s.held) [
        | true ↦ (deadlock, s)
        | false ↦ (r, record t { held = release t.held })
      ]
