-- ===== src/Socket/Callbacks.antt =====
-- A rule for what the methods of stream objects have in common, and with them callbacks that call
-- any of them on any objects.
use ext_quiche.Base.{inl, inr, Option, none, some, List, [], ◌∷◌, Bool-cases}
use ext_quiche.External.Php.{
  Method, set_on_data, set_on_close, write, close, open_bidi_stream, open_uni_stream, Arguments,
}
use ext_quiche.Connection.{StreamId, StreamWriter}
use ext_quiche.Stream.{
  SlotRef, ConnRef, ConnOpenHandle, StreamObject, incoming_bidi, incoming_uni, bidi, uni, deadlock,
  Host, Exec, ◌>>=◌, ◌>>◌, pure, raise,
}
use ext_quiche.Stream.Methods.{
  install_slot, send_chunk, make_slot_pair, register, prepare_bidi_stream, prepare_uni_stream,
  open_bidi, open_uni, opens, nothing, call_method, run_methods, call_callback, calling,
}

-- A method, and what a callback does after it.
abbrev pub catching : {h : Host} {A : Type 0} → Exec h A → Exec h (Unit {0}) → Exec h (Unit {0})
catching m n s = let (r, t) = m s in elim r [ deadlock ↦ (deadlock, t) | _ ↦ n t ]

module _ {h : Host} (Good : (A : Type 0) → Exec h A → Type 0) where
  open h use {php, writes}

  pub record IsRule : Type 1 where
    pub pure : (A : Type 0) (a : A) → Good A (pure a)
    pub raise : (A : Type 0) → Good A raise
    pub bind :
        {A B : Type 0} (m : Exec h A) (f : A → Exec h B)
        → Good A m
        → ((a : A) → Good B (f a))
        → Good B (m >>= f)
    pub install_slot : (r : SlotRef) (z : php.Zval) → Good (Unit {0}) (install_slot r z)
    pub send_chunk : (c : ConnRef) (m : StreamWriter) → Good (Unit {0}) (send_chunk c m)
    -- Two new slots are registered before anything else happens.
    pub prepared :
        {A : Type 0} (c : ConnRef) (id : StreamId) (f : SlotRef × SlotRef → Exec h A)
        → ((pair : SlotRef × SlotRef) → Good A (f pair))
        → Good A (do
          pair ← make_slot_pair
          register c id (record { on_data = pair.0; on_close = pair.1 })
          f pair)
    -- An exception ends a method only.
    pub catch :
        {A : Type 0} (m : Exec h A) (n : Exec h (Unit {0}))
        → Good A m
        → Good (Unit {0}) n
        → Good (Unit {0}) (catching m n)
    pub calls :
        (z : php.Zval) (args : Arguments StreamObject)
        → ((ms : List (StreamObject × Method php.Zval)) → Good (Unit {0}) (run_methods ms))
        → Good (Unit {0}) (λ s. run_methods (php.try_call z args s.world).0 (calling z args s))

  module _ (k : IsRule) where
    nothing_good : (m : Exec h (Unit {0})) → Good _ m → Good _ (nothing m)
    nothing_good m hm = k.bind m (λ _. pure none) hm (λ u. k.pure _ none)

    set_good : (r : SlotRef) (z : php.Zval) → Good _ (nothing (install_slot r z))
    set_good r z = nothing_good (install_slot r z) (k.install_slot r z)

    send_good : (c : ConnRef) (m : StreamWriter) → Good _ (nothing (send_chunk c m))
    send_good c m = nothing_good (send_chunk c m) (k.send_chunk c m)

    opens_good : (handle : ConnOpenHandle) (m : Method php.Zval) → Good _ (opens handle m)
    unfolding opens open_bidi open_uni prepare_bidi_stream prepare_uni_stream
    opens_good handle (open_bidi_stream id) =
        k.bind (open_bidi handle id) _
          (k.bind (prepare_bidi_stream handle id) _
            (k.prepared handle.conn id (λ pair. pure pair) (λ pair. k.pure _ pair))
            (λ a. k.pure _ _))
          (λ a. k.pure _ _)
    opens_good handle (open_uni_stream id) =
        k.bind (open_uni handle id) _
          (k.bind (prepare_uni_stream handle id) _
            (k.prepared handle.conn id (λ pair. pure pair.1) (λ pair. k.pure _ pair.1))
            (λ a. k.pure _ _))
          (λ a. k.pure _ _)
    opens_good handle _ = k.raise _

    pub call_method_good : (o : StreamObject) (m : Method php.Zval) → Good _ (call_method o m)
    unfolding call_method
    call_method_good (incoming_bidi o) (set_on_data z) = set_good o.on_data z
    call_method_good (incoming_bidi o) (set_on_close z) = set_good o.on_close z
    call_method_good (incoming_bidi o) (write bs fin) = send_good o.conn _
    call_method_good (incoming_bidi o) close = send_good o.conn _
    call_method_good (incoming_bidi o) (open_bidi_stream id) = opens_good o.conn_handle _
    call_method_good (incoming_bidi o) (open_uni_stream id) = opens_good o.conn_handle _
    call_method_good (incoming_uni o) (set_on_data z) = set_good o.on_data z
    call_method_good (incoming_uni o) (set_on_close z) = set_good o.on_close z
    call_method_good (incoming_uni o) (write bs fin) = opens_good o.conn_handle _
    call_method_good (incoming_uni o) close = opens_good o.conn_handle _
    call_method_good (incoming_uni o) (open_bidi_stream id) = opens_good o.conn_handle _
    call_method_good (incoming_uni o) (open_uni_stream id) = opens_good o.conn_handle _
    call_method_good (bidi o) (set_on_data z) = set_good o.on_data z
    call_method_good (bidi o) (set_on_close z) = set_good o.on_close z
    call_method_good (bidi o) (write bs fin) = send_good o.conn _
    call_method_good (bidi o) close = send_good o.conn _
    call_method_good (bidi o) (open_bidi_stream id) = k.raise _
    call_method_good (bidi o) (open_uni_stream id) = k.raise _
    call_method_good (uni o) (set_on_data z) = k.raise _
    call_method_good (uni o) (set_on_close z) = set_good o.on_close z
    call_method_good (uni o) (write bs fin) = send_good o.conn _
    call_method_good (uni o) close = send_good o.conn _
    call_method_good (uni o) (open_bidi_stream id) = k.raise _
    call_method_good (uni o) (open_uni_stream id) = k.raise _

    pub run_methods_good : (ms : List (StreamObject × Method php.Zval)) → Good _ (run_methods ms)
    unfolding run_methods
    run_methods_good [] = k.pure _ tt
    run_methods_good ((o, m) ∷ ms) =
        k.catch (call_method o m) (run_methods ms) (call_method_good o m) (run_methods_good ms)

    pub call_callback_good :
        (z : Option php.Zval) (args : Arguments StreamObject) → Good _ (call_callback z args)
    unfolding call_callback
    call_callback_good none args = k.pure _ tt
    call_callback_good (some z) args = elim (Bool-cases (php.is_callable z)) [
      | inl good ↦ rw (good, call_callback) (k.calls z args run_methods_good)
      | inr bad ↦ rw (bad, call_callback) (k.pure _ tt)
    ]
