-- ===== src/Socket/Courtesy/Methods.antt =====
-- Methods of stream objects that take no lock which is held.
use ext_quiche.Base.{
  ◌≡◌, refl, ◌∙◌, inl, inr, Bool-cases, false, Option, none, some, List, [], ◌∷◌, All,
}
use ext_quiche.External.Php.{
  Method, set_on_data, set_on_close, write, close, open_bidi_stream, open_uni_stream, Arguments,
}
use ext_quiche.Stream.{
  SlotRef, ConnOpenHandle, StreamObject, incoming_bidi, incoming_uni, bidi, uni, slot, Lock,
  Outcome, ok, raised, deadlock, Host, Store, holds,
}
use ext_quiche.Stream.Methods.{
  install_slot, prepare_bidi_stream, prepare_uni_stream, open_bidi, open_uni, opens, nothing,
  call_method, run_methods, call_callback, calling,
}
use ext_quiche.Socket.Effects.{called, IsWrite, call_method-Calm}
use ext_quiche.Socket.Courtesy.Tables.{Quiet-pure, install_slot-Quiet, prepared-Quiet}
use ext_quiche.Socket.Courtesy.{
  MayRun, Extends, Extends-refl, Extends-trans, Effect-Extends, Ends, Quiet,
}

module _ {h : Host} where
  open h use {php}

  opens-Quiet :
      (handle : ConnOpenHandle) (m : Method php.Zval) (s : Store h)
      → MayRun s.held m
      → Quiet (opens handle m s) s
  unfolding opens open_bidi open_uni prepare_bidi_stream prepare_uni_stream
  opens-Quiet handle (open_bidi_stream id) s k =
      Quiet-pure (open_bidi handle id) (λ o. some (bidi o)) s
        (Quiet-pure (prepare_bidi_stream handle id) _ s
          (prepared-Quiet handle.conn id (λ pair. pair) s (k handle.conn)))
  opens-Quiet handle (open_uni_stream id) s k =
      Quiet-pure (open_uni handle id) (λ o. some (uni o)) s
        (Quiet-pure (prepare_uni_stream handle id) _ s
          (prepared-Quiet handle.conn id (λ pair. pair.1) s (k handle.conn)))
  opens-Quiet handle (set_on_data z) s k = ((λ e. cc), Extends-refl s)
  opens-Quiet handle (set_on_close z) s k = ((λ e. cc), Extends-refl s)
  opens-Quiet handle (write bs fin) s k = ((λ e. cc), Extends-refl s)
  opens-Quiet handle close s k = ((λ e. cc), Extends-refl s)

  written-Quiet :
      (o : StreamObject) (m : Method php.Zval) (s : Store h)
      → IsWrite m
      → Quiet (call_method o m s) s
  written-Quiet o m s k = let (ends, e) = call_method-Calm o m s k in (ends, Effect-Extends e)

  set_slot-Quiet :
      (r : SlotRef) (z : php.Zval) (s : Store h)
      → ((r : SlotRef) → holds (slot r) s.held ≡ false)
      → Quiet (nothing (install_slot r z) s) s
  set_slot-Quiet r z s k =
      Quiet-pure (install_slot r z) (λ u. none) s (install_slot-Quiet r z s (k r))

  call_method-Quiet :
      (o : StreamObject) (m : Method php.Zval) (s : Store h)
      → MayRun s.held m
      → Quiet (call_method o m s) s
  unfolding call_method
  call_method-Quiet o (write bs fin) s k = written-Quiet o (write bs fin) s tt
  call_method-Quiet o close s k = written-Quiet o close s tt
  call_method-Quiet (incoming_bidi o) (set_on_data z) s k = set_slot-Quiet o.on_data z s k
  call_method-Quiet (incoming_bidi o) (set_on_close z) s k = set_slot-Quiet o.on_close z s k
  call_method-Quiet (incoming_bidi o) (open_bidi_stream id) s k = opens-Quiet o.conn_handle _ s k
  call_method-Quiet (incoming_bidi o) (open_uni_stream id) s k = opens-Quiet o.conn_handle _ s k
  call_method-Quiet (incoming_uni o) (set_on_data z) s k = set_slot-Quiet o.on_data z s k
  call_method-Quiet (incoming_uni o) (set_on_close z) s k = set_slot-Quiet o.on_close z s k
  call_method-Quiet (incoming_uni o) (open_bidi_stream id) s k = opens-Quiet o.conn_handle _ s k
  call_method-Quiet (incoming_uni o) (open_uni_stream id) s k = opens-Quiet o.conn_handle _ s k
  call_method-Quiet (bidi o) (set_on_data z) s k = set_slot-Quiet o.on_data z s k
  call_method-Quiet (bidi o) (set_on_close z) s k = set_slot-Quiet o.on_close z s k
  call_method-Quiet (bidi o) (open_bidi_stream id) s k = ((λ e. cc), Extends-refl s)
  call_method-Quiet (bidi o) (open_uni_stream id) s k = ((λ e. cc), Extends-refl s)
  call_method-Quiet (uni o) (set_on_data z) s k = ((λ e. cc), Extends-refl s)
  call_method-Quiet (uni o) (set_on_close z) s k = set_slot-Quiet o.on_close z s k
  call_method-Quiet (uni o) (open_bidi_stream id) s k = ((λ e. cc), Extends-refl s)
  call_method-Quiet (uni o) (open_uni_stream id) s k = ((λ e. cc), Extends-refl s)

  pub run_methods-Ends :
      (held : List Lock) (ms : List (StreamObject × Method php.Zval)) (s : Store h)
      → s.held ≡ held
      → All (λ (m : StreamObject × Method php.Zval). MayRun held m.1) ms
      → Ends (run_methods ms) s []
  unfolding run_methods
  run_methods-Ends held [] s same k = (s, refl, Extends-refl s)
  run_methods-Ends held ((o, m) ∷ ms) s same k =
      split (call_method o m s) (call_method-Quiet o m s (rw same k.0))
        (λ t e. run_methods-Ends held ms t (e ∙ same) k.1)
    where
      split :
          (w : Outcome (Option StreamObject) × Store h)
          → Quiet w s
          → ((t : Store h) → t.held ≡ s.held → Ends (run_methods ms) t [])
          → (u : Store h) × ((elim w.0 [ deadlock ↦ (deadlock, w.1) | _ ↦ run_methods ms w.1 ])
              ≡ (ok tt, u))
            × Extends s u []
      split (ok a, t) q rest = let (u, e, f) = rest t q.1.held in (u, e, Extends-trans q.1 f)
      split (raised, t) q rest = let (u, e, f) = rest t q.1.held in (u, e, Extends-trans q.1 f)
      split (deadlock, t) q rest = absurd (q.0 refl)

  -- A callback whose methods may all run where it is called.
  pub call_callback-Ends :
      (z : Option php.Zval) (args : Arguments StreamObject) (s : Store h)
      → ((z : php.Zval) (w : php.World)
          → All
              (λ (m : StreamObject × Method php.Zval). MayRun s.held m.1)
              (php.try_call z args w).0)
      → Ends (call_callback z args) s (called h z args)
  unfolding call_callback
  call_callback-Ends none args s may = (s, refl, Extends-refl s)
  call_callback-Ends (some z) args s may = elim (Bool-cases (php.is_callable z)) [
    | inl good ↦
        rw (good, call_callback)
          (let (t, e, f) =
              run_methods-Ends s.held (php.try_call z args s.world).0 (calling z args s) refl
                (may z s.world) in
            (
              t,
              e,
              Extends-trans {xs = (z, args) ∷ []}
                  (record { held = refl; calls = refl; keeps = λ c j there. there }) f,
            ))
    | inr bad ↦ rw (bad, call_callback) (s, refl, Extends-refl s)
  ]
