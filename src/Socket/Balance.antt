-- ===== src/Socket/Balance.antt =====
-- Locks: what returns, or raises, has dropped all that it took.
pub mod Handlers
pub mod Runs
use ext_quiche.Base.{◌≡◌, refl, ap, ◌∙◌, inl, inr, Option, none, some, List, [], ◌∷◌, Bool-cases}
use ext_quiche.External.Php.{
  Method, set_on_data, set_on_close, write, close, open_bidi_stream, open_uni_stream, Arguments,
}
use ext_quiche.Connection.{StreamId, StreamWriter}
use ext_quiche.Stream.{
  SlotRef, ConnRef, StreamSlots, ConnOpenHandle, StreamObject, incoming_bidi, incoming_uni, bidi,
  uni, slot, Lock, callbacks, Outcome, ok, raised, deadlock, Host, Store, Exec, ◌>>=◌, ◌>>◌, pure,
  with_lock, continue, holds, release,
}
use ext_quiche.Stream.Methods.{
  install_slot, send_chunk, make_slot_pair, register, prepare_bidi_stream, prepare_uni_stream,
  open_bidi, open_uni, opens, nothing, call_method, run_methods, call_callback, calling,
}
use ext_quiche.Socket.Callbacks.{IsRule, catching, run_methods_good, call_callback_good}
use ext_quiche.Socket.Firing.{locked, unlocked}

module _ {h : Host} where
  open h use {php, writes}

  abbrev pub Holds {ℓ} : {A : Type ℓ} → List Lock → Outcome A × Store h → Type 0
  Holds held (ok a, t) = t.held ≡ held
  Holds held (raised, t) = t.held ≡ held
  Holds held (deadlock, t) = Unit

  -- Unless the thread hangs, it holds what it held.
  abbrev pub IsBalanced {ℓ} : {A : Type ℓ} → Exec h A → Type 0
  IsBalanced m = (s : Store h) → Holds s.held (m s)

  Holds-same {ℓ} :
      {A : Type ℓ} {before after : List Lock} (w : Outcome A × Store h)
      → before ≡ after
      → Holds before w
      → Holds after w
  Holds-same (ok a, t) e k = k ∙ e
  Holds-same (raised, t) e k = k ∙ e
  Holds-same (deadlock, t) e k = tt

  pub bind-IsBalanced {ℓ κ} :
      {A : Type ℓ} {B : Type κ} (m : Exec h A) (f : A → Exec h B)
      → IsBalanced m
      → ((a : A) → IsBalanced (f a))
      → IsBalanced (m >>= f)
  bind-IsBalanced {A = A} m f hm hf s = split (m s) (hm s)
    where
      split : (w : Outcome A × Store h) → Holds s.held w → Holds s.held (continue w.0 f w.1)
      split (ok a, t) k = Holds-same (f a t) k (hf a t)
      split (raised, t) k = k
      split (deadlock, t) k = tt

  pub with_lock-IsBalanced {ℓ} :
      {A : Type ℓ} (l : Lock) (m : Exec h A) → IsBalanced m → IsBalanced (with_lock l m)
  unfolding with_lock
  with_lock-IsBalanced {A = A} l m hm s = elim (Bool-cases (holds l s.held)) [
    | inl held ↦ rw (held, with_lock) tt
    | inr free ↦ rw (free, with_lock) (drop (m (locked l s)) (hm (locked l s)))
  ]
    where
      drop : (w : Outcome A × Store h) → Holds (l ∷ s.held) w → Holds s.held (w.0, unlocked w.1)
      drop (ok a, t) k = ap release k
      drop (raised, t) k = ap release k
      drop (deadlock, t) k = tt

  install_slot-IsBalanced : (r : SlotRef) (z : php.Zval) → IsBalanced (install_slot r z)
  unfolding install_slot
  install_slot-IsBalanced r z s = elim (Bool-cases (php.is_callable z)) [
    | inl good ↦ rw (good, install_slot) (with_lock-IsBalanced (slot r) _ (λ s. refl) s)
    | inr bad ↦ rw (bad, install_slot) refl
  ]

  send_chunk-IsBalanced : (c : ConnRef) (m : StreamWriter) → IsBalanced (send_chunk c m)
  unfolding send_chunk
  send_chunk-IsBalanced c m s = elim (Bool-cases (writes.try_send m (s.conns c).write_tx).0) [
    | inl sent ↦ rw (sent, send_chunk) refl
    | inr full ↦ rw (full, send_chunk) refl
  ]

  pub register-IsBalanced :
      (c : ConnRef) (id : StreamId) (e : StreamSlots) → IsBalanced (register c id e)
  unfolding register
  register-IsBalanced c id e = with_lock-IsBalanced (callbacks c) _ (λ s. refl)

  pub prepared-IsBalanced :
      {A : Type 0} (c : ConnRef) (id : StreamId) (f : SlotRef × SlotRef → Exec h A)
      → ((pair : SlotRef × SlotRef) → IsBalanced (f pair))
      → IsBalanced (do
        pair ← make_slot_pair
        register c id (record { on_data = pair.0; on_close = pair.1 })
        f pair)
  unfolding make_slot_pair
  prepared-IsBalanced c id f hf =
      bind-IsBalanced make_slot_pair _ (λ s. refl)
        (λ pair.
          bind-IsBalanced (register c id (record { on_data = pair.0; on_close = pair.1 })) _
            (register-IsBalanced c id _) (λ u. hf pair))

  catch-IsBalanced :
      {A : Type 0} (m : Exec h A) (n : Exec h (Unit {0}))
      → IsBalanced m
      → IsBalanced n
      → IsBalanced (catching m n)
  catch-IsBalanced {A} m n hm hn s = split (m s) (hm s)
    where
      split :
          (w : Outcome A × Store h)
          → Holds s.held w
          → let after : Outcome (Unit {0}) × Store h = elim w.0 [
            | deadlock ↦ (deadlock, w.1)
            | _ ↦ n w.1
          ] in
            Holds s.held after
      split (ok a, t) k = Holds-same (n t) k (hn t)
      split (raised, t) k = Holds-same (n t) k (hn t)
      split (deadlock, t) k = tt

  IsBalanced-IsRule : IsRule {h = h} (λ A m. IsBalanced m)
  IsBalanced-IsRule = record {
    pure = λ A a s. refl;
    raise = λ A s. refl;
    bind = bind-IsBalanced;
    install_slot = install_slot-IsBalanced;
    send_chunk = send_chunk-IsBalanced;
    prepared = prepared-IsBalanced;
    catch = catch-IsBalanced;
    calls = λ z args hms s. hms _ (calling z args s);
  }

  pub run_methods-IsBalanced :
      (ms : List (StreamObject × Method php.Zval)) → IsBalanced (run_methods ms)
  run_methods-IsBalanced = run_methods_good (λ A m. IsBalanced m) IsBalanced-IsRule

  pub call_callback-IsBalanced :
      (z : Option php.Zval) (args : Arguments StreamObject) → IsBalanced (call_callback z args)
  call_callback-IsBalanced = call_callback_good (λ A m. IsBalanced m) IsBalanced-IsRule
