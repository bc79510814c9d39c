-- ===== src/System/Ending.antt =====
-- The end of a connection, from its driver to PHP.
use ext_quiche.Base.{
  ℕ, ◌≡◌, ◌≢◌, refl, sym, ap, ◌∙◌, Bool, List, [], ◌∷◌, ◌++◌, append_cancel_left, length,
  length-append, Bool-cases, inl, inr, arith,
}
use ext_quiche.Base.Map.{get}
use ext_quiche.External.Channel.{SenderLaws}
use ext_quiche.Driver.{Ports, Session, on_conn_close}
use ext_quiche.Stream.{Host, Store}
use ext_quiche.Socket.{Server}
use ext_quiche.Socket.Effects.{CloseOnlyWrites}
use ext_quiche.Socket.Closing.{Forgets, on_conn_closed-Forgets}

longer {ℓ} : {A : Type ℓ} (xs : List A) (x : A) → xs ≢ xs ++ x ∷ []
longer xs x e = omega (arith, ap length e, length-append xs (x ∷ []))

head_eq {ℓ} : {A : Type ℓ} (x y : A) → x ∷ [] ≡ y ∷ [] → x ≡ y
head_eq x y e = cc

module _ {p : Ports} (k : SenderLaws p.closes) {h : Host} (calm : CloseOnlyWrites h) where
  -- Where the callbacks for the end of a stream only write and close, and the server holds no lock:
  -- a message that the driver's on_conn_close puts into the channel for close messages names its
  -- connection and says whether the peer closed it, and the server's handler for that message ends,
  -- calls the `on_close` of each stream of the connection once with that flag, and forgets the
  -- connection, or changes nothing where it does not know it.
  pub on_conn_close-Forgets :
      (s : Session p) (v : Server h) (store : Store h) (conn_id : ℕ) (flag : Bool)
      → k.sent (on_conn_close s).driver.conn_close_tx
        ≡ k.sent s.driver.conn_close_tx ++ (conn_id, flag) ∷ []
      → store.held ≡ []
      → (conn_id ≡ s.driver.conn_id)
        × (flag ≡ p.quiche.peer_error s.conn)
        × Forgets v conn_id flag store (get conn_id v.connections)
  unfolding on_conn_close
  on_conn_close-Forgets s v store conn_id flag went free =
      let message : ℕ × Bool = (s.driver.conn_id, p.quiche.peer_error s.conn) in
      let law = k.sent-try_send message s.driver.conn_close_tx in
      elim (Bool-cases (p.closes.try_send message s.driver.conn_close_tx).0) [
        | inl accepted ↦
            let same : message ≡ (conn_id, flag) =
              head_eq message (conn_id, flag)
                (append_cancel_left (k.sent s.driver.conn_close_tx) _ _
                  (sym (law ∙ rw accepted refl) ∙ went)) in
            (
              sym (ap (λ m. m.0) same),
              sym (ap (λ m. m.1) same),
              on_conn_closed-Forgets calm v conn_id flag store free,
            )
        | inr refused ↦ absurd (
            longer (k.sent s.driver.conn_close_tx) (conn_id, flag)
              (sym (law ∙ rw refused refl) ∙ went))
      ]
