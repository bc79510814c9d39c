-- ===== src/Socket/Tick/Returns.antt =====
-- That the handlers end, for callbacks that wait for no lock which is held.
use ext_quiche.Base.{ℕ, ◌≡◌, inl, inr, Option-cases, []}
use ext_quiche.Base.Map.{get}
use ext_quiche.Connection.{DriverEvent, new_bidi, new_uni, received}
use ext_quiche.Stream.{ConnRef, ok, Host, Store, Exec, ◌>>=◌}
use ext_quiche.Socket.{Server, dispatch_driver_event}
use ext_quiche.Socket.Courtesy.{Courteous}
use ext_quiche.Socket.Courtesy.Results.{Dealt}
use ext_quiche.Socket.Courtesy.Handlers.{dispatch-Dealt, dispatch_unknown}

module _ {h : Host} where
  -- The action succeeds, holds no lock afterwards and has a result with the property.
  abbrev pub Returns {ℓ} : {A : Type ℓ} → Exec h A → Store h → (A → Type 0) → Type ℓ
  Returns m s P = (a : _) × (t : Store h) × (m s ≡ (ok a, t)) × (t.held ≡ []) × P a

  pub Returns-then {ℓ κ} :
      {A : Type ℓ} {B : Type κ} (m : Exec h A) (f : A → Exec h B) (s : Store h) {P : A → Type 0}
      {Q : B → Type 0}
      → Returns m s P
      → ((a : A) (t : Store h) → t.held ≡ [] → P a → Returns (f a) t Q)
      → Returns (m >>= f) s Q
  Returns-then m f s (a, t, e, held, p) next =
      let (b, u, g, k, q) = next a t held p in (b, u, rw e g, k, q)

  pub Dealt-held : (c : ConnRef) (ev : DriverEvent) (s t : Store h) → Dealt c ev s t → t.held ≡ []
  Dealt-held c (new_bidi id) s t d = d.held
  Dealt-held c (new_uni id) s t d = d.held
  Dealt-held c (received id bs fin) s t d = d.held

module _ {h : Host} (polite : Courteous h) where
  pub dispatch-Returns :
      (v : Server h) (conn_id : ℕ) (ev : DriverEvent) (s : Store h)
      → s.held ≡ []
      → Returns (dispatch_driver_event v conn_id ev) s (λ u. Unit)
  dispatch-Returns v conn_id ev s free = elim (Option-cases (get conn_id v.connections)) [
    | inl unknown ↦ (tt, s, dispatch_unknown v conn_id ev s unknown, free, tt)
    | inr (state, known) ↦
        let (t, e, d) = dispatch-Dealt polite v conn_id state ev s known free in
        (tt, t, e, Dealt-held state.conn ev s t d, tt)
  ]
