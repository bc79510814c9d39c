-- ===== src/Socket/Courtesy/Results.antt =====
-- What the events of a driver come to.
use ext_quiche.Base.{◌≡◌, ◌≢◌, Bool, false, none, [], ◌++◌, ◌==◌, if◌then◌else◌}
use ext_quiche.Base.Map.{get}
use ext_quiche.External.Quiche.{Bytes}
use ext_quiche.Connection.{StreamId, DriverEvent, new_bidi, new_uni, received}
use ext_quiche.Stream.{ConnRef, Host, Store, ok}
use ext_quiche.Socket.Effects.{table}
use ext_quiche.Socket.{call_slot, on_found}
use ext_quiche.External.Php.{chunk}
use ext_quiche.Socket.Dispatch.{data_calls, end_calls}

module _ {h : Host} where
  -- A data event of a stream: the calls made before its end, and those of its end.
  pub record Served (c : ConnRef) (id : StreamId) (bs : Bytes) (fin : Bool) (s t : Store h)
      : Type 0 where
    pub held : t.held ≡ []
    -- the store behind the call of `on_data`
    pub middle : Store h
    pub hears :
        on_found (get id (table s c)) (λ slots. call_slot slots.on_data (chunk bs fin)) s
        ≡ (ok tt, middle)
    pub calls :
        t.calls
        ≡ s.calls
          ++ (data_calls h s (get id (table s c)) bs fin
              ++ end_calls h middle (get id (table middle c)) fin)
    pub keeps :
        (j : StreamId)
        → (if fin then (id == j) else false) ≡ false
        → get j (table s c) ≢ none
        → get j (table t c) ≢ none

  -- A new stream is in its table before and after the callback for new streams is called.
  pub record Announced (c : ConnRef) (id : StreamId) (s t : Store h) : Type 0 where
    pub held : t.held ≡ []
    pub there : get id (table t c) ≢ none
    pub keeps : (j : StreamId) → get j (table s c) ≢ none → get j (table t c) ≢ none

  -- What an event does to the connection's table.
  abbrev pub Dealt : ConnRef → DriverEvent → Store h → Store h → Type 0
  Dealt c (new_bidi id) s t = Announced c id s t
  Dealt c (new_uni id) s t = Announced c id s t
  Dealt c (received id bs fin) s t = Served c id bs fin s t
