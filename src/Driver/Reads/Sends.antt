-- ===== src/Driver/Reads/Sends.antt =====
-- What each move of `process_reads` adds to the log of sent events.
use ext_quiche.Base.{ℕ, ◌≡◌, ◌∙◌, ap, Bool, [], ◌∷◌, ◌++◌, take}
use ext_quiche.External.Quiche.{Received}
use ext_quiche.External.Channel.{SenderLaws}
use ext_quiche.Connection.{StreamId, received}
use ext_quiche.Driver.{Ports, Session}
use ext_quiche.Driver.Reads.{announcement, reserved, told, deliver, stop}
use ext_quiche.Driver.Reads.Log.{Log}

module _ {p : Ports} (k : SenderLaws p.events) where
  abbrev pub log : Session p → Log
  log s = k.sent s.driver.event_tx

  pub log-reserved : (s : Session p) → log (reserved s) ≡ log s
  log-reserved s = k.sent-try_reserve s.driver.event_tx

  pub log-told :
      (id : StreamId) (s : Session p)
      → log (told id (reserved s)) ≡ log s ++ (s.driver.conn_id, announcement id) ∷ []
  log-told id s =
      k.sent-send _ _ ∙ ap (λ t. t ++ (s.driver.conn_id, announcement id) ∷ []) (log-reserved s)

  pub log-deliver :
      (id : StreamId) (n : ℕ) (fin : Bool) (s : Session p) (r : Received p.quiche.Conn)
      → log (deliver id n fin (reserved s) r)
        ≡ log s ++ (s.driver.conn_id, received id (take n r.buf) fin) ∷ []
  log-deliver id n fin s r =
      k.sent-send _ _
      ∙ ap (λ t. t ++ (s.driver.conn_id, received id (take n r.buf) fin) ∷ []) (log-reserved s)

  pub log-stop : (s : Session p) (r : Received p.quiche.Conn) → log (stop (reserved s) r) ≡ log s
  log-stop s r = k.sent-drop_permit _ ∙ log-reserved s
