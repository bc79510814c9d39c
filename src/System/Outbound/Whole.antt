-- ===== src/System/Outbound/Whole.antt =====
-- What PHP writes over the whole life of a connection, its calls and the driver's callbacks in any
-- order.
use ext_quiche.Base.{ℕ, ◌≡◌, List, [], ◌++◌, append-nil, subst, sym}
use ext_quiche.External.Channel.{SenderLaws, ReceiverLaws}
use ext_quiche.External.Quiche.{ReadLaws, SendLaws, HalvesLaws}
use ext_quiche.External.Php.{Method}
use ext_quiche.Connection.{StreamId, StreamWriter}
use ext_quiche.Driver.{Ports, Session, new_driver}
use ext_quiche.Driver.Outgoing.{Step, Life, start, after, send}
use ext_quiche.Driver.Outgoing.Balance.{account, bytes_for, Life-Balanced}
use ext_quiche.Driver.Writes.Intake.{queued}
use ext_quiche.Driver.Writes.Queue.{NeverFails}
use ext_quiche.Stream.{ConnRef, StreamObject, Host, Store}
use ext_quiche.Stream.Methods.{call_method}
use ext_quiche.System.Outbound.{message, WritesOn, kept, sent, call_method-Puts}

-- The PHP thread's store, and the driver of the connection.
pub record Both (h : Host) (p : Ports) : Type 0 where
  pub store : Store h
  pub session : Session p

abbrev pub got : {p : Ports} → p.writes.Rx → Session p → Session p
got rx s = record s { driver = record s.driver { stream_event_recv = rx } }

module _ {h : Host} (k : SenderLaws h.writes) {p : Ports} (r : ReceiverLaws p.writes)
    (w : SendLaws p.quiche) (l : ReadLaws p.quiche) (c : ConnRef) where
  -- The driver works; PHP writes to a stream of the connection or closes it, and the driver's end
  -- of the channel gets what the call put into the other; or the PHP thread does something else,
  -- which puts nothing into this channel. With each, the messages of the calls that returned.
  pub data Move (b : Both h p) : List StreamWriter → Both h p → Type 0 where
    driver : (t : Session p) → Step r w l b.session [] t → Move b [] (record b { session = t })
    call :
        (o : StreamObject) (method : Method h.php.Zval) (rx : p.writes.Rx)
        → WritesOn c (o, method)
        → ((ms : List StreamWriter)
            → sent k c (call_method o method b.store).1 ≡ sent k c b.store ++ ms
            → r.queued rx ≡ queued r b.session ++ ms)
        → Move b
            (kept (call_method o method b.store).0 (message (o, method)))
            (record { store = (call_method o method b.store).1; session = got rx b.session })
    elsewhere : (s : Store h) → sent k c s ≡ sent k c b.store → Move b [] (record b { store = s })

  pub data Reached (a : Both h p) : List StreamWriter → Both h p → Type 0 where
    begin : Reached a [] a
    go :
        (ms ns : List StreamWriter) (b d : Both h p)
        → Reached a ms b
        → Move b ns d
        → Reached a (ms ++ ns) d

  Move-Life :
      (s : Session p) (b d : Both h p) (ms ns : List StreamWriter)
      → Life r w l s ms b.session
      → Move b ns d
      → Life r w l s (ms ++ ns) d.session
  Move-Life s b _ ms _ life (driver t step) = after ms [] b.session t life step
  Move-Life s b _ ms _ life (call o method rx on put) =
      let ns = kept (call_method o method b.store).0 (message (o, method)) in
      after ms ns b.session (got rx b.session) life
        (send ns rx (put ns (call_method-Puts k c o method b.store on)))
  Move-Life s b _ ms _ life (elsewhere t same) =
      subst (λ ns. Life r w l s ns b.session) (sym (append-nil ms)) life

  Reached-Life :
      (a b : Both h p) (ms : List StreamWriter) → Reached a ms b → Life r w l a.session ms b.session
  Reached-Life a _ _ begin = start
  Reached-Life a _ _ (go ms ns b d reached move) =
      Move-Life a.session b d ms ns (Reached-Life a b ms reached) move

  -- For a stream of which quiche took nothing yet and on which it never answers with an error but
  -- `Done`, and a write channel that is empty: whatever the order in which PHP writes and closes
  -- streams of a connection, its new driver works, and the PHP thread does other things that put
  -- nothing into that channel, what quiche took for the stream, then what waits in
  -- `pending_writes`, then what waits in the channel, is the data of those calls that returned, in
  -- their order; a call that raised added nothing.
  pub Reached-Conserves :
      (halves : HalvesLaws p.quiche w) (id : StreamId) (conn_id : ℕ) (rx : p.writes.Rx)
      (tx : p.events.Tx) (close_tx : p.closes.Tx) (conn : p.quiche.Conn) (s : Store h)
      (ms : List StreamWriter) (b : Both h p)
      → r.queued rx ≡ []
      → w.written conn id ≡ []
      → NeverFails w id
      → Reached
          (record {
            store = s;
            session = record { conn = conn; driver = new_driver conn_id rx tx close_tx };
          })
          ms
          b
      → account r w l halves id b.session ≡ bytes_for id ms
  Reached-Conserves halves id conn_id rx tx close_tx conn s ms b empty none_taken never reached =
      Life-Balanced r w l halves id conn_id rx tx close_tx conn ms b.session empty none_taken never
        (Reached-Life _ b ms reached)
