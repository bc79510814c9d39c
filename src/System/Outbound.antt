-- ===== src/System/Outbound.antt =====
-- What PHP writes reaches quiche.
pub mod Whole
use ext_quiche.Base.{
  ℕ, ◌≡◌, ◌<◌, refl, sym, ◌∙◌, true, some, List, [], ◌∷◌, ◌++◌, append-nil, append_assoc,
  append_cancel_left, All, length, ==_refl, Bool-cases, inl, inr,
}
use ext_quiche.Base.Map.{IsMap}
use ext_quiche.External.Channel.{SenderLaws, ReceiverLaws}
use ext_quiche.External.Quiche.{SendLaws}
use ext_quiche.External.Php.{Method, write, close}
use ext_quiche.Connection.{StreamId, StreamWriter}
use ext_quiche.Driver.{Ports, Session}
use ext_quiche.Driver.Writes.Queue.{content, AcceptsAll}
use ext_quiche.Driver.Writes.Streams.{waiting}
use ext_quiche.Driver.Writes.Intake.{queued, chunks_for}
use ext_quiche.Driver.Writes.Delivery.{outbound, Ends, process_writes_all}
use ext_quiche.Stream.{
  ConnRef, StreamObject, incoming_bidi, bidi, uni, Outcome, ok, Host, Store, update,
}
use ext_quiche.Stream.Methods.{call_method, send_chunk, nothing}

-- The message that a method sends on the write channel.
abbrev pub message : {Z : Type 0} → StreamObject × Method Z → List StreamWriter
message (incoming_bidi o, write bs fin) = (o.stream_id, some bs, fin) ∷ []
message (incoming_bidi o, close) = (o.stream_id, some [], true) ∷ []
message (bidi o, write bs fin) = (o.stream_id, some bs, fin) ∷ []
message (bidi o, close) = (o.stream_id, some [], true) ∷ []
message (uni o, write bs fin) = (o.stream_id, some bs, fin) ∷ []
message (uni o, close) = (o.stream_id, some [], true) ∷ []
message _ = []

-- A write, or the closing, of a stream of the connection that has these methods.
abbrev pub WritesOn : {Z : Type 0} → ConnRef → StreamObject × Method Z → Type 0
WritesOn c (incoming_bidi o, write bs fin) = o.conn ≡ c
WritesOn c (incoming_bidi o, close) = o.conn ≡ c
WritesOn c (bidi o, write bs fin) = o.conn ≡ c
WritesOn c (bidi o, close) = o.conn ≡ c
WritesOn c (uni o, write bs fin) = o.conn ≡ c
WritesOn c (uni o, close) = o.conn ≡ c
WritesOn c _ = ⊥

abbrev pub kept : {A : Type 0} → Outcome A → List StreamWriter → List StreamWriter
kept (ok a) ms = ms
kept _ ms = []

module _ {h : Host} where
  -- Calls of methods, one after the other, an exception being caught: the messages of those that
  -- returned, and the store behind them.
  unfoldable pub perform :
      List (StreamObject × Method h.php.Zval) → Store h → List StreamWriter × Store h
  perform [] s = ([], s)
  perform ((o, method) ∷ rest) s =
      let (r, t) = call_method o method s in
      let (ms, u) = perform rest t in (kept r (message (o, method)) ++ ms, u)

module _ {h : Host} (k : SenderLaws h.writes) where
  abbrev pub sent : ConnRef → Store h → List StreamWriter
  sent c s = k.sent (s.conns c).write_tx

  abbrev pub Puts :
      {A : Type 0} → ConnRef → List StreamWriter → Store h → Outcome A × Store h → Type 0
  Puts c ms s (r, t) = sent c t ≡ sent c s ++ kept r ms

  send_chunk-Puts :
      (d c : ConnRef) (m : StreamWriter) (s : Store h)
      → d ≡ c
      → Puts c (m ∷ []) s (nothing (send_chunk d m) s)
  unfolding send_chunk
  send_chunk-Puts d c m s e = elim (Bool-cases (h.writes.try_send m (s.conns c).write_tx).0) [
    | inl went ↦
        rw (e, went, sent, update, ==_refl c)
          (k.sent-try_send m (s.conns c).write_tx ∙ rw went refl)
    | inr full ↦
        rw (e, full, sent, update, ==_refl c)
          (k.sent-try_send m (s.conns c).write_tx ∙ rw full (sym (append-nil _)))
  ]

  pub call_method-Puts :
      (c : ConnRef) (o : StreamObject) (method : Method h.php.Zval) (s : Store h)
      → WritesOn c (o, method)
      → Puts c (message (o, method)) s (call_method o method s)
  unfolding call_method
  call_method-Puts c (incoming_bidi o) (write bs fin) s e = send_chunk-Puts o.conn c _ s e
  call_method-Puts c (incoming_bidi o) close s e = send_chunk-Puts o.conn c _ s e
  call_method-Puts c (bidi o) (write bs fin) s e = send_chunk-Puts o.conn c _ s e
  call_method-Puts c (bidi o) close s e = send_chunk-Puts o.conn c _ s e
  call_method-Puts c (uni o) (write bs fin) s e = send_chunk-Puts o.conn c _ s e
  call_method-Puts c (uni o) close s e = send_chunk-Puts o.conn c _ s e
  call_method-Puts c _ _ s e = absurd e

  sent-perform :
      (c : ConnRef) (calls : List (StreamObject × Method h.php.Zval)) (s : Store h)
      → All (WritesOn c) calls
      → sent c (perform calls s).1 ≡ sent c s ++ (perform calls s).0
  unfolding perform
  sent-perform c [] s all = sym (append-nil _)
  sent-perform c ((o, method) ∷ rest) s all =
      let (r, t) = call_method o method s in
      sent-perform c rest t all.1
      ∙ rw (call_method-Puts c o method s all.0)
          (append_assoc (sent c s) (kept r (message (o, method))) (perform rest t).0)

  module _ {p : Ports} (r : ReceiverLaws p.writes) (l : SendLaws p.quiche) where
    -- Where PHP writes and closes streams of a connection, the driver's end of the write channel
    -- has just what went in since it was last emptied, and quiche takes each chunk of a stream
    -- whole: a pass of `process_writes` with more fuel than messages, and a table without double
    -- keys, ends, nothing is left waiting for the stream, and what quiche has taken of it is what
    -- it had, what waited, and the data of those calls that returned, in their order.
    pub perform-Reaches :
        (c : ConnRef) (calls : List (StreamObject × Method h.php.Zval)) (s : Store h) (fuel : ℕ)
        (d : Session p) (id : StreamId)
        → All (WritesOn c) calls
        → sent c (perform calls s).1 ≡ sent c s ++ queued r d
        → length (queued r d) < fuel
        → IsMap d.driver.pending_writes
        → AcceptsAll l id
        → Ends r l fuel d (λ t.
          (waiting id t.driver.pending_writes ≡ [])
          × (l.written t.conn id
              ≡ outbound r l id d ++ content (chunks_for id (perform calls s).0)))
    perform-Reaches c calls s fuel d id all fifo enough is_map accepts =
        let same = append_cancel_left (sent c s) _ _ (sym (sent-perform c calls s all) ∙ fifo) in
        let (t, e, (none_left, taken)) = process_writes_all r l fuel d id enough is_map accepts in
        (t, e, (none_left, rw same taken))
