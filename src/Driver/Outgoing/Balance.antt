-- ===== src/Driver/Outgoing/Balance.antt =====
-- What goes out over the life of a driver is what PHP wrote.
use ext_quiche.Base.{
  ℕ, ◌≡◌, ◌<◌, refl, sym, ap, ◌∙◌, subst, inl, inr, some, List, [], ◌∷◌, ◌++◌, append-nil,
  append_assoc, length, ◌==◌, Bool-cases,
}
use ext_quiche.Base.Loop.{some_injective}
use ext_quiche.Base.Map.{get, IsMap}
use ext_quiche.External.Quiche.{ReadLaws, SendLaws, HalvesLaws}
use ext_quiche.External.Channel.{ReceiverLaws}
use ext_quiche.Connection.{StreamId, StreamWriter}
use ext_quiche.Driver.{Ports, Session, new_driver, on_conn_established, on_conn_close}
use ext_quiche.Driver.Writes.{process_writes}
use ext_quiche.Driver.Writes.Queue.{content, content-append, NeverFails}
use ext_quiche.Driver.Writes.Intake.{queued, chunks_for}
use ext_quiche.Driver.Writes.Delivery.{outbound, process_writes-IsMap, process_writes-outbound}
use ext_quiche.Driver.Outgoing.{
  SameOut, Step, Life, establish, close, read, write, send, outside, start, after,
  process_reads-SameOut,
}

chunks_for-append :
    (id : StreamId) (ms ns : List StreamWriter)
    → chunks_for id (ms ++ ns) ≡ chunks_for id ms ++ chunks_for id ns
chunks_for-append id [] ns = refl
chunks_for-append id ((j, bs, fin) ∷ ms) ns = elim (Bool-cases (j == id)) [
  | inl here ↦ rw (here, chunks_for-append id ms ns) refl
  | inr there ↦ rw (there) (chunks_for-append id ms ns)
]

-- The bytes of a stream among messages.
abbrev pub bytes_for : StreamId → List StreamWriter → List ℕ
bytes_for id ms = content (chunks_for id ms)

bytes_for-append :
    (id : StreamId) (ms ns : List StreamWriter)
    → bytes_for id (ms ++ ns) ≡ bytes_for id ms ++ bytes_for id ns
bytes_for-append id ms ns =
    ap content (chunks_for-append id ms ns) ∙ content-append (chunks_for id ms) (chunks_for id ns)

module _ {p : Ports} (r : ReceiverLaws p.writes) (w : SendLaws p.quiche) (l : ReadLaws p.quiche)
    (h : HalvesLaws p.quiche w) (id : StreamId) where
  -- What quiche took, then what waits in the table, then what waits in the channel.
  abbrev pub account : Session p → List ℕ
  account s = outbound r w id s ++ bytes_for id (queued r s)

  pub record Balanced (sent : List StreamWriter) (s : Session p) : Type 0 where
    pub is_map : IsMap s.driver.pending_writes
    pub bytes : account s ≡ bytes_for id sent

  -- A step that puts nothing out.
  idle :
      (sent : List StreamWriter) (s t : Session p)
      → SameOut r w id s t
      → Balanced sent s
      → Balanced (sent ++ []) t
  idle sent s t k b = record {
    is_map = rw k.pending b.is_map;
    bytes = rw (k.written, k.pending, k.receiver, append-nil sent) b.bytes;
  }

  process_writes-Balanced :
      (sent : List StreamWriter) (fuel : ℕ) (s t : Session p)
      → NeverFails w id
      → length (queued r s) < fuel
      → process_writes fuel s ≡ some t
      → Balanced sent s
      → Balanced sent t
  process_writes-Balanced sent fuel s t never enough e b =
      let (u, e', (empty, is_map)) = process_writes-IsMap r w fuel s enough b.is_map in
      let (v, e'', out) = process_writes-outbound r w fuel s id enough b.is_map never in
      let done : queued r t ≡ [] =
        subst (λ t. queued r t ≡ []) (some_injective (sym e' ∙ e)) empty in
      let moved : outbound r w id t ≡ account s =
        subst (λ t. outbound r w id t ≡ account s) (some_injective (sym e'' ∙ e)) out in
      record {
        is_map = subst (λ t. IsMap t.driver.pending_writes) (some_injective (sym e' ∙ e)) is_map;
        bytes = rw done (append-nil _ ∙ moved ∙ b.bytes);
      }

  send-Balanced :
      (sent : List StreamWriter) (s : Session p) (ms : List StreamWriter) (rx : p.writes.Rx)
      → r.queued rx ≡ queued r s ++ ms
      → Balanced sent s
      → Balanced (sent ++ ms) (record s { driver = record s.driver { stream_event_recv = rx } })
  send-Balanced sent s ms rx e b = record {
    is_map = b.is_map;
    bytes =
        ap (λ ns. outbound r w id s ++ bytes_for id ns) e
        ∙ ap (λ bs. outbound r w id s ++ bs) (bytes_for-append id (queued r s) ms)
        ∙ sym (append_assoc (outbound r w id s) (bytes_for id (queued r s)) _)
        ∙ ap (λ bs. bs ++ bytes_for id ms) b.bytes
        ∙ sym (bytes_for-append id sent ms);
  }

  Step-Balanced :
      (sent ms : List StreamWriter) (s t : Session p)
      → NeverFails w id
      → Step r w l s ms t
      → Balanced sent s
      → Balanced (sent ++ ms) t
  unfolding on_conn_established on_conn_close
  Step-Balanced sent _ s _ never establish b =
      idle sent s (on_conn_established s)
        (record { receiver = refl; pending = refl; written = refl }) b
  Step-Balanced sent _ s _ never close b =
      idle sent s (on_conn_close s) (record { receiver = refl; pending = refl; written = refl }) b
  Step-Balanced sent _ s _ never (read fuel t enough e) b =
      let (u, e', k) = process_reads-SameOut r w l h id fuel s enough in
      idle sent s t (subst (SameOut r w id s) (some_injective (sym e' ∙ e)) k) b
  Step-Balanced sent _ s _ never (write fuel t enough e) b =
      subst (λ ms. Balanced ms t) (sym (append-nil sent))
        (process_writes-Balanced sent fuel s t never enough e b)
  Step-Balanced sent _ s _ never (send ms rx e) b = send-Balanced sent s ms rx e b
  Step-Balanced sent _ s t never (outside c tx close_tx same) b =
      idle sent s t (record { receiver = refl; pending = refl; written = same id }) b

  Life-Keeps :
      (s t : Session p) (ms : List StreamWriter)
      → NeverFails w id
      → Life r w l s ms t
      → Balanced [] s
      → Balanced ms t
  Life-Keeps s _ _ never start b = b
  Life-Keeps s _ _ never (after ms ns t u life step) b =
      Step-Balanced ms ns t u never step (Life-Keeps s t ms never life b)

  -- For a stream of which quiche took nothing yet and on which it never answers with an error but
  -- `Done`, and a write channel that is empty: over the whole life of the new driver, its
  -- callbacks in any order, with PHP's writes, the network and the other ends between them, and
  -- fuel for each pass, what quiche took for the stream, then what waits in `pending_writes`, then
  -- what waits in the channel, is what PHP wrote, in order.
  pub Life-Balanced :
      (conn_id : ℕ) (rx : p.writes.Rx) (tx : p.events.Tx) (close_tx : p.closes.Tx)
      (c : p.quiche.Conn) (ms : List StreamWriter) (t : Session p)
      → r.queued rx ≡ []
      → w.written c id ≡ []
      → NeverFails w id
      → Life r w l (record { conn = c; driver = new_driver conn_id rx tx close_tx }) ms t
      → account t ≡ bytes_for id ms
  unfolding new_driver get
  Life-Balanced conn_id rx tx close_tx c ms t empty none_taken never life =
      (Life-Keeps _ t ms never life
        (record { is_map = tt; bytes = rw (none_taken, empty) refl })).bytes
