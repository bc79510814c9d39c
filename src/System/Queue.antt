-- ===== src/System/Queue.antt =====
-- A driver and the server with the event channel between them, in any order of their steps.
pub mod Answers
use ext_quiche.Base.{
  ℕ, ◌%◌, ◌<◌, ◌≡◌, ◌≢◌, refl, sym, ap, ◌∙◌, subst, inl, inr, Option-cases, Bool, true, false, none,
  some, List, [], ◌∷◌, ◌++◌, append-nil, append_assoc, All,
}
use ext_quiche.Base.Map.{get}
use ext_quiche.Base.Loop.{some_injective}
use ext_quiche.External.Quiche.{Bytes, ReadLaws, DuplexLaws}
use ext_quiche.External.Channel.{SenderLaws}
use ext_quiche.External.Php.{
  Method, set_on_data, set_on_close, write, close, open_bidi_stream, open_uni_stream, chunk,
}
use ext_quiche.Connection.{StreamId, DriverEvent, new_bidi, new_uni, received}
use ext_quiche.Driver.{Ports, Session, new_driver, on_conn_established, on_conn_close}
use ext_quiche.Driver.Life.{
  Step, Life, start, after, establish, read, write, outside, Life-IsSound, IsSound, Step-conn_id,
}
use ext_quiche.Driver.Writes.Untouched.{process_writes-Alike}
use ext_quiche.Driver.Reads.Announcements.{nowhere}
use ext_quiche.Driver.Reads.Log.{Log, live, live-append, live_after, Fits, Orderly, Orderly-split}
use ext_quiche.Driver.Reads.Sends.{log}
use ext_quiche.Stream.{StreamObject, StreamSlots, Host, Store, Outcome, ok}
use ext_quiche.Stream.Methods.{run_methods}
use ext_quiche.Socket.{ConnState, Server}
use ext_quiche.Socket.Effects.{Call, called, table}
use ext_quiche.Socket.Courtesy.{Courteous, MayRun}
use ext_quiche.Socket.Courtesy.Methods.{run_methods-Ends}
use ext_quiche.Socket.Courtesy.Results.{Dealt}
use ext_quiche.Socket.Courtesy.Locks.{free_MayRun, All-every}
use ext_quiche.Socket.Courtesy.Handlers.{dispatch-Dealt}
use ext_quiche.Socket.Tick.{driver, handle}
use ext_quiche.Socket.Tick.Heard.{Covers, Dealt-Covers}
use ext_quiche.Socket.Tick.Returns.{Dealt-held}

-- `queue` is what is in the channel, oldest first.
pub record Joint (p : Ports) (h : Host) : Type 0 where
  pub session : Session p
  pub queue : Log
  pub server : Server h
  pub store : Store h

pub Fits-tag :
    (cid : ℕ) (f : StreamId → Bool) (c : ℕ) (ev : DriverEvent) → Fits cid f (c, ev) → c ≡ cid
Fits-tag cid f c (new_bidi id) k = k.0
Fits-tag cid f c (new_uni id) k = k.0
Fits-tag cid f c (received id bs fin) k = k.0

module _ {h : Host} (polite : Courteous h) where
  pub handled :
      (v : Server h) (conn_id : ℕ) (state : ConnState) (ev : DriverEvent) (s : Store h)
      → get conn_id v.connections ≡ some state
      → s.held ≡ []
      → (t : Store h) × (handle v (driver conn_id ev) s ≡ (ok v, t)) × Dealt state.conn ev s t
  unfolding handle
  handled v conn_id state ev s known free =
      let (t, e, dealt) = dispatch-Dealt polite v conn_id state ev s known free in
      (t, rw e refl, dealt)

module _ {p : Ports} (l : ReadLaws p.quiche) (k : SenderLaws p.events) {h : Host} where
  -- The driver's next callback, or a change from outside, and what it sends; the server takes the
  -- oldest event; PHP code calls methods between two ticks.
  pub data Move (x : Joint p h) : Joint p h → Type 0 where
    drives :
        (t : Session p) (news : Log)
        → Step l k x.session t
        → log k t ≡ log k x.session ++ news
        → Move x (record x { session = t; queue = x.queue ++ news })
    hears :
        (e : ℕ × DriverEvent) (rest : Log) (v : Server h) (s : Store h)
        → x.queue ≡ e ∷ rest
        → handle x.server (driver e.0 e.1) x.store ≡ (ok v, s)
        → Move x (record x { queue = rest; server = v; store = s })
    calls :
        (ms : List (StreamObject × Method h.php.Zval)) (s : Store h)
        → run_methods ms x.store ≡ (ok tt, s)
        → Move x (record x { store = s })

  pub data Reached (x : Joint p h) : Joint p h → Type 0 where
    begins : Reached x x
    moves : (y z : Joint p h) → Reached x y → Move y z → Reached x z

  pub Reached-Life : (x y : Joint p h) → Reached x y → Life l k x.session y.session
  Reached-Life x _ begins = start
  Reached-Life x _ (moves y z r (drives t news step sent)) =
      after y.session t (Reached-Life x y r) step
  Reached-Life x _ (moves y z r (hears e rest v s q e')) = Reached-Life x y r
  Reached-Life x _ (moves y z r (calls ms s e)) = Reached-Life x y r

  -- What the server has dealt with, and what is in the channel behind it, is what the driver sent;
  -- the streams that the server was told of and that did not end are in the table, and no lock is
  -- held.
  pub record Agrees (conn_id : ℕ) (v : Server h) (state : ConnState) (x : Joint p h) : Type 0 where
    pub past : Log
    pub sent : log k x.session ≡ past ++ x.queue
    pub tag : x.session.driver.conn_id ≡ conn_id
    pub server : x.server ≡ v
    pub covers : Covers (live nowhere past) state.conn x.store
    pub held : x.store.held ≡ []

  module _ (d : DuplexLaws p.quiche l) (polite : Courteous h) (conn_id : ℕ) (v : Server h)
      (state : ConnState) (known : get conn_id v.connections ≡ some state) where
    -- What the turn leaves behind.
    abbrev After : Joint p h → Log → Outcome (Server h) × Store h → Type 0
    After x rest (ok w, s) =
        Agrees conn_id v state (record x { queue = rest; server = w; store = s })
    After x rest _ = Unit

    hears-Agrees :
        (x : Joint p h) (e : ℕ × DriverEvent) (rest : Log) (w : Server h) (s : Store h)
        → IsSound l k x.session
        → Agrees conn_id v state x
        → x.queue ≡ e ∷ rest
        → handle x.server (driver e.0 e.1) x.store ≡ (ok w, s)
        → Agrees conn_id v state (record x { queue = rest; server = w; store = s })
    hears-Agrees x (c, ev) rest w s sound a head done =
        let all : log k x.session ≡ a.past ++ (c, ev) ∷ rest = a.sent ∙ ap (◌++◌ a.past) head in
        let (before, fits) =
          Orderly-split x.session.driver.conn_id nowhere a.past (c, ev) rest
            (subst (Orderly x.session.driver.conn_id nowhere) all sound.orderly.ordered) in
        let same : c ≡ conn_id =
          Fits-tag x.session.driver.conn_id (live nowhere a.past) c ev fits ∙ a.tag in
        let (t, r, dealt) = handled polite v conn_id state ev x.store known a.held in
        let met : handle v (driver conn_id ev) x.store ≡ (ok w, s) = rw (← a.server, ← same) done in
        subst (After x rest) (sym r ∙ met) (record {
          past = a.past ++ (c, ev) ∷ [];
          sent = all ∙ sym (append_assoc a.past ((c, ev) ∷ []) rest);
          tag = a.tag;
          server = refl;
          covers = λ j alive.
              Dealt-Covers (live nowhere a.past) state.conn ev x.store t dealt a.covers j
                (sym (live-append nowhere a.past (c, ev) j) ∙ alive);
          held = Dealt-held state.conn ev x.store t dealt;
        })

    move-Agrees :
        (x y : Joint p h)
        → IsSound l k x.session
        → Agrees conn_id v state x
        → Move x y
        → Agrees conn_id v state y
    move-Agrees x _ sound a (drives t news step sent) = record {
      past = a.past;
      sent = sent ∙ rw a.sent (append_assoc a.past x.queue news);
      tag = Step-conn_id l k d x.session t step ∙ a.tag;
      server = a.server;
      covers = a.covers;
      held = a.held;
    }
    move-Agrees x _ sound a (hears e rest w s head done) =
        hears-Agrees x e rest w s sound a head done
    move-Agrees x _ sound a (calls ms s done) =
        let (t, e, x') =
          run_methods-Ends [] ms x.store a.held (All-every _ ms (λ m. free_MayRun m.1)) in
        subst (λ s. Agrees conn_id v state (record x { store = s })) (ap (λ w. w.1) (sym e ∙ done))
          (record {
            past = a.past;
            sent = a.sent;
            tag = a.tag;
            server = a.server;
            covers = λ j alive. x'.keeps state.conn j (a.covers j alive);
            held = x'.held ∙ a.held;
          })

  module _ (d : DuplexLaws p.quiche l) (polite : Courteous h) where
    pub Reached-Agrees :
        (conn_id : ℕ) (state : ConnState) (x y : Joint p h)
        → get conn_id x.server.connections ≡ some state
        → ((z : Joint p h) → Reached x z → IsSound l k z.session)
        → Agrees conn_id x.server state x
        → Reached x y
        → Agrees conn_id x.server state y
    Reached-Agrees conn_id state x _ known sound a begins = a
    Reached-Agrees conn_id state x _ known sound a (moves y z r m) =
        move-Agrees d polite conn_id x.server state known y z (sound y r)
          (Reached-Agrees conn_id state x y known sound a r) m
