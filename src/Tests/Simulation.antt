-- ===== src/Tests/Simulation.antt =====
-- A connection in memory: it hands out one byte at a time and resets no stream; it takes half of each chunk on stream 0,
-- refuses stream 3 and takes every chunk of the other streams.
use ext_quiche.Base.{
  ℕ, suc, ◌⊎◌, ◌+◌, ◌/◌, ◌≤◌, ◌<◌, ◌≡◌, inl, inr, sym, Bool-cases, ap, append-nil, refl, Bool, true,
  false, not, ◌||◌, Option, none, some, List, [], ◌∷◌, ◌++◌, length, take, ◌==◌, if◌then◌else◌,
  arith,
}
use ext_quiche.Tests.Inbox.{Inbox, Picked, pick, pick-Picks}
use ext_quiche.Base.Map.{contains}
use ext_quiche.External.Quiche.{
  Bytes, Quiche, RecvResult, SendResult, Received, Sent, ReadLaws, DuplexLaws, HalvesLaws, SendLaws,
  chunk, is_fin, accepted,
}

pub record Sim : Type 0 where
  pub ready : List ℕ
  -- what the peer sent: stream, byte, end of stream
  pub inbox : Inbox
  pub consumed : ℕ → Bytes
  pub fin_read : ℕ → Bool
  pub written : ℕ → Bytes
  pub peer_closed : Bool

abbrev pub next : List ℕ → Sim → Option ℕ × Sim
next [] c = (none, c)
next (id ∷ ids) c = (some id, record c { ready = ids })

abbrev pub handed : Sim → ℕ → ℕ → Bool → Inbox → Sim
handed c id x fin rest = record c {
  inbox = rest;
  consumed = λ k. if id == k then c.consumed k ++ x ∷ [] else c.consumed k;
  fin_read = λ k. if id == k then c.fin_read k || fin else c.fin_read k;
}

abbrev pub recv : Sim → ℕ → Bytes → Picked → Received Sim
recv c id [] picked = record { result = RecvResult.done; buf = []; conn = c }
recv c id (b ∷ buf) none = record { result = RecvResult.done; buf = b ∷ buf; conn = c }
recv c id (b ∷ buf) (some ((x, fin), rest)) =
    if not (c.fin_read id)
    then record { result = RecvResult.ok 1 fin; buf = x ∷ buf; conn = handed c id x fin rest }
    else record { result = RecvResult.done; buf = b ∷ buf; conn = c }

abbrev pub room : ℕ → Bytes → SendResult
room id bs =
    if id == 0
    then SendResult.ok (length bs / 2)
    else if id == 3
    then SendResult.err 1
    else SendResult.ok (length bs)

abbrev pub send : Sim → ℕ → Bytes → Sent Sim
send c id bs = record {
  result = room id bs;
  conn = record c {
    written = λ k. if id == k then c.written k ++ take (accepted (room id bs)) bs else c.written k;
  };
}

abbrev pub simulated : Quiche
simulated = record {
  Conn = Sim;
  stream_readable_next = λ c. next c.ready c;
  stream_recv = λ c id buf. recv c id buf (pick id c.inbox);
  stream_send = λ c id bs fin. send c id bs;
  peer_error = λ c. c.peer_closed;
}

abbrev pub backlog : Sim → ℕ
backlog c = length c.ready + length c.inbox

pub next_some :
    (ready : List ℕ) (c : Sim) (id : ℕ) (ids : List ℕ)
    → ready ≡ id ∷ ids
    → ((next ready c).0 ≡ some id) × ((next ready c).1.ready ≡ ids)
next_some [] c id ids e = cc
next_some (x ∷ xs) c id ids e = ground arith

pub next_none : (ready : List ℕ) (c : Sim) → ready ≡ [] → (next ready c).0 ≡ none
next_none [] c e = refl
next_none (x ∷ xs) c e = cc

pub next_backlog :
    (ready : List ℕ) (c : Sim) (id : ℕ)
    → c.ready ≡ ready
    → (next ready c).0 ≡ some id
    → backlog (next ready c).1 < backlog c
next_backlog [] c id h e = cc
next_backlog (x ∷ xs) c id h e = rw h (omega arith)

pub next_consumed : (ready : List ℕ) (c : Sim) (j : ℕ) → (next ready c).1.consumed j ≡ c.consumed j
next_consumed [] c j = refl
next_consumed (x ∷ xs) c j = refl

pub next_fin : (ready : List ℕ) (c : Sim) (j : ℕ) → (next ready c).1.fin_read j ≡ c.fin_read j
next_fin [] c j = refl
next_fin (x ∷ xs) c j = refl

-- What a law of `stream_recv` says is checked on each of its branches.
pub recv_cases :
    (C : Received Sim → Type 0) (c : Sim) (id : ℕ) (buf : Bytes) (picked : Picked)
    → (buf ≡ [] ⊎ (picked ≡ none ⊎ (c.fin_read id ≡ true))
        → C (record { result = RecvResult.done; buf = buf; conn = c }))
    → ((x : ℕ) (fin : Bool) (b : ℕ) (tail : Bytes) (rest : Inbox)
        → buf ≡ b ∷ tail
        → picked ≡ some ((x, fin), rest)
        → c.fin_read id ≡ false
        → C (record {
          result = RecvResult.ok 1 fin;
          buf = x ∷ tail;
          conn = handed c id x fin rest;
        }))
    → C (recv c id buf picked)
recv_cases C c id [] picked stopped more = stopped (inl refl)
recv_cases C c id (b ∷ buf) none stopped more = stopped (inr (inl refl))
recv_cases C c id (b ∷ buf) (some ((x, fin), rest)) stopped more =
    elim (Bool-cases (c.fin_read id)) [
      | inl over ↦ rw over (stopped (inr (inr over)))
      | inr running ↦ rw running (more x fin b buf rest refl refl running)
    ]

pub room_fits : (id : ℕ) (bs : Bytes) (n : ℕ) → room id bs ≡ SendResult.ok n → n ≤ length bs
room_fits id bs n e = ground arith

abbrev pub simulated_sends : SendLaws simulated
simulated_sends = record {
  written = λ c. c.written;
  send_fits = λ c id bs fin n e. room_fits id bs n e;
  send_written = λ c id bs fin j. refl;
}

pub one_fits : (n k : ℕ) (fin fin' : Bool) → RecvResult.ok 1 fin' ≡ RecvResult.ok n fin → n ≤ suc k
one_fits n k fin fin' e = ground arith

pub done_ne : (n : ℕ) (fin : Bool) → RecvResult.done ≡ RecvResult.ok n fin → ⊥
done_ne n fin e = cc

pub same_or : (b f : Bool) → f ≡ (if b then f || false else f)
same_or b f = ground arith

pub same_append : (b : Bool) (bs : Bytes) → bs ≡ (if b then bs ++ [] else bs)
same_append true bs = sym (append-nil bs)
same_append false bs = refl

pub shorter :
    (id : ℕ) (inbox : Inbox) (n : ℕ) {x : ℕ} {fin : Bool} {rest : Inbox}
    → pick id inbox ≡ some ((x, fin), rest)
    → n + length rest < n + length inbox
shorter id inbox n m = omega (arith, (pick-Picks id inbox m).size)

abbrev pub simulated_reads : ReadLaws simulated
simulated_reads = record {
  ready = λ c. c.ready;
  backlog = backlog;
  consumed = λ c. c.consumed;
  fin_read = λ c. c.fin_read;
  next_none = λ c. next_none c.ready c;
  next_some = λ c. next_some c.ready c;
  next_backlog = λ c id. next_backlog c.ready c id refl;
  next_consumed = λ c. next_consumed c.ready c;
  next_fin = λ c. next_fin c.ready c;
  recv_buf = λ c id buf.
      recv_cases (λ r. length r.buf ≡ length buf) c id buf (pick id c.inbox) (λ why. refl)
        (λ x fin b tail rest e m o. ap length (sym e));
  recv_fits = λ c id buf n fin.
      recv_cases (λ r. r.result ≡ RecvResult.ok n fin → n ≤ length buf) c id buf (pick id c.inbox)
        (λ why e. absurd (done_ne n fin e))
        (λ x fin' b tail rest e m o k. rw e (one_fits n (length tail) fin fin' k));
  recv_backlog_le = λ c id buf.
      recv_cases (λ r. backlog r.conn ≤ backlog c) c id buf (pick id c.inbox) (λ why. omega arith)
        (λ x fin b tail rest e m o. omega (arith, shorter id c.inbox (length c.ready) m));
  recv_backlog_lt = λ c id buf n fin.
      recv_cases (λ r. r.result ≡ RecvResult.ok n fin → backlog r.conn < backlog c) c id buf
        (pick id c.inbox) (λ why e. absurd (done_ne n fin e))
        (λ x fin' b tail rest e m o k. shorter id c.inbox (length c.ready) m);
  recv_consumed = λ c id buf j.
      recv_cases
        (λ r.
          r.conn.consumed j
          ≡ (if id == j then c.consumed j ++ chunk r.result r.buf else c.consumed j))
        c id buf (pick id c.inbox) (λ why. same_append (id == j) (c.consumed j))
        (λ x fin b tail rest e m o. refl);
  recv_once = λ c id buf n fin.
      recv_cases (λ r. r.result ≡ RecvResult.ok n fin → c.fin_read id ≡ false) c id buf
        (pick id c.inbox) (λ why e. absurd (done_ne n fin e)) (λ x fin' b tail rest e m o k. o);
  recv_fin = λ c id buf j.
      recv_cases
        (λ r.
          r.conn.fin_read j ≡ (if id == j then c.fin_read j || is_fin r.result else c.fin_read j))
        c id buf (pick id c.inbox) (λ why. same_or (id == j) (c.fin_read j))
        (λ x fin b tail rest e m o. refl);
  recv_ready = λ c id buf j other.
      recv_cases (λ r. contains j r.conn.ready ≡ contains j c.ready) c id buf (pick id c.inbox)
        (λ why. refl) (λ x fin b tail rest e m o. refl);
}

abbrev pub simulated_duplex : DuplexLaws simulated simulated_reads
simulated_duplex = record { send_consumed = λ c id bs fin j. refl }

pub next_written : (ready : List ℕ) (c : Sim) (j : ℕ) → (next ready c).1.written j ≡ c.written j
next_written [] c j = refl
next_written (x ∷ xs) c j = refl

abbrev pub simulated_halves : HalvesLaws simulated simulated_sends
simulated_halves = record {
  next_written = λ c. next_written c.ready c;
  recv_written = λ c id buf j.
      recv_cases (λ r. r.conn.written j ≡ c.written j) c id buf (pick id c.inbox) (λ why. refl)
        (λ x fin b tail rest e m o. refl);
}
