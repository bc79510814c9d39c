-- ===== src/Tests/Draining.antt =====
-- What waits to be read in the connection in memory.
use ext_quiche.Base.{
  ℕ, ◌⊎◌, ◌≤◌, ◌≡◌, inl, inr, ap, refl, Bool, true, false, none, List, [], ◌∷◌, ◌++◌, length, take,
  ◌==◌, ==_refl, subst, if◌then◌else◌, arith,
}
use ext_quiche.Tests.Inbox.{pick, pick-Picks, pick-none, waiting}
use ext_quiche.External.Quiche.{Bytes, RecvResult, IsStop, DrainLaws}
use ext_quiche.Tests.Simulation.{Sim, next, recv, recv_cases, done_ne, simulated, simulated_reads}

abbrev pub readable : Sim → ℕ → Bytes
readable c id = if c.fin_read id then [] else waiting id c.inbox

pub next_empty :
    (ready : List ℕ) (c : Sim) → c.ready ≡ ready → ready ≡ [] → (next ready c).1.ready ≡ []
next_empty [] c same e = same
next_empty (x ∷ xs) c same e = cc

pub next_readable : (ready : List ℕ) (c : Sim) (j : ℕ) → readable (next ready c).1 j ≡ readable c j
next_readable [] c j = refl
next_readable (x ∷ xs) c j = refl

pub recv_other :
    (c : Sim) (id : ℕ) (buf : Bytes) (j : ℕ)
    → (id == j) ≡ false
    → readable (recv c id buf (pick id c.inbox)).conn j ≡ readable c j
recv_other c id buf j other =
    recv_cases (λ r. readable r.conn j ≡ readable c j) c id buf (pick id c.inbox) (λ why. refl)
      (λ x fin b tail rest e m o. rw (other, (pick-Picks id c.inbox m).there j other) refl)

one_is : (n : ℕ) (fin fin' : Bool) → RecvResult.ok 1 fin ≡ RecvResult.ok n fin' → 1 ≡ n
one_is n fin fin' e = ground arith

taken_one : (x : ℕ) (tail later : Bytes) (n : ℕ) → 1 ≡ n → x ∷ later ≡ take n (x ∷ tail) ++ later
taken_one x tail later n e = subst (λ n. x ∷ later ≡ take n (x ∷ tail) ++ later) e refl

pub recv_more :
    (c : Sim) (id : ℕ) (buf : Bytes) (n : ℕ) (fin : Bool)
    → let r = recv c id buf (pick id c.inbox) in
      r.result ≡ RecvResult.ok n fin → readable c id ≡ take n r.buf ++ readable r.conn id
recv_more c id buf n fin =
    recv_cases
      (λ r. r.result ≡ RecvResult.ok n fin → readable c id ≡ take n r.buf ++ readable r.conn id) c
      id buf (pick id c.inbox) (λ why e. absurd (done_ne n fin e))
      (λ x fin' b tail rest e m o k.
        rw (o, ==_refl id, (pick-Picks id c.inbox m).here)
          (taken_one x tail _ n (one_is n fin' fin k)))

pub recv_stop :
    (c : Sim) (id : ℕ) (buf : Bytes)
    → let r = recv c id buf (pick id c.inbox) in
      IsStop r.result → 1 ≤ length buf → (readable c id ≡ []) × (readable r.conn id ≡ [])
recv_stop c id buf =
    recv_cases
      (λ r. IsStop r.result → 1 ≤ length buf → (readable c id ≡ []) × (readable r.conn id ≡ [])) c
      id buf (pick id c.inbox) (λ why stop space. let e = empty why space in (e, e))
      (λ x fin' b tail rest e m o k. absurd k)
  where
    empty :
        buf ≡ [] ⊎ (pick id c.inbox ≡ none ⊎ (c.fin_read id ≡ true))
        → 1 ≤ length buf
        → readable c id ≡ []
    empty (inl e) space = absurd (omega (arith, ap length e, space))
    empty (inr (inl e)) space = rw (pick-none id c.inbox e) (ground arith)
    empty (inr (inr e)) space = rw e refl

abbrev pub simulated_drain : DrainLaws simulated simulated_reads
simulated_drain = record {
  readable = readable;
  is_reset = λ c id. false;
  next_empty = λ c. next_empty c.ready c refl;
  next_readable = λ c. next_readable c.ready c;
  next_reset = λ c j. refl;
  recv_reset = λ c id buf j. refl;
  recv_other = recv_other;
  recv_more = recv_more;
  recv_stop = λ c id buf stop space whole. recv_stop c id buf stop space;
}
