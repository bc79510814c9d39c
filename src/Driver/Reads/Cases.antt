-- ===== src/Driver/Reads/Cases.antt =====
-- The cases of the two parts of `process_reads` that send: a round of the inner loop, and the
-- announcement.
use ext_quiche.Base.{ℕ, ◌≡◌, refl, inl, inr, Bool, true, false, Bool-cases}
use ext_quiche.Base.Map.{contains}
use ext_quiche.Base.Loop.{Flow, again, leave}
use ext_quiche.External.Quiche.{RecvResult, IsStop}
use ext_quiche.Connection.{StreamId}
use ext_quiche.Driver.{Ports, Session}
use ext_quiche.Driver.Reads.{
  Exit, next_stream, client_initiated, reserved, deliver, stop, told, break_outer, announce,
  on_recv, read_chunk,
}

-- What can happen in a round of the inner loop.
pub read_chunk_cases {ℓ} :
    {p : Ports} (C : Flow (Session p) (Exit × Session p) → Type ℓ) (id : StreamId) (s : Session p)
    → let r = p.quiche.stream_recv s.conn id s.driver.io_worker_buf in
      ((p.events.try_reserve s.driver.event_tx).0 ≡ false → C (leave (break_outer, reserved s)))
      → ((n : ℕ) (fin : Bool)
          → r.result ≡ RecvResult.ok n fin
          → C (again (deliver id n fin (reserved s) r)))
      → (IsStop r.result → C (leave (next_stream, stop (reserved s) r)))
      → C (read_chunk id s)
unfolding read_chunk
read_chunk_cases {p} C id s full more rest =
    elim (Bool-cases (p.events.try_reserve s.driver.event_tx).0) [
      | inl granted ↦ rw (granted, read_chunk) (split _ refl)
      | inr refused ↦ rw (refused, read_chunk) (full refused)
    ]
  where
    split :
        (w : RecvResult)
        → (p.quiche.stream_recv s.conn id s.driver.io_worker_buf).result ≡ w
        → C (on_recv id (reserved s) (p.quiche.stream_recv s.conn id s.driver.io_worker_buf) w)
    split (RecvResult.ok n fin) e = more n fin e
    split RecvResult.done e = rest (rw e tt)
    split (RecvResult.err x) e = rest (rw e tt)

-- What can happen before it.
pub announce_cases {ℓ} :
    {p : Ports} (C : Bool × Session p → Type ℓ) (id : StreamId) (s : Session p)
    → (client_initiated id ≡ true
        → contains id s.driver.seen_streams ≡ false
        → (p.events.try_reserve s.driver.event_tx).0 ≡ true
        → C (true, told id (reserved s)))
    → ((p.events.try_reserve s.driver.event_tx).0 ≡ false → C (false, reserved s))
    → ((client_initiated id ≡ true → contains id s.driver.seen_streams ≡ true) → C (true, s))
    → C (announce id s)
unfolding announce
announce_cases {p} C id s new full known = elim (Bool-cases (client_initiated id)) [
  | inr server ↦ rw (server, announce) (known (λ e. cc))
  | inl client ↦ elim (Bool-cases (contains id s.driver.seen_streams)) [
    | inl old ↦ rw (client, announce, old, announce) (known (λ _. old))
    | inr fresh ↦ elim (Bool-cases (p.events.try_reserve s.driver.event_tx).0) [
      | inl granted ↦
          rw (client, announce, fresh, announce, granted, announce) (new client fresh granted)
      | inr refused ↦ rw (client, announce, fresh, announce, refused, announce) (full refused)
    ]
  ]
]
