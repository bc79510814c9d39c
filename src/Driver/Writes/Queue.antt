-- ===== src/Driver/Writes/Queue.antt =====
-- What flushing the queue of one stream does to that stream and to the others.
use ext_quiche.Base.{
  ℕ, ◌≡◌, ◌≢◌, ◌⊎◌, refl, sym, ap, ◌∙◌, inl, inr, Bool, true, false, [], ◌∷◌, ◌++◌, append-nil,
  append_assoc, length, take, drop, take-append-drop, take-length, ◌==◌, ==_iff, ==_refl, arith,
  Bool-cases,
}
use ext_quiche.External.Quiche.{Bytes, Quiche, SendLaws, SendResult, accepted}
use ext_quiche.Connection.{StreamId}
use ext_quiche.Driver.{Chunks}
use ext_quiche.Driver.Writes.{flush_queue}

-- The bytes of a queue.
abbrev pub content : Chunks → Bytes
content [] = []
content ((bs, fin) ∷ rest) = bs ++ content rest

pub content-append : (xs ys : Chunks) → content (xs ++ ys) ≡ content xs ++ content ys
content-append [] ys = refl
content-append ((bs, fin) ∷ xs) ys = simp (content-append xs ys, append_assoc)

SendResult-cases :
    (r : SendResult)
    → ((n : ℕ) × (r ≡ SendResult.ok n))
      ⊎ ((r ≡ SendResult.done) ⊎ ((e : ℕ) × (r ≡ SendResult.err e)))
SendResult-cases (SendResult.ok n) = inl (n, refl)
SendResult-cases SendResult.done = inr (inl refl)
SendResult-cases (SendResult.err e) = inr (inr (e, refl))

take-full : (n : ℕ) (bs : Bytes) → (n == length bs) ≡ true → take n bs ≡ bs
take-full n bs full = rw ((==_iff n (length bs)).0 full) (take-length bs)

regroup : (w t d b r : Bytes) → t ++ d ≡ b → (w ++ t) ++ (d ++ r) ≡ w ++ (b ++ r)
regroup w t d b r e =
    append_assoc w t (d ++ r) ∙ ap (◌++◌ w) (sym (append_assoc t d r) ∙ ap (λ x. x ++ r) e)

module _ {q : Quiche} (l : SendLaws q) where
  -- quiche takes chunks of the stream or makes it wait, and never answers with an error.
  abbrev pub NeverFails : StreamId → Type 0
  NeverFails id =
      (c : q.Conn) (bs : Bytes) (fin : Bool) (e : ℕ)
      → (q.stream_send c id bs fin).result ≢ SendResult.err e

  -- quiche takes each chunk of the stream whole.
  abbrev pub AcceptsAll : StreamId → Type 0
  AcceptsAll id =
      (c : q.Conn) (bs : Bytes) (fin : Bool)
      → (q.stream_send c id bs fin).result ≡ SendResult.ok (length bs)

  pub AcceptsAll-NeverFails : (id : StreamId) → AcceptsAll id → NeverFails id
  AcceptsAll-NeverFails id all c bs fin x e = cc (all c bs fin)

  send_self :
      (c : q.Conn) (id : StreamId) (bs : Bytes) (fin : Bool) (r : SendResult)
      → (q.stream_send c id bs fin).result ≡ r
      → l.written (q.stream_send c id bs fin).conn id ≡ l.written c id ++ take (accepted r) bs
  send_self c id bs fin r e = l.send_written c id bs fin id ∙ rw (==_refl id, e)

  -- Another stream is left alone.
  pub flush_queue_ne :
      (id j : StreamId) (queue : Chunks) (c : q.Conn)
      → (id == j) ≡ false
      → l.written (flush_queue q id queue c).2 j ≡ l.written c j
  unfolding flush_queue
  flush_queue_ne id j [] c ne = refl
  flush_queue_ne id j ((bs, fin) ∷ rest) c ne = ground (
    arith,
    l.send_written c id bs fin j,
    flush_queue_ne id j rest (q.stream_send c id bs fin).conn ne,
  )

  -- `retain` keeps exactly the queues in which something is left.
  pub flush_queue_keep :
      (id : StreamId) (queue : Chunks) (c : q.Conn)
      → (flush_queue q id queue c).0 ≡ false
      → (flush_queue q id queue c).1 ≡ []
  unfolding flush_queue
  flush_queue_keep id [] c h = refl
  flush_queue_keep id ((bs, fin) ∷ rest) c h =
      ground (arith, flush_queue_keep id rest (q.stream_send c id bs fin).conn)

  pub flush_queue-written :
      (id : StreamId) (queue : Chunks) (c : q.Conn)
      → NeverFails id
      → l.written (flush_queue q id queue c).2 id ++ content (flush_queue q id queue c).1
        ≡ l.written c id ++ content queue
  unfolding flush_queue
  flush_queue-written id [] c never = refl
  flush_queue-written id ((bs, fin) ∷ rest) c never =
      elim (SendResult-cases (q.stream_send c id bs fin).result) [
        | inl (n, e) ↦ elim (Bool-cases (n == length bs)) [
          | inl full ↦
              rw (e, flush_queue, full, flush_queue)
                (flush_queue-written id rest (q.stream_send c id bs fin).conn never
                  ∙ rw (send_self c id bs fin _ e) (
                      append_assoc (l.written c id) (take n bs) (content rest)
                      ∙ rw (take-full n bs full)))
          | inr part ↦
              rw (e, flush_queue, part, flush_queue)
                (rw (send_self c id bs fin _ e) (
                  regroup (l.written c id) (take n bs) (drop n bs) bs (content rest)
                    (take-append-drop n bs)))
        ]
        | inr (inl e) ↦ rw (e, flush_queue) (rw (send_self c id bs fin _ e) (rw append-nil))
        | inr (inr (x, e)) ↦ absurd (never c bs fin x e)
      ]

  -- A stream of which quiche takes everything has nothing left to send.
  pub flush_queue_all :
      (id : StreamId) (queue : Chunks) (c : q.Conn)
      → AcceptsAll id
      → (flush_queue q id queue c).0 ≡ false
  unfolding flush_queue
  flush_queue_all id [] c all = refl
  flush_queue_all id ((bs, fin) ∷ rest) c all =
      rw (all c bs fin, flush_queue, ==_refl (length bs), flush_queue)
        (flush_queue_all id rest (q.stream_send c id bs fin).conn all)
