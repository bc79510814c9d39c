-- ===== src/External/Channel.antt =====
-- `tokio::sync::mpsc`: the two ends of a bounded channel. Other tasks send and receive between
-- two calls, so a call's answer is not determined by what this end did before.
use ext_quiche.Base.{
  ℕ, ◌+◌, ◌≤◌, true, Bool, Option, none, some, List, [], ◌∷◌, ◌++◌, ◌≡◌, if◌then◌else◌,
}

-- `mpsc::Sender<M>`
pub record Sender (M : Type 0) : Type 1 where
  pub Tx : Type 0
  -- `try_reserve()`: true where it returns a permit, false where the channel is full or closed.
  pub try_reserve : Tx → Bool × Tx
  -- `permit.send(m)`
  pub send : M → Tx → Tx
  -- a permit that goes out of scope unused
  pub drop_permit : Tx → Tx
  -- `try_send(m)`: true for `Ok(())`.
  pub try_send : M → Tx → Bool × Tx

-- `sent` is what went into the channel through this end, oldest first.
module _ {M : Type 0} (s : Sender M) where
  open s use {Tx, try_reserve, send, drop_permit, try_send}

  pub record SenderLaws : Type 0 where
    pub sent : Tx → List M
    pub sent-try_reserve : (t : Tx) → sent (try_reserve t).1 ≡ sent t
    pub sent-send : (m : M) (t : Tx) → sent (send m t) ≡ sent t ++ m ∷ []
    pub sent-drop_permit : (t : Tx) → sent (drop_permit t) ≡ sent t
    pub sent-try_send :
        (m : M) (t : Tx)
        → sent (try_send m t).1 ≡ (if (try_send m t).0 then sent t ++ m ∷ [] else sent t)

-- `room` is a number of messages that are sure to find a place, as where no other end sends.
module _ {M : Type 0} (s : Sender M) where
  open s use {Tx, try_reserve, send, drop_permit}

  pub record RoomLaws : Type 0 where
    pub room : Tx → ℕ
    pub try_reserve_room :
        (t : Tx) → 1 ≤ room t → ((try_reserve t).0 ≡ true) × (room t ≤ room (try_reserve t).1 + 1)
    pub send_room : (m : M) (t : Tx) → room t ≤ room (send m t)
    pub drop_permit_room : (t : Tx) → room t + 1 ≤ room (drop_permit t)

-- `mpsc::Receiver<M>`
pub record Receiver (M : Type 0) : Type 1 where
  pub Rx : Type 0
  -- `try_recv()`: none for `Err(_)`, an empty or closed channel.
  pub try_recv : Rx → Option M × Rx

-- `queued` is what is in the channel, oldest first. Nothing is sent while the receiver empties it.
module _ {M : Type 0} (r : Receiver M) where
  open r use {Rx, try_recv}

  pub record ReceiverLaws : Type 0 where
    pub queued : Rx → List M
    pub try_recv_empty :
        (t : Rx) → queued t ≡ [] → ((try_recv t).0 ≡ none) × (queued (try_recv t).1 ≡ [])
    pub try_recv_some :
        (t : Rx) (m : M) (ms : List M)
        → queued t ≡ m ∷ ms
        → ((try_recv t).0 ≡ some m) × (queued (try_recv t).1 ≡ ms)
