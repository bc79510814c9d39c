-- ===== src/Tests/Wire.antt =====
-- A bounded channel: how many messages it still has room for, and what went in.
use ext_quiche.Base.{
  ◌≤◌, ◌+◌, ℕ, zero, suc, ◌≡◌, refl, Bool, true, false, Option, none, some, List, [], ◌∷◌, ◌++◌,
  arith, if◌then◌else◌,
}
use ext_quiche.External.Channel.{Sender, SenderLaws, RoomLaws, Receiver, ReceiverLaws}

pub record Wire (M : Type 0) : Type 0 where
  pub room : ℕ
  pub log : List M

abbrev pub take_room : ℕ → Bool × ℕ
take_room zero = (false, zero)
take_room (suc n) = (true, n)

module _ {M : Type 0} where
  abbrev pub put : M → Wire M → Wire M
  put m w = record w { log = w.log ++ m ∷ [] }

  abbrev pub try_send : ℕ → M → Wire M → Bool × Wire M
  try_send zero m w = (false, w)
  try_send (suc n) m w = (true, record { room = n; log = w.log ++ m ∷ [] })

  pub try_send-log :
      (n : ℕ) (m : M) (w : Wire M)
      → (try_send n m w).1.log ≡ (if (try_send n m w).0 then w.log ++ m ∷ [] else w.log)
  try_send-log zero m w = refl
  try_send-log (suc n) m w = refl

  abbrev pub receive : List M → Option M × List M
  receive [] = (none, [])
  receive (m ∷ ms) = (some m, ms)

  pub receive_empty : (ms : List M) → ms ≡ [] → ((receive ms).0 ≡ none) × ((receive ms).1 ≡ [])
  receive_empty [] e = (refl, refl)
  receive_empty (m ∷ ms) e = cc

  pub receive-some :
      (ns : List M) (m : M) (ms : List M)
      → ns ≡ m ∷ ms
      → ((receive ns).0 ≡ some m) × ((receive ns).1 ≡ ms)
  receive-some [] m ms e = cc
  receive-some (n ∷ ns) m ms e = ground arith

abbrev pub wire_sender : (M : Type 0) → Sender M
wire_sender M = record {
  Tx = Wire M;
  try_reserve = λ w. ((take_room w.room).0, record w { room = (take_room w.room).1 });
  send = put;
  drop_permit = λ w. record w { room = suc w.room };
  try_send = λ m w. try_send w.room m w;
}

abbrev pub wire_laws : (M : Type 0) → SenderLaws (wire_sender M)
wire_laws M = record {
  sent = λ w. w.log;
  sent-try_reserve = λ t. refl;
  sent-send = λ m t. refl;
  sent-drop_permit = λ t. refl;
  sent-try_send = λ m t. try_send-log t.room m t;
}

abbrev pub wire_receiver : (M : Type 0) → Receiver M
wire_receiver M = record { Rx = List M; try_recv = receive }

abbrev pub receiver_laws : (M : Type 0) → ReceiverLaws (wire_receiver M)
receiver_laws M = record {
  queued = λ t. t;
  try_recv_empty = receive_empty;
  try_recv_some = receive-some;
}

pub take_room_lem : (n : ℕ) → 1 ≤ n → ((take_room n).0 ≡ true) × (n ≤ (take_room n).1 + 1)
take_room_lem zero h = elim h [ ]
take_room_lem (suc n) h = (refl, omega arith)

abbrev pub wire_room : (M : Type 0) → RoomLaws (wire_sender M)
wire_room M = record {
  room = λ w. w.room;
  try_reserve_room = λ w. take_room_lem w.room;
  send_room = λ m w. omega arith;
  drop_permit_room = λ w. omega arith;
}
