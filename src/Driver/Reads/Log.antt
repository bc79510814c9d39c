-- ===== src/Driver/Reads/Log.antt =====
-- What the server can read off the events that one connection sent it.
use ext_quiche.Base.{
  ℕ, ◌%◌, ◌≡◌, refl, sym, ap, ◌∙◌, Bool, true, false, ◌&&◌, List, [], ◌∷◌, ◌++◌, append-nil,
  append_assoc, length, ◌==◌, if◌then◌else◌,
}
use ext_quiche.External.Quiche.{Bytes}
use ext_quiche.Connection.{StreamId, DriverEvent, new_bidi, new_uni, received}

abbrev pub Log : Type 0
Log = List (ℕ × DriverEvent)

-- The bytes that an event brings to a stream of the connection.
abbrev pub piece : ℕ → StreamId → ℕ × DriverEvent → Bytes
piece cid j (c, received id bs fin) = if (c == cid) && (id == j) then bs else []
piece cid j (c, _) = []

abbrev pub delivered : ℕ → StreamId → Log → Bytes
delivered cid j [] = []
delivered cid j (e ∷ es) = piece cid j e ++ delivered cid j es

pub delivered-append :
    (cid : ℕ) (j : StreamId) (es : Log) (e : ℕ × DriverEvent)
    → delivered cid j (es ++ e ∷ []) ≡ delivered cid j es ++ piece cid j e
delivered-append cid j [] e = append-nil (piece cid j e)
delivered-append cid j (x ∷ es) e =
    ap (◌++◌ (piece cid j x)) (delivered-append cid j es e)
    ∙ sym (append_assoc (piece cid j x) (delivered cid j es) (piece cid j e))

-- The streams that are announced and not ended, as a log leaves them.
abbrev pub live_after : (StreamId → Bool) → DriverEvent → StreamId → Bool
live_after f (new_bidi id) j = if id == j then true else f j
live_after f (new_uni id) j = if id == j then true else f j
live_after f (received id bs fin) j = if fin then (if id == j then false else f j) else f j

abbrev pub live : (StreamId → Bool) → Log → StreamId → Bool
live f [] = f
live f (e ∷ es) = live (live_after f e.1) es

pub live-append :
    (f : StreamId → Bool) (es : Log) (e : ℕ × DriverEvent) (j : StreamId)
    → live f (es ++ e ∷ []) j ≡ live_after (live f es) e.1 j
live-append f [] e j = refl
live-append f (x ∷ es) e j = live-append (live_after f x.1) es e j

-- An event is in order where the streams of `f` are live: it has the connection's tag, a stream is
-- announced once, as what its two low bits say, and data of the peer's streams comes only while
-- they are live.
abbrev pub Fits : ℕ → (StreamId → Bool) → ℕ × DriverEvent → Type 0
Fits cid f (c, new_bidi id) = (c ≡ cid) × (id % 4 ≡ 0) × (f id ≡ false)
Fits cid f (c, new_uni id) = (c ≡ cid) × (id % 4 ≡ 2) × (f id ≡ false)
Fits cid f (c, received id bs fin) = (c ≡ cid) × (id % 2 ≡ 0 → f id ≡ true)

abbrev pub Orderly : ℕ → (StreamId → Bool) → Log → Type 0
Orderly cid f [] = Unit
Orderly cid f (e ∷ es) = Fits cid f e × Orderly cid (live_after f e.1) es

pub Orderly-append :
    (cid : ℕ) (f : StreamId → Bool) (es : Log) (e : ℕ × DriverEvent)
    → Orderly cid f es
    → Fits cid (live f es) e
    → Orderly cid f (es ++ e ∷ [])
Orderly-append cid f [] e h k = (k, tt)
Orderly-append cid f (x ∷ es) e h k = (h.0, Orderly-append cid (live_after f x.1) es e h.1 k)

-- The length of the data that an event carries.
abbrev pub size : ℕ × DriverEvent → ℕ
size (c, received id bs fin) = length bs
size (c, _) = 0

pub Orderly-split :
    (cid : ℕ) (f : StreamId → Bool) (es : Log) (e : ℕ × DriverEvent) (later : Log)
    → Orderly cid f (es ++ e ∷ later)
    → Orderly cid f es × Fits cid (live f es) e
Orderly-split cid f [] e later h = (tt, h.0)
Orderly-split cid f (x ∷ es) e later h =
    let (before, fits) = Orderly-split cid (live_after f x.1) es e later h.1 in
    ((h.0, before), fits)
