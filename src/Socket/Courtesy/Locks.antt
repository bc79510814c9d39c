-- ===== src/Socket/Courtesy/Locks.antt =====
-- What is permitted takes no lock that is held while it runs.
use ext_quiche.Base.{refl, Bool, List, [], ◌∷◌, All}
use ext_quiche.External.Quiche.{Bytes}
use ext_quiche.External.Php.{
  Method, set_on_data, set_on_close, write, close, open_bidi_stream, open_uni_stream, chunk,
}
use ext_quiche.Stream.{SlotRef, slot, stream_callback, Lock}
use ext_quiche.Socket.Effects.{IsWrite}
use ext_quiche.Socket.Courtesy.{Permitted, MayRun}

pub All-map {ℓ κ} :
    {A : Type ℓ} (P Q : A → Type κ) (xs : List A) → ((a : A) → P a → Q a) → All P xs → All Q xs
All-map P Q [] f h = tt
All-map P Q (x ∷ xs) f h = (f x h.0, All-map P Q xs f h.1)

pub slot_MayRun :
    {Z : Type 0} (r : SlotRef) (bs : Bytes) (fin : Bool) (m : Method Z)
    → Permitted (chunk bs fin) m
    → MayRun (slot r ∷ []) m
slot_MayRun r bs fin (set_on_data z) p = absurd p
slot_MayRun r bs fin (set_on_close z) p = absurd p
slot_MayRun r bs fin (write x y) p = tt
slot_MayRun r bs fin close p = tt
slot_MayRun r bs fin (open_bidi_stream id) p = λ c. refl
slot_MayRun r bs fin (open_uni_stream id) p = λ c. refl

pub write_MayRun : {Z : Type 0} (held : List Lock) (m : Method Z) → IsWrite m → MayRun held m
write_MayRun held (set_on_data z) p = absurd p
write_MayRun held (set_on_close z) p = absurd p
write_MayRun held (write x y) p = tt
write_MayRun held close p = tt
write_MayRun held (open_bidi_stream id) p = absurd p
write_MayRun held (open_uni_stream id) p = absurd p

pub incoming_MayRun : {Z : Type 0} (m : Method Z) → MayRun (stream_callback ∷ []) m
incoming_MayRun (set_on_data z) = λ r. refl
incoming_MayRun (set_on_close z) = λ r. refl
incoming_MayRun (write x y) = tt
incoming_MayRun close = tt
incoming_MayRun (open_bidi_stream id) = λ c. refl
incoming_MayRun (open_uni_stream id) = λ c. refl

pub free_MayRun : {Z : Type 0} (m : Method Z) → MayRun [] m
free_MayRun (set_on_data z) = λ r. refl
free_MayRun (set_on_close z) = λ r. refl
free_MayRun (write x y) = tt
free_MayRun close = tt
free_MayRun (open_bidi_stream id) = λ c. refl
free_MayRun (open_uni_stream id) = λ c. refl

pub All-every {ℓ κ} : {A : Type ℓ} (P : A → Type κ) (xs : List A) → ((x : A) → P x) → All P xs
All-every P [] h = tt
All-every P (x ∷ xs) h = (h x, All-every P xs h)
