-- ===== src/Tests/Inbox.antt =====
-- What the peer sent and nobody has read: chunks of one byte, with their stream and whether they
-- end it, in the order in which they came.
use ext_quiche.Base.{
  ℕ, suc, ◌≡◌, refl, ap, subst, Bool, false, Option, none, some, List, [], ◌∷◌, length, ◌==◌, inl,
  inr, Bool-cases, if◌then◌else◌, arith,
}
use ext_quiche.External.Quiche.{Bytes}

abbrev pub Inbox : Type 0
Inbox = List (ℕ × ℕ × Bool)

abbrev pub Picked : Type 0
Picked = Option ((ℕ × Bool) × Inbox)

abbrev pub behind : ℕ × ℕ × Bool → Picked → Picked
behind entry none = none
behind entry (some (x, rest)) = some (x, entry ∷ rest)

-- The first chunk of a stream, and what is left.
abbrev pub pick : ℕ → Inbox → Picked
pick id [] = none
pick id ((j, x, fin) ∷ rest) =
    let later = pick id rest in if j == id then some ((x, fin), rest) else behind (j, x, fin) later

-- What can be read of a stream, up to its end.
abbrev pub waiting : ℕ → Inbox → Bytes
waiting id [] = []
waiting id ((j, x, fin) ∷ rest) =
    let later = waiting id rest in if j == id then x ∷ (if fin then [] else later) else later

pub record Picks (id : ℕ) (inbox : Inbox) (x : ℕ) (fin : Bool) (rest : Inbox) : Type 0 where
  pub size : length inbox ≡ suc (length rest)
  pub here : waiting id inbox ≡ x ∷ (if fin then [] else waiting id rest)
  pub there : (j : ℕ) → (id == j) ≡ false → waiting j inbox ≡ waiting j rest

abbrev pub Found : ℕ → Inbox → Picked → Type 0
Found id inbox none = waiting id inbox ≡ []
Found id inbox (some ((x, fin), rest)) = Picks id inbox x fin rest

pick_later :
    (id j x : ℕ) (fin : Bool) (rest : Inbox) (w : Picked)
    → (j == id) ≡ false
    → Found id rest w
    → Found id ((j, x, fin) ∷ rest) (behind (j, x, fin) w)
pick_later id j x fin rest none other h = rw other h
pick_later id j x fin rest (some ((y, last), left)) other h = record {
  size = ap suc h.size;
  here = rw other h.here;
  there = λ i apart. ground (arith, h.there i apart);
}

pub pick-Found : (id : ℕ) (inbox : Inbox) → Found id inbox (pick id inbox)
pick-Found id [] = refl
pick-Found id ((j, x, fin) ∷ rest) = elim (Bool-cases (j == id)) [
  | inl same ↦
      rw same (record {
        size = refl;
        here = rw same refl;
        there = λ i other. ground (arith, other, same);
      })
  | inr other ↦ rw other (pick_later id j x fin rest (pick id rest) other (pick-Found id rest))
]

pub pick-Picks :
    (id : ℕ) (inbox : Inbox) {x : ℕ} {fin : Bool} {rest : Inbox}
    → pick id inbox ≡ some ((x, fin), rest)
    → Picks id inbox x fin rest
pick-Picks id inbox e = subst (Found id inbox) e (pick-Found id inbox)

pub pick-none : (id : ℕ) (inbox : Inbox) → pick id inbox ≡ none → waiting id inbox ≡ []
pick-none id inbox e = subst (Found id inbox) e (pick-Found id inbox)
