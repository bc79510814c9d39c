-- ===== src/Base/Map.antt =====
-- std's `HashMap` and `HashSet` with u64 keys, as association lists: the order of the entries
-- stands for the order of iteration, which Rust leaves open.
use Prim.Native.Nat.{ℕ}
use mathlib.Core.Path.{◌≡◌, refl, ap}
use mathlib.Core.Logic.{inl, inr}
use mathlib.Core.Bool.{Bool, true, false, ◌||◌}
use mathlib.Core.Option.{Option, none, some}
use mathlib.Core.List.{List, [], ◌∷◌}
use native.Mathlib.Omega.{arith}
use ext_quiche.Base.Tests.{◌==◌, ==_iff, Bool-cases, if◌then◌else◌}

module _ {ℓ} {V : Type ℓ} where
  -- map.get(&k)
  unfoldable pub get : ℕ → List (ℕ × V) → Option V
  get k [] = none
  get k ((j, v) ∷ m) = if j == k then some v else get k m

  -- map.insert(k, v): a value at the key is replaced in its place.
  unfoldable pub insert : ℕ → V → List (ℕ × V) → List (ℕ × V)
  insert k v [] = (k, v) ∷ []
  insert k v ((j, w) ∷ m) = if j == k then (k, v) ∷ m else (j, w) ∷ insert k v m

  -- map.remove(&k): the map that is left.
  unfoldable pub remove : ℕ → List (ℕ × V) → List (ℕ × V)
  remove k [] = []
  remove k ((j, w) ∷ m) = let rest = remove k m in if j == k then rest else (j, w) ∷ rest

  pub get-insert :
      (k j : ℕ) (v : V) (m : List (ℕ × V))
      → get j (insert k v m) ≡ (if k == j then some v else get j m)
  unfolding get insert
  get-insert k j v [] = refl
  get-insert k j v ((i, w) ∷ m) = ground (arith, get-insert k j v m)

  pub get-remove :
      (k j : ℕ) (m : List (ℕ × V)) → get j (remove k m) ≡ (if k == j then none else get j m)
  unfolding get remove
  get-remove k j [] = ground arith
  get-remove k j ((i, w) ∷ m) = ground (arith, get-remove k j m)

module _ {ℓ} {V : Type ℓ} where
  -- No key stands twice.
  abbrev pub IsMap : List (ℕ × V) → Type ℓ
  IsMap [] = Unit
  IsMap ((k, v) ∷ m) = (get k m ≡ none) × IsMap m

  pub insert-IsMap : (k : ℕ) (v : V) (m : List (ℕ × V)) → IsMap m → IsMap (insert k v m)
  unfolding insert get
  insert-IsMap k v [] h = (refl, tt)
  insert-IsMap k v ((j, w) ∷ m) h = ground (arith, insert-IsMap k v m h.1, get-insert k j v m)

  pub remove-IsMap : (k : ℕ) (m : List (ℕ × V)) → IsMap m → IsMap (remove k m)
  unfolding remove get
  remove-IsMap k [] h = tt
  remove-IsMap k ((j, w) ∷ m) h = ground (arith, remove-IsMap k m h.1, get-remove k j m)

-- set.contains(&k)
unfoldable pub contains : ℕ → List ℕ → Bool
contains k [] = false
contains k (j ∷ s) = (j == k) || contains k s

-- set.insert(k)
unfoldable pub add : ℕ → List ℕ → List ℕ
unfolding contains
add k s = if contains k s then s else k ∷ s

-- set.remove(&k)
unfoldable pub discard : ℕ → List ℕ → List ℕ
discard k [] = []
discard k (j ∷ s) = let rest = discard k s in if j == k then rest else j ∷ rest

contains-eq : (k j : ℕ) (s : List ℕ) → (k == j) ≡ true → contains k s ≡ contains j s
contains-eq k j s h = ap (λ i. contains i s) ((==_iff k j).0 h)

pub contains-add :
    (k j : ℕ) (s : List ℕ) → contains j (add k s) ≡ (if k == j then true else contains j s)
unfolding add contains
contains-add k j s = elim (Bool-cases (contains k s)) [
  | inl old ↦ rw (old, add) (ground (arith, contains-eq k j s))
  | inr new ↦ rw (new, add) (ground arith)
]

pub contains-discard :
    (k j : ℕ) (s : List ℕ) → contains j (discard k s) ≡ (if k == j then false else contains j s)
unfolding contains discard
contains-discard k j [] = ground arith
contains-discard k j (i ∷ s) = ground (arith, contains-discard k j s)
