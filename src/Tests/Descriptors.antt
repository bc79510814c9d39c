-- ===== src/Tests/Descriptors.antt =====
-- File descriptors in memory: a list of open files, and their counters.
use ext_quiche.Base.{
  ℕ, zero, suc, Bool, true, false, ◌%◌, sym, ==_iff, ◌+◌, ◌-◌, ◌<◌, ◌≤◌, ◌^◌, ◌≡◌, refl, ◌∙◌,
  Option, none, some, List, [], ◌∷◌, ◌++◌, length, get_elem?, set, ltb, ◌==◌, ==_refl, Bool-cases,
  inl, inr, arith, if◌then◌else◌,
}
use ext_quiche.Stream.{update}
use ext_quiche.External.Os.{Os, OsLaws, IsDescriptor, Alike}

abbrev pub Files : Type 0
Files = List (Option ℕ)

-- A number for a new file; eventfds have even ones, and tokio's files odd ones.
abbrev pub even_file : Files → ℕ
even_file fs = length fs + length fs

abbrev pub odd_file : Files → ℕ
odd_file fs = length fs + length fs + 1

abbrev pub is_odd : ℕ → Bool
is_odd f = f % 2 == 1

-- tokio opens a file.
abbrev pub opened : Files × (ℕ → ℕ) → Files × (ℕ → ℕ)
opened t = (t.0 ++ some (odd_file t.0) ∷ [], t.1)

abbrev pub join : Option (Option ℕ) → Option ℕ
join none = none
join (some o) = o

abbrev pub file_of : Files → ℕ → Option ℕ
file_of fs g = join (get_elem? fs g)

abbrev pub dup_file_of : Files → Option ℕ → ℕ × Files
dup_file_of fs none = (2 ^ 32 - 1, fs)
dup_file_of fs (some f) =
    if ltb (length fs) (2 ^ 31) then (length fs, fs ++ some f ∷ []) else (2 ^ 32 - 1, fs)

abbrev pub add_to : Option ℕ → ℕ → (ℕ → ℕ) → ℕ → ℕ
add_to none v count = count
add_to (some f) v count =
    if ltb (count f + v + 1) (2 ^ 64) then update count f (count f + v) else count

abbrev pub memory_os : Os
memory_os = record {
  Table = Files × (ℕ → ℕ);
  dup = λ fd t. let (d, fs) = dup_file_of t.0 (file_of t.0 fd) in (d, (fs, t.1));
  close = λ fd t. (set t.0 fd none, t.1);
  eventfd = λ t. (length t.0, (t.0 ++ some (even_file t.0) ∷ [], update t.1 (even_file t.0) 0));
  write_u64 = λ fd v t. (t.0, add_to (file_of t.0 fd) v t.1);
}

pub file_of-append :
    (fs : Files) (o : Option ℕ) (g : ℕ)
    → file_of (fs ++ o ∷ []) g ≡ (if length fs == g then o else file_of fs g)
file_of-append [] o zero = refl
file_of-append [] o (suc g) = ground arith
file_of-append (x ∷ fs) o zero = ground arith
file_of-append (x ∷ fs) o (suc g) = ground (arith, file_of-append fs o g)

file_of-length : (fs : Files) → file_of fs (length fs) ≡ none
file_of-length [] = refl
file_of-length (x ∷ fs) = file_of-length fs

pub file_of-set :
    (fs : Files) (fd g : ℕ) → file_of (set fs fd none) g ≡ (if fd == g then none else file_of fs g)
file_of-set [] fd g = ground arith
file_of-set (x ∷ fs) zero zero = refl
file_of-set (x ∷ fs) zero (suc g) = ground arith
file_of-set (x ∷ fs) (suc fd) zero = ground arith
file_of-set (x ∷ fs) (suc fd) (suc g) = ground (arith, file_of-set fs fd g)

pub dup_of_fresh :
    (fs : Files) (o : Option ℕ)
    → IsDescriptor (dup_file_of fs o).0
    → file_of fs (dup_file_of fs o).0 ≡ none
dup_of_fresh fs none fine = absurd (omega arith)
dup_of_fresh fs (some f) fine = elim (Bool-cases (ltb (length fs) (2 ^ 31))) [
  | inl room ↦ rw room (file_of-length fs)
  | inr full ↦ absurd (impossible (rw full at fine))
]
  where
    impossible : 2 ^ 32 - 1 < 2 ^ 31 → ⊥
    impossible h = omega arith

pub dup_of_file :
    (fs : Files) (o : Option ℕ) (g : ℕ)
    → IsDescriptor (dup_file_of fs o).0
    → file_of (dup_file_of fs o).1 g ≡ (if (dup_file_of fs o).0 == g then o else file_of fs g)
dup_of_file fs none g fine = absurd (omega arith)
dup_of_file fs (some f) g fine = elim (Bool-cases (ltb (length fs) (2 ^ 31))) [
  | inl room ↦ rw room (file_of-append fs (some f) g)
  | inr full ↦ absurd (impossible (rw full at fine))
]
  where
    impossible : 2 ^ 32 - 1 < 2 ^ 31 → ⊥
    impossible h = omega arith

pub dup_of_fails :
    (fs : Files) (o : Option ℕ) (g : ℕ)
    → 2 ^ 31 ≤ (dup_file_of fs o).0
    → file_of (dup_file_of fs o).1 g ≡ file_of fs g
dup_of_fails fs none g failed = refl
dup_of_fails fs (some f) g failed = ground (arith, file_of-append fs (some f) g)

pub add_to_lem :
    (o : Option ℕ) (v f : ℕ) (count : ℕ → ℕ)
    → o ≡ some f
    → count f + v + 1 < 2 ^ 64
    → add_to o v count f ≡ count f + v
add_to_lem none v f count e room = absurd cc
add_to_lem (some k) v f count e room = ground arith

abbrev pub memory_laws : OsLaws memory_os
memory_laws = record {
  file = λ t. file_of t.0;
  counter = λ t. t.1;
  dup_fresh = λ fd t. dup_of_fresh t.0 (file_of t.0 fd);
  dup_file = λ fd t g. dup_of_file t.0 (file_of t.0 fd) g;
  dup_fails = λ fd t g. dup_of_fails t.0 (file_of t.0 fd) g;
  dup_counter = λ fd t f. refl;
  close_file = λ fd t g. file_of-set t.0 fd g;
  close_counter = λ fd t g f here. refl;
  eventfd_file = λ t fine. (
    even_file t.0,
    file_of-append t.0 (some (even_file t.0)) (length t.0) ∙ rw (==_refl (length t.0)) refl,
    rw (==_refl (even_file t.0)) refl,
  );
  write_u64_file = λ fd v t g. refl;
  write_u64_counter = λ fd v t f. add_to_lem (file_of t.0 fd) v f t.1;
}

abbrev Unchanged : Files × (ℕ → ℕ) → Files × (ℕ → ℕ) → Type 0
Unchanged t u = Alike memory_laws is_odd t u

pub same-Unchanged : (t : Files × (ℕ → ℕ)) → Unchanged t t
same-Unchanged t = record {
  kept = λ g f even here. here;
  before = λ g f even here. here;
  counter = λ g f even here. refl;
}

odd_ne : (n f : ℕ) → is_odd f ≡ false → f ≡ n + n + 1 → ⊥
odd_ne n f even e = ground arith

some_eq : (x y : ℕ) → ◌≡◌ {A = Option ℕ} (some x) (some y) → y ≡ x
some_eq x y e = cc

pub opened-Unchanged : (t : Files × (ℕ → ℕ)) → Unchanged t (opened t)
opened-Unchanged (fs, count) = record {
  kept = λ g f even here. elim (Bool-cases (length fs == g)) [
    | inl new ↦ absurd (none_here g f new here)
    | inr old ↦ file_of-append fs (some (odd_file fs)) g ∙ rw old here
  ];
  before = λ g f even here. elim (Bool-cases (length fs == g)) [
    | inl new ↦ absurd (
        odd_ne (length fs) f even (
          some_eq (odd_file fs) f
            (rw new at (sym (file_of-append fs (some (odd_file fs)) g) ∙ here))))
    | inr old ↦ rw old at (sym (file_of-append fs (some (odd_file fs)) g) ∙ here)
  ];
  counter = λ g f even here. refl;
}
  where
    none_here : (g f : ℕ) → (length fs == g) ≡ true → file_of fs g ≡ some f → ⊥
    none_here g f new here = cc (here, file_of-length fs, (==_iff (length fs) g).0 new)
