-- ===== src/External/Os.antt =====
-- The calls of libc on file descriptors. An i32 is its 32 bits, so a negative one is at least 2^31.
use ext_quiche.Base.{
  Bool, false, ℕ, ◌+◌, ◌<◌, ◌≤◌, ◌^◌, ◌≡◌, Option, none, some, ◌==◌, if◌then◌else◌,
}

pub record Os : Type 1 where
  -- the open descriptors of the process, those of its sockets and of tokio with them, and what they
  -- refer to
  pub Table : Type 0
  pub dup : ℕ → Table → ℕ × Table
  -- `close`, which dropping an `EventFd` calls as well
  pub close : ℕ → Table → Table
  -- `eventfd(0, EFD_NONBLOCK)`
  pub eventfd : Table → ℕ × Table
  -- `write` of the 8 bytes of a number
  pub write_u64 : ℕ → ℕ → Table → Table

abbrev pub IsDescriptor : ℕ → Type 0
IsDescriptor fd = fd < 2 ^ 31

pub record OsLaws (os : Os) : Type 0 where
  -- the open file that a descriptor refers to, by a number, and the counter of an eventfd
  pub file : os.Table → ℕ → Option ℕ
  pub counter : os.Table → ℕ → ℕ
  -- A new descriptor was not open, and refers to the same open file; -1 is no descriptor.
  pub dup_fresh :
      (fd : ℕ) (t : os.Table) → IsDescriptor (os.dup fd t).0 → file t (os.dup fd t).0 ≡ none
  pub dup_file :
      (fd : ℕ) (t : os.Table) (g : ℕ)
      → IsDescriptor (os.dup fd t).0
      → file (os.dup fd t).1 g ≡ (if (os.dup fd t).0 == g then file t fd else file t g)
  pub dup_fails :
      (fd : ℕ) (t : os.Table) (g : ℕ) → 2 ^ 31 ≤ (os.dup fd t).0 → file (os.dup fd t).1 g ≡ file t g
  pub dup_counter : (fd : ℕ) (t : os.Table) (f : ℕ) → counter (os.dup fd t).1 f ≡ counter t f
  pub close_file :
      (fd : ℕ) (t : os.Table) (g : ℕ)
      → file (os.close fd t) g ≡ (if fd == g then none else file t g)
  -- as long as another descriptor refers to the file
  pub close_counter :
      (fd : ℕ) (t : os.Table) (g f : ℕ)
      → file (os.close fd t) g ≡ some f
      → counter (os.close fd t) f ≡ counter t f
  -- The counter of a new eventfd is zero, and a write adds to it unless it would not fit.
  pub eventfd_file :
      (t : os.Table)
      → IsDescriptor (os.eventfd t).0
      → (f : ℕ) × (file (os.eventfd t).1 (os.eventfd t).0 ≡ some f)
        × (counter (os.eventfd t).1 f ≡ 0)
  pub write_u64_file : (fd v : ℕ) (t : os.Table) (g : ℕ) → file (os.write_u64 fd v t) g ≡ file t g
  pub write_u64_counter :
      (fd v : ℕ) (t : os.Table) (f : ℕ)
      → file t fd ≡ some f
      → counter t f + v + 1 < 2 ^ 64
      → counter (os.write_u64 fd v t) f ≡ counter t f + v

-- The open files but the `internal` ones: the same descriptors refer to them, and their counters are
-- the same.
pub record Alike {os : Os} (laws : OsLaws os) (internal : ℕ → Bool) (t u : os.Table) : Type 0 where
  pub kept : (g f : ℕ) → internal f ≡ false → laws.file t g ≡ some f → laws.file u g ≡ some f
  pub before : (g f : ℕ) → internal f ≡ false → laws.file u g ≡ some f → laws.file t g ≡ some f
  pub counter :
      (g f : ℕ) → internal f ≡ false → laws.file t g ≡ some f → laws.counter u f ≡ laws.counter t f
