-- ===== src/RandomMemoryAccess/MemoryRma.antt =====
-- The destructor, open and close of MemoryRMA, include/storage/RandomMemoryAccess.hpp. The calls of the
-- operating system are an argument.
use direct_libstorage.Base.{
  ℕ, Bool, true, false, Option, none, some, Result, success, failure, if◌then◌else◌,
}
use direct_libstorage.RandomMemoryAccess.System.{System, read_write, release_memory}

-- MemoryRMA
pub record MemoryRma : Type 0 where
  pub is_open : Bool
  pub membase : Option ℕ

module _ {S : Type 0} (system : System S) where
  -- What follows mmap.
  unfoldable pub open_mapped : MemoryRma → Option ℕ × S → (Result × MemoryRma) × S
  open_mapped r (none, s) = ((failure, record r { membase = none }), s)
  open_mapped r (some a, s) =
      let (advise, s') = system.madvise a s in
      ((success, record { is_open = true; membase = some a }), s')

  unfoldable pub open_rma : MemoryRma → S → (Result × MemoryRma) × S
  unfolding open_mapped
  open_rma r s = open_mapped r (system.mmap read_write none s)

  unfoldable pub close_rma : MemoryRma → S → (Result × MemoryRma) × S
  unfolding release_memory
  close_rma r s =
      if r.is_open
      then ((success, record r { is_open = false }), release_memory system r.membase s)
      else ((success, r), s)

  -- MemoryRMA()
  unfoldable pub new_rma : S → MemoryRma × S
  unfolding open_rma
  new_rma s =
      let ((res, r), s') = open_rma (record { is_open = false; membase = none }) s in (r, s')

  -- ~MemoryRMA()
  unfoldable pub destroy : MemoryRma → S → S
  unfolding close_rma
  destroy r s = if r.is_open then (close_rma r s).1 else s
