-- ===== src/RandomMemoryAccess/FileRma.antt =====
-- The constructor, the destructor, open and close of FileRMA, include/storage/RandomMemoryAccess.hpp.
-- The calls of the operating system are an argument.
use direct_libstorage.Base.{
  ℕ, Bool, true, false, Option, none, some, Result, success, failure, if◌then◌else◌, List,
}
use direct_libstorage.RandomMemoryAccess.System.{
  System, read_write, read_only, release_memory, release_file,
}

-- FileRMA; `none` is what open leaves in a member after a failed call.
pub record FileRma : Type 0 where
  pub filename : List ℕ
  pub is_open : Bool
  pub fd : Option ℕ
  pub membase : Option ℕ
  pub membase_readonly : Option ℕ

module _ {S : Type 0} (system : System S) where
  -- What follows the second mmap.
  unfoldable pub open_readonly : FileRma → ℕ → ℕ → Option ℕ × S → (Result × FileRma) × S
  open_readonly r fd a (none, s) = (
    (failure, record r { fd = some fd; membase = some a; membase_readonly = none }),
    system.close_file fd (system.munmap a s),
  )
  open_readonly r fd a (some b, s) =
      let (advise, s') = system.madvise b s in
      (
        (
          success,
          record r { is_open = true; fd = some fd; membase = some a; membase_readonly = some b },
        ),
        s',
      )

  -- What follows the first mmap.
  unfoldable pub open_memory : FileRma → ℕ → Option ℕ × S → (Result × FileRma) × S
  unfolding open_readonly
  open_memory r fd (none, s) =
      ((failure, record r { fd = some fd; membase = none }), system.close_file fd s)
  open_memory r fd (some a, s) =
      let (advise, s') = system.madvise a s in
      open_readonly r fd a (system.mmap read_only (some fd) s')

  -- What follows ::open.
  unfoldable pub open_opened : FileRma → Option ℕ × S → (Result × FileRma) × S
  unfolding open_memory
  open_opened r (none, s) = ((failure, record r { fd = none }), s)
  open_opened r (some fd, s) = open_memory r fd (system.mmap read_write (some fd) s)

  unfoldable pub open_rma : FileRma → S → (Result × FileRma) × S
  unfolding open_opened
  open_rma r s = open_opened r (system.open_file r.filename s)

  unfoldable pub close_rma : FileRma → S → (Result × FileRma) × S
  unfolding release_memory release_file
  close_rma r s =
      if r.is_open
      then (
        (success, record r { is_open = false }),
        release_file system r.fd
            (release_memory system r.membase (release_memory system r.membase_readonly s)),
      )
      else ((success, r), s)

  -- FileRMA(filename)
  unfoldable pub new_rma : List ℕ → S → FileRma × S
  unfolding open_rma
  new_rma filename s =
      let r : FileRma = record {
        filename = filename;
        is_open = false;
        fd = none;
        membase = none;
        membase_readonly = none;
      } in
      let ((res, r'), s') = open_rma r s in (r', s')

  -- ~FileRMA()
  unfoldable pub destroy : FileRma → S → S
  unfolding close_rma
  destroy r s = if r.is_open then (close_rma r s).1 else s
