-- ===== src/RandomMemoryAccess/SystemLaws.antt =====
-- What FileRMA and MemoryRMA, include/storage/RandomMemoryAccess.hpp, hold of the operating system.
use direct_libstorage.Base.{
  ℕ, ◌≡◌, refl, ap, ◌∙◌, true, false, Option, none, some, Result, success, failure, List, ◌∷◌,
}
use direct_libstorage.RandomMemoryAccess.System.{
  System, Protection, read_write, read_only, release_memory, release_file,
}
use direct_libstorage.RandomMemoryAccess.FileRma.{FileRma, open_readonly, open_memory, open_opened}
use direct_libstorage.RandomMemoryAccess.FileRma
use direct_libstorage.RandomMemoryAccess.MemoryRma.{MemoryRma, open_mapped}
use direct_libstorage.RandomMemoryAccess.MemoryRma

-- An open file, or memory that is mapped.
pub data Resource : Type 0 where
  file : ℕ → Resource
  memory : ℕ → Resource

-- The documented effect of the calls on what the process holds, the last first: ::open and mmap add
-- what they answer, or nothing if they fail, ::close and munmap take away what they are given, and
-- madvise changes nothing.
pub record IsSystem {S : Type 0} (system : System S) (held : S → List Resource) : Type 0 where
  pub opens :
      (filename : List ℕ) (s : S) (fd : ℕ) (s' : S)
      → system.open_file filename s ≡ (some fd, s')
      → held s' ≡ file fd ∷ held s
  pub open_fails :
      (filename : List ℕ) (s s' : S) → system.open_file filename s ≡ (none, s') → held s' ≡ held s
  pub maps :
      (prot : Protection) (fd : Option ℕ) (s : S) (a : ℕ) (s' : S)
      → system.mmap prot fd s ≡ (some a, s')
      → held s' ≡ memory a ∷ held s
  pub map_fails :
      (prot : Protection) (fd : Option ℕ) (s s' : S)
      → system.mmap prot fd s ≡ (none, s')
      → held s' ≡ held s
  pub advises : (a : ℕ) (s : S) → held (system.madvise a s).1 ≡ held s
  pub unmaps :
      (a : ℕ) (s : S) (rest : List Resource)
      → held s ≡ memory a ∷ rest
      → held (system.munmap a s) ≡ rest
  pub closes :
      (fd : ℕ) (s : S) (rest : List Resource)
      → held s ≡ file fd ∷ rest
      → held (system.close_file fd s) ≡ rest

-- What open of FileRMA leaves: after a failure nothing more than before, and after a success the file
-- and both mappings, which the object knows.
pub data Opens {S : Type 0} (held : S → List Resource) (r : FileRma) (before : List Resource)
    : (Result × FileRma) × S → Type 0 where
  fails :
      (r' : FileRma) (s : S)
      → r'.is_open ≡ r.is_open
      → held s ≡ before
      → Opens held r before ((failure, r'), s)
  opened :
      (fd a b : ℕ) (s : S)
      → held s ≡ memory b ∷ memory a ∷ file fd ∷ before
      → Opens held r before (
        (
          success,
          record r { is_open = true; fd = some fd; membase = some a; membase_readonly = some b },
        ),
        s,
      )

module _ {S : Type 0} (system : System S) (held : S → List Resource)
    (law : IsSystem system held) where
  Opens-readonly :
      (r : FileRma) (fd a : ℕ) (s : S) (o : Option ℕ × S) (before : List Resource)
      → system.mmap read_only (some fd) s ≡ o
      → held s ≡ memory a ∷ file fd ∷ before
      → Opens held r before (open_readonly system r fd a o)
  unfolding open_readonly
  Opens-readonly r fd a s (none, s') before q h = fails _ _ refl (
      law.closes fd _ before
        (law.unmaps a s' (file fd ∷ before) (law.map_fails read_only (some fd) s s' q ∙ h)))
  Opens-readonly r fd a s (some b, s') before q h =
      opened fd a b _
        (law.advises b s' ∙ law.maps read_only (some fd) s b s' q ∙ ap (◌∷◌ (memory b)) h)

  Opens-memory :
      (r : FileRma) (fd : ℕ) (s : S) (o : Option ℕ × S) (before : List Resource)
      → system.mmap read_write (some fd) s ≡ o
      → held s ≡ file fd ∷ before
      → Opens held r before (open_memory system r fd o)
  unfolding open_memory
  Opens-memory r fd s (none, s') before q h =
      fails _ _ refl (law.closes fd s' before (law.map_fails read_write (some fd) s s' q ∙ h))
  Opens-memory r fd s (some a, s') before q h =
      Opens-readonly r fd a (system.madvise a s').1 _ before refl
        (law.advises a s' ∙ law.maps read_write (some fd) s a s' q ∙ ap (◌∷◌ (memory a)) h)

  Opens-opened :
      (r : FileRma) (s : S) (o : Option ℕ × S)
      → system.open_file r.filename s ≡ o
      → Opens held r (held s) (open_opened system r o)
  unfolding open_opened
  Opens-opened r s (none, s') q = fails _ _ refl (law.open_fails r.filename s s' q)
  Opens-opened r s (some fd, s') q =
      Opens-memory r fd s' _ (held s) refl (law.opens r.filename s fd s' q)

  -- With the documented effects of the system calls, open of FileRMA fails and leaves nothing open or
  -- mapped that was not before, or succeeds and holds the file and its two mappings.
  pub open_rma-Opens : (r : FileRma) (s : S) → Opens held r (held s) (FileRma.open_rma system r s)
  unfolding FileRma.open_rma
  open_rma-Opens r s = Opens-opened r s _ refl

  destroy-Opens :
      (r : FileRma) (before : List Resource) (o : (Result × FileRma) × S)
      → Opens held r before o
      → r.is_open ≡ false
      → held (FileRma.destroy system o.0.1 o.1) ≡ before
  unfolding FileRma.destroy FileRma.close_rma release_memory release_file
  destroy-Opens r before o (fails r' s e h) closed = rw (e, closed) h
  destroy-Opens r before o (opened fd a b s h) closed =
      law.closes fd _ before
        (law.unmaps a _ (file fd ∷ before) (law.unmaps b s (memory a ∷ file fd ∷ before) h))

  -- With the documented effects of the system calls: whichever of them fail, a FileRMA that is made
  -- and then destroyed leaves open and mapped exactly what was before.
  pub new_rma-destroy :
      (filename : List ℕ) (s : S)
      → held (
          FileRma.destroy system
            (FileRma.new_rma system filename s).0
            (FileRma.new_rma system filename s).1)
        ≡ held s
  unfolding FileRma.new_rma
  new_rma-destroy filename s =
      let r : FileRma = record {
        filename = filename;
        is_open = false;
        fd = none;
        membase = none;
        membase_readonly = none;
      } in
      destroy-Opens r (held s) _ (open_rma-Opens r s) refl

  destroy-mapped :
      (s : S) (o : Option ℕ × S)
      → system.mmap read_write none s ≡ o
      → held (
          MemoryRma.destroy system
            (open_mapped system (record { is_open = false; membase = none }) o).0.1
            (open_mapped system (record { is_open = false; membase = none }) o).1)
        ≡ held s
  unfolding open_mapped MemoryRma.destroy MemoryRma.close_rma release_memory
  destroy-mapped s (none, s') q = law.map_fails read_write none s s' q
  destroy-mapped s (some a, s') q =
      law.unmaps a _ (held s) (law.advises a s' ∙ law.maps read_write none s a s' q)

  -- With the documented effects of the system calls: whether mmap fails or not, a MemoryRMA that is
  -- made and then destroyed leaves mapped exactly what was before.
  new_memory_rma-destroy :
      (s : S)
      → held
          (MemoryRma.destroy system (MemoryRma.new_rma system s).0 (MemoryRma.new_rma system s).1)
        ≡ held s
  unfolding MemoryRma.new_rma MemoryRma.open_rma
  new_memory_rma-destroy s = destroy-mapped s _ refl
