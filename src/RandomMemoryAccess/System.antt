-- ===== src/RandomMemoryAccess/System.antt =====
-- The calls of the operating system that include/storage/RandomMemoryAccess.hpp uses: a record of
-- functions on a state of their own, which is an argument of the classes.
use direct_libstorage.Base.{ℕ, Bool, Option, none, some, List}

-- PROT_READ | PROT_WRITE, and PROT_READ.
pub data Protection : Type 0 where
  read_write : Protection
  read_only : Protection

-- ::open, mmap, madvise, munmap and ::close. An answer of `none` is a negative file descriptor or
-- MAP_FAILED; mmap of no file is mmap with MAP_ANONYMOUS; madvise answers whether it failed.
pub record System (S : Type 0) : Type 0 where
  pub open_file : List ℕ → S → Option ℕ × S
  pub mmap : Protection → Option ℕ → S → Option ℕ × S
  pub madvise : ℕ → S → Bool × S
  pub munmap : ℕ → S → S
  pub close_file : ℕ → S → S

module _ {S : Type 0} (system : System S) where
  -- munmap and ::close of what a member holds.
  unfoldable pub release_memory : Option ℕ → S → S
  release_memory none s = s
  release_memory (some a) s = system.munmap a s

  unfoldable pub release_file : Option ℕ → S → S
  release_file none s = s
  release_file (some fd) s = system.close_file fd s
