-- ===== src/Examples/System.antt =====
-- The theorems about FileRMA, of include/storage/RandomMemoryAccess.hpp, at concrete inputs.
use direct_libstorage.Base.{
  ℕ, ◌≡◌, refl, ap, ◌++◌, true, false, Option, none, some, List, [], ◌∷◌, ok, arith, replicate,
  length-replicate,
}
use direct_libstorage.Serialize.{Bytes}
use direct_libstorage.RandomMemoryAccess.System.{System, Protection, read_write, read_only}
use direct_libstorage.RandomMemoryAccess.FileRma.{FileRma}
use direct_libstorage.RandomMemoryAccess.FileRma
use direct_libstorage.RandomMemoryAccess.SystemLaws.{
  Resource, file, memory, IsSystem, Opens, open_rma-Opens, new_rma-destroy,
}
use direct_libstorage.RandomMemoryAccess.Persist.{rma_size, rma_s, rma_d, rma_roundtrip}

-- What is open and mapped, the last first.
abbrev Held : Type 0
Held = List Resource

unfoldable release : Held → Held
release [] = []
release (x ∷ s) = s

-- Memory that is only read cannot be mapped.
unfoldable map_memory : Protection → Option ℕ → Held → Option ℕ × Held
map_memory read_write fd s = (some 4096, memory 4096 ∷ s)
map_memory read_only fd s = (none, s)

abbrev system : System Held
system = record {
  open_file = λ filename s. (some 3, file 3 ∷ s);
  mmap = map_memory;
  madvise = λ a s. (true, s);
  munmap = λ a s. release s;
  close_file = λ fd s. release s;
}

maps_lem :
    (prot : Protection) (fd : Option ℕ) (s : Held) (a : ℕ) (s' : Held)
    → map_memory prot fd s ≡ (some a, s')
    → s' ≡ memory a ∷ s
unfolding map_memory
maps_lem read_write fd s a s' q = cc
maps_lem read_only fd s a s' q = absurd cc

map_fails_lem :
    (prot : Protection) (fd : Option ℕ) (s s' : Held) → map_memory prot fd s ≡ (none, s') → s' ≡ s
unfolding map_memory
map_fails_lem read_write fd s s' q = absurd cc
map_fails_lem read_only fd s s' q = cc

system-IsSystem : IsSystem system λ s. s
unfolding release
system-IsSystem = record {
  opens = λ filename s fd s' q. cc;
  open_fails = λ filename s s' q. absurd cc;
  maps = maps_lem;
  map_fails = map_fails_lem;
  advises = λ a s. refl;
  unmaps = λ a s rest q. ap release q;
  closes = λ fd s rest q. ap release q;
}

abbrev closed : FileRma
closed = record {
  filename = [];
  is_open = false;
  fd = none;
  membase = none;
  membase_readonly = none;
}

open_rma-Opens_example :
    Opens (λ s. s) closed (memory 64 ∷ []) (FileRma.open_rma system closed (memory 64 ∷ []))
open_rma-Opens_example = open_rma-Opens system (λ s. s) system-IsSystem closed (memory 64 ∷ [])

new_rma-destroy_example :
    FileRma.destroy system
      (FileRma.new_rma system (47 ∷ []) (memory 64 ∷ [])).0
      (FileRma.new_rma system (47 ∷ []) (memory 64 ∷ [])).1
    ≡ memory 64 ∷ []
new_rma-destroy_example = new_rma-destroy system (λ s. s) system-IsSystem (47 ∷ []) (memory 64 ∷ [])

-- The object after a failed open of the file `/`.
abbrev named : FileRma
named = record closed { filename = 47 ∷ [] }

rma_roundtrip_example :
    (bytes : Bytes) × (rma_s 24 named (replicate (rma_size 24 named) 0) ≡ ok bytes)
    × (rma_d 24 system (bytes ++ 7 ∷ []) [] ≡ ok (FileRma.new_rma system (47 ∷ []) []))
rma_roundtrip_example =
    rma_roundtrip 24 system named (replicate (rma_size 24 named) 0) (7 ∷ []) [] (omega arith, tt)
      (omega arith) (length-replicate (rma_size 24 named) 0)
