-- ===== src/RandomMemoryAccess.antt =====
-- FileRMA and MemoryRMA of include/storage/RandomMemoryAccess.hpp: memory that the operating system has
-- mapped. The bytes of the mapping are a list; an access beyond them is undefined in C++, and throws
-- here. `opened` is the object after a successful open; the calls of the operating system are those of
-- the children FileRma and MemoryRma.
pub mod Laws
pub mod System
pub mod FileRma
pub mod MemoryRma
pub mod SystemLaws
pub mod Persist
use direct_libstorage.Base.{
  ℕ, zero, suc, ◌+◌, ◌≤◌, Bool, true, false, not, Option, none, some, [], ◌∷◌, ◌++◌, Outcome, ok,
  throw, segmentation_fault, ◌>>=◌, ◌>>◌, assert_on, leb, ltb, if◌then◌else◌, length, take, drop,
}
use direct_libstorage.Serialize.{Bytes}

pub record RandomMemoryAccess : Type 0 where
  pub is_open : Bool
  pub membase : Bytes

abbrev pub opened : Bytes → RandomMemoryAccess
opened mapped = record { is_open = true; membase = mapped }

unfoldable pub close : RandomMemoryAccess → RandomMemoryAccess
close r = if r.is_open then record r { is_open = false } else r

-- The bytes of the mapping after memcpy(PTR_OFFSET(membase, offset), bytes, length bytes).
unfoldable pub overwrite : ℕ → Bytes → Bytes → Bytes
overwrite offset bytes mem = take offset mem ++ (bytes ++ drop (offset + length bytes) mem)

unfoldable pub write : ℕ → Bytes → RandomMemoryAccess → Outcome RandomMemoryAccess
unfolding overwrite
write offset buffer r = do
  assert_on (not r.is_open)
  (if leb (offset + length buffer) (length r.membase)
      then ok (record r { membase = overwrite offset buffer r.membase })
      else throw segmentation_fault)

-- The bytes that the buffer has after the call; `allocated` is its size.
unfoldable pub read : ℕ → ℕ → ℕ → RandomMemoryAccess → Outcome Bytes
read offset size allocated r = do
  assert_on (not r.is_open)
  assert_on (ltb allocated size)
  (if leb (offset + size) (length r.membase)
      then ok (take size (drop offset r.membase))
      else throw segmentation_fault)

-- readb: the bytes of the view.
unfoldable pub readb : ℕ → ℕ → RandomMemoryAccess → Outcome Bytes
readb offset size r = do
  assert_on (not r.is_open)
  (if leb (offset + size) (length r.membase)
      then ok (take size (drop offset r.membase))
      else throw segmentation_fault)

-- writeb, and the change that the caller makes to the bytes of the view.
unfoldable pub fill :
    ℕ → ℕ → (Bytes → Outcome Bytes) → RandomMemoryAccess → Outcome RandomMemoryAccess
unfolding readb overwrite
fill offset size f r = do
  old ← readb offset size r
  new ← f old
  ok (record r { membase = overwrite offset new r.membase })
