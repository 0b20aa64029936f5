-- ===== src/FixedSizeObjectStorage.antt =====
-- ObjectAddressStorage and ObjectAllocationTracker of include/storage/FixedSizeObjectStorage.hpp. The
-- storage is an argument, as in Store. get of ObjectAddressStorage is not modelled: it shifts an int by
-- a bucket number that is beyond its width, which C++ leaves undefined.
pub mod Laws
use direct_libstorage.Base.{
  ℕ, zero, suc, ◌+◌, ◌-◌, ◌*◌, ◌%◌, ◌^◌, Bool, true, false, Option, none, some, List, [], ◌∷◌, ◌++◌,
  Outcome, ok, throw, segmentation_fault, ◌>>=◌, ◌>>◌, assert_on, ltb, leb, if◌then◌else◌, length,
  replicate, get_elem?, set_elem,
}
use direct_libstorage.StorageUtils.Address.{StorageAddress}
use direct_libstorage.Store.{StorageOps}

-- ObjectAllocationTracker: `allocated`.
abbrev pub Tracker : Type 0
Tracker = List Bool

-- allocated.resize(index + 1), if it is shorter.
unfoldable pub resized : ℕ → Tracker → Tracker
resized index bits =
    if leb (length bits) index then bits ++ replicate (suc index - length bits) false else bits

unfoldable pub allocate : ℕ → Tracker → Tracker
unfolding resized
allocate index bits = set_elem (resized index bits) index true

unfoldable pub deallocate : ℕ → Tracker → Outcome Tracker
deallocate index bits = do assert_on (leb (length bits) index); ok (set_elem bits index false)

-- The loop of for_each from the index i on; `f` changes the state that its closure refers to.
unfoldable pub each_from {κ} : {S : Type κ} → (ℕ → S → S) → ℕ → Tracker → S → S
each_from f i [] s = s
each_from f i (bit ∷ bits) s = each_from f (suc i) bits (if bit then f i s else s)

unfoldable pub for_each {κ} : {S : Type κ} → (ℕ → S → S) → Tracker → S → S
unfolding each_from
for_each f bits s = each_from f 0 bits s

abbrev pub clear_tracker : Tracker → Tracker
clear_tracker bits = []

-- The std::vector `buckets` of an ObjectAddressStorage, element by element.
abbrev pub Buckets : Type 0
Buckets = List StorageAddress

module _ {S : Type 0} (ops : StorageOps S) where
  -- clear
  unfoldable pub clear : Buckets → S → Outcome (Buckets × S)
  clear [] storage = ok ([], storage)
  clear (base ∷ buckets) storage = do rest ← ops.erase base storage; clear buckets rest
