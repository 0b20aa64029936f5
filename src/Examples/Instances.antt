-- ===== src/Examples/Instances.antt =====
-- The theorems about ObjectInstanceStorage, of include/storage/ObjectInstanceStorage.hpp, and about
-- ObjectAllocationTracker, of include/storage/FixedSizeObjectStorage.hpp, at concrete inputs.
use direct_libstorage.Base.{
  ℕ, suc, ◌+◌, ◌≡◌, refl, true, false, ◌&&◌, none, inl, [], ◌∷◌, ok, leb, ◌==◌, if◌then◌else◌,
  arith, get_elem?,
}
use direct_libstorage.StdMap.{find}
use direct_libstorage.IntervalMap.{BeforeBegin}
use direct_libstorage.ObjectInstanceStorage.Range.{ObjectInstanceRange}
use direct_libstorage.ObjectInstanceStorage.Range
use direct_libstorage.ObjectInstanceStorage.RangeLaws.{IsFull, object}
use direct_libstorage.ObjectInstanceStorage.RangeDelete.{del_range_lem, add_keeps_old}
use direct_libstorage.ObjectInstanceStorage.{ObjectInstanceStorage, get, del_range}
use direct_libstorage.ObjectInstanceStorage.Laws.{IsWellFormed, object_at, get_lem}
use direct_libstorage.ObjectInstanceStorage.AddRange.{Adds, add_range_lem}
use direct_libstorage.ObjectInstanceStorage.DelRange.{del_range-Ends}
use direct_libstorage.ObjectInstanceStorage.RangeEnds.{Ends}
use direct_libstorage.FixedSizeObjectStorage.{Tracker, for_each}
use direct_libstorage.FixedSizeObjectStorage.Laws.{is_allocated, for_each_lem}

-- Four objects from the index 8 on.
abbrev four : ObjectInstanceRange ℕ
four = record {
  range_start = 8;
  size = 4;
  instance_vector = 70 ∷ 71 ∷ 72 ∷ 73 ∷ [];
  deleted = false ∷ [];
}

abbrev before_end : BeforeBegin (ObjectInstanceRange ℕ)
before_end n = none

-- One object at the index 2, and the four.
abbrev objects : ObjectInstanceStorage ℕ
objects = record { instance_map = (2, 60) ∷ []; instance_range = (8, (11, four)) ∷ [] }

objects-IsWellFormed : IsWellFormed objects
objects-IsWellFormed = record {
  valid = (omega arith, omega arith, omega arith, tt);
  ranges = ((refl, refl, refl), tt);
}

del_range_lem_example :
    (r' : ObjectInstanceRange ℕ) × (Range.del_range (λ n. 0) 1 2 four ≡ ok r')
    × IsFull r'
    × (r'.range_start ≡ 8)
    × (r'.size ≡ 4)
    × ((j : ℕ) → object r' j ≡ (if leb 1 j && leb j 2 then none else object four j))
del_range_lem_example =
    del_range_lem (λ n. 0) 1 2 four refl (omega arith) (omega arith) (omega arith)

add_keeps_old_example :
    (r' : ObjectInstanceRange ℕ) × (Range.add 1 99 four ≡ ok r')
    × (r'.instance_vector ≡ four.instance_vector)
    × ((j : ℕ) → object r' j ≡ (if j == 1 then get_elem? four.instance_vector 1 else object four j))
add_keeps_old_example = add_keeps_old 1 99 four refl (omega arith) (omega arith) (omega arith)

get_lem_example : get before_end 9 objects ≡ ok (object_at 9 objects)
get_lem_example = get_lem before_end 9 objects (λ n. refl) objects-IsWellFormed (omega arith)

add_range_lem_example : Adds before_end (λ s i. s + i) 20 31 objects
unfolding find
add_range_lem_example =
    add_range_lem before_end (λ s i. s + i) 20 31 objects (λ n. refl) objects-IsWellFormed
      (inl (omega arith), tt) (omega arith) (omega arith) (λ k l h. ground arith)

del_range-Ends_example : Ends (del_range before_end (λ n. 0) 1 14 objects)
del_range-Ends_example =
    del_range-Ends before_end (λ n. 0) 1 14 objects (ground arith) (omega arith) (omega arith)

abbrev bits : Tracker
bits = false ∷ true ∷ true ∷ []

for_each_lem_example :
    for_each (λ k m. if k == 2 then suc m else m) bits 5
    ≡ 5 + (if is_allocated 2 bits then 1 else 0)
for_each_lem_example = for_each_lem 2 5 bits
