-- ===== src/Examples/Intervals.antt =====
-- The theorems about include/storage/IntervalMap.hpp and StorageHelpers.hpp at concrete inputs.
use direct_libstorage.Base.{
  ℕ, ◌≡◌, refl, ◌&&◌, none, some, [], ◌∷◌, ok, success, leb, if◌then◌else◌, arith, nat_eq,
  nat_lawful,
}
use direct_libstorage.IntervalMap.{Intervals, BeforeBegin, find_interval, has_range}
use direct_libstorage.IntervalMap.Delete.{del}
use direct_libstorage.IntervalMap.Update.{set, insert}
use direct_libstorage.IntervalMap.Meaning.{Disjoint, value_at, cut, place}
use direct_libstorage.IntervalMap.SetLaws.{set_lem, del_lem, set-place}
use direct_libstorage.IntervalMap.DeleteLaws.{del-cut}
use direct_libstorage.IntervalMap.LookupLaws.{
  Finds, Meets, find_interval-Finds, has_range-Meets, insert-eq-set,
}
use direct_libstorage.StorageHelpers.{MultiMap, get}
use direct_libstorage.StorageHelpers.Order.{IsSorted, Gets, get-Gets}
use direct_libstorage.StorageHelpers.Extents.{Splices, splice_offset, splice-Splices}

abbrev before_end : BeforeBegin ℕ
before_end n = none

abbrev three : Intervals ℕ
three = (10, (19, 1)) ∷ (20, (29, 2)) ∷ (40, (49, 1)) ∷ []

three-Disjoint : Disjoint 0 three
three-Disjoint = (
  omega arith,
  omega arith,
  omega arith,
  (omega arith, omega arith, omega arith, (omega arith, omega arith, omega arith, tt)),
)

set_lem_example :
    (m' : Intervals ℕ) × (set before_end 15 44 1 three ≡ ok (m', success))
    × Disjoint 0 m'
    × ((k : ℕ) → value_at k m' ≡ (if leb 15 k && leb k 44 then some 1 else value_at k three))
set_lem_example =
    set_lem before_end 15 44 1 three (λ n. refl) three-Disjoint (omega arith) (omega arith)

del_lem_example :
    (m' : Intervals ℕ) × (del before_end 15 44 three ≡ ok (m', success))
    × Disjoint 0 m'
    × ((k : ℕ) → value_at k m' ≡ (if leb 15 k && leb k 44 then none else value_at k three))
del_lem_example = del_lem before_end 15 44 three (λ n. refl) three-Disjoint (omega arith)

set-place_example : set before_end 30 39 1 three ≡ ok (place 30 39 1 (cut 30 39 three), success)
set-place_example =
    set-place before_end 30 39 1 three (λ n. refl) three-Disjoint (omega arith) (omega arith)

del-cut_example : del before_end 25 60 three ≡ ok (cut 25 60 three, success)
del-cut_example = del-cut before_end 0 25 60 three (λ n. refl) three-Disjoint (omega arith)

find_interval-Finds_example : Finds 45 three (find_interval before_end 45 three)
find_interval-Finds_example = find_interval-Finds before_end 45 three (λ n. refl) three-Disjoint

has_range-Meets_example : Meets 28 35 three (has_range before_end 28 35 three)
has_range-Meets_example =
    has_range-Meets before_end 28 35 three (λ n. refl) three-Disjoint (omega arith)

insert-eq-set_example : insert before_end 30 39 1 three ≡ set before_end 30 39 1 three
insert-eq-set_example =
    insert-eq-set before_end 30 39 1 three (λ n. refl) three-Disjoint (omega arith)

abbrev extents : MultiMap ℕ
extents = (16, 100) ∷ (64, 200) ∷ (64, 400) ∷ []

extents-IsSorted : IsSorted 0 extents
extents-IsSorted = (omega arith, (omega arith, (omega arith, tt)))

get-Gets_example : Gets 0 20 100 extents (get 0 20 100 extents)
get-Gets_example = get-Gets 0 20 100 extents extents-IsSorted

splice-Splices_example : Splices 20 extents (splice_offset 20 extents)
splice-Splices_example =
    splice-Splices 20 extents extents-IsSorted (omega arith, (omega arith, (omega arith, tt)))
