-- ===== src/Examples/Mapping.antt =====
-- The theorems about the classes of include/storage/SimpleStorage.hpp at concrete inputs.
use direct_libstorage.Base.{
  ℕ, ◌+◌, ◌-◌, ◌<◌, ◌≡◌, refl, true, none, [], ◌∷◌, ◌++◌, ok, success, arith, replicate,
  length-replicate,
}
use direct_libstorage.Base.Words.{word}
use direct_libstorage.StdMap.{deref, find}
use direct_libstorage.Serialize.{Bytes, left_to_right}
use direct_libstorage.IntervalMap.{BeforeBegin}
use direct_libstorage.IntervalMap.Meaning.{Disjoint, value_at}
use direct_libstorage.VirtAddressMapping.{VirtAddressMapping, lookup, del}
use direct_libstorage.VirtAddressMapping.LookupLaws.{Answer, lookup_lem}
use direct_libstorage.VirtAddressMapping.DeleteFront.{
  del_front_moves_rest, one_interval, front_deleted,
}
use direct_libstorage.VirtAddressMapping.Persist.{vam_size, vam_s, vam_d, mapping_roundtrip}

abbrev before_end : BeforeBegin ℕ
before_end n = none

-- The addresses 16 to 31 are at the offset 4; eight bytes at the offset 32 are free.
abbrev mapped : VirtAddressMapping
mapped = record {
  intervals = (16, (31, 4)) ∷ [];
  unmapped = [];
  empty = (8, 32) ∷ [];
  max_addr = 32;
  max_offset = 40;
}

mapped-Disjoint : Disjoint 0 mapped.intervals
mapped-Disjoint = (omega arith, omega arith, omega arith, tt)

mapped_bound : (a b : ℕ) → deref a mapped.intervals ≡ ok (b, 4) → b + 1 < word
unfolding deref find
mapped_bound a b h = ground arith

lookup_lem_example : Answer before_end 20 8 true 4 mapped
unfolding value_at
lookup_lem_example =
    lookup_lem before_end 20 8 4 true mapped (λ n. refl) mapped-Disjoint refl mapped_bound
      (omega arith) (omega arith) (ground arith) (omega arith)

mapping_roundtrip_example :
    (bytes : Bytes) × (vam_s mapped (replicate (vam_size mapped) 0) ≡ ok bytes)
    × (vam_d left_to_right (bytes ++ 7 ∷ []) ≡ ok mapped)
mapping_roundtrip_example =
    mapping_roundtrip mapped (replicate (vam_size mapped) 0) (7 ∷ [])
      (
        (((omega arith, (omega arith, omega arith)), tt), (omega arith, tt), omega arith),
        (tt, tt, omega arith),
        (((omega arith, omega arith), tt), (omega arith, tt), omega arith),
        (omega arith, omega arith),
      )
      (length-replicate (vam_size mapped) 0)

del_front_moves_rest_example :
    (lookup before_end 20 1 true (one_interval before_end 16 31 4 mapped)
      ≡ ok ((4 + 4, 31 - 19), one_interval before_end 16 31 4 mapped))
    × (del before_end 16 4 (one_interval before_end 16 31 4 mapped)
        ≡ ok (front_deleted before_end 16 19 31 4 mapped, success))
    × (lookup before_end 20 1 true (front_deleted before_end 16 19 31 4 mapped)
        ≡ ok ((4, 31 - 19), front_deleted before_end 16 19 31 4 mapped))
del_front_moves_rest_example =
    del_front_moves_rest before_end 16 19 31 4 mapped (λ n. refl) (omega arith) (omega arith)
      (omega arith) (omega arith) (ground arith)
