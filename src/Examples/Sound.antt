-- ===== src/Examples/Sound.antt =====
-- The theorems about the bytes that the virtual addresses of a SimpleStorage have, of
-- include/storage/SimpleStorage.hpp, at concrete inputs.
use direct_libstorage.Base.{
  ℕ, ◌+◌, ◌-◌, ◌<◌, ◌≡◌, refl, false, ◌&&◌, none, some, inl, inr, [], ◌∷◌, ok, success, leb, ltb,
  if◌then◌else◌, arith, length, replicate,
}
use direct_libstorage.Base.Words.{add64, sub64}
use direct_libstorage.StdMap.{deref, find, upper_bound, prev, next, last, last_below, begin}
use direct_libstorage.StdMap
use direct_libstorage.Serialize.{Bytes}
use direct_libstorage.IntervalMap.{
  Intervals, BeforeBegin, find_interval, find_it, step_back, has_range,
}
use direct_libstorage.IntervalMap
use direct_libstorage.IntervalMap.Insert.{insert_impl, extend_left, extend_right, finish}
use direct_libstorage.IntervalMap.Meaning.{Disjoint, Clear, value_at}
use direct_libstorage.IntervalMap.Update.{insert}
use direct_libstorage.StorageUtils.Address.{StorageAddress}
use direct_libstorage.StorageHelpers.Extents.{holds, covers}
use direct_libstorage.StorageHelpers.{splice, candidate, element}
use direct_libstorage.RandomMemoryAccess.{opened}
use direct_libstorage.RandomMemoryAccess.Laws.{byte_at}
use direct_libstorage.VirtAddressMapping.{
  VirtAddressMapping, unmapped_offset, new_mapping, alloc, alloc_offset, end_offset, lookup, del,
}
use direct_libstorage.VirtAddressMapping.AllocLaws.{free}
use direct_libstorage.VirtAddressMapping.Used.{piece, used}
use direct_libstorage.VirtAddressMapping.Sound.{IsSound}
use direct_libstorage.VirtAddressMapping.AllocSound.{alloc-IsSound}
use direct_libstorage.VirtAddressMapping.AllocDelete.{alloc-del}
use direct_libstorage.VirtAddressMapping.DeleteSound.{Deletes, del-IsSound}
use direct_libstorage.VirtAddressMapping.LookupSound.{lookup-IsSound}
use direct_libstorage.VirtAddressMapping.Reachable.{
  byte_of, Reachable, start, after, allocates, Reachable-IsSound, Reachable-byte_of,
}
use direct_libstorage.SimpleStorage.{SimpleStorage, write, readb}
use direct_libstorage.SimpleStorage.Laws.{IsMapped}
use direct_libstorage.SimpleStorage.Memory.{content, write-content, readb-content}
use direct_libstorage.SimpleStorage.FirstWrite.{first_write}

abbrev before_end : BeforeBegin ℕ
before_end n = none

-- A new object after alloc(16, 8).
abbrev allocated_once : VirtAddressMapping
allocated_once = record {
  intervals = (16, (23, 0)) ∷ [];
  unmapped = [];
  empty = [];
  max_addr = 24;
  max_offset = 8;
}

alloc_once : alloc before_end 16 8 new_mapping ≡ ok (0, allocated_once)
unfolding alloc alloc_offset end_offset splice candidate element add64 sub64 insert insert_impl
    has_range extend_left extend_right finish upper_bound prev begin IntervalMap.emplace
    StdMap.emplace
alloc_once = refl

allocated_once-Reachable : Reachable before_end allocated_once
allocated_once-Reachable =
    after new_mapping allocated_once start
      (allocates 16 8 0 allocated_once tt (omega arith) (omega arith) (omega arith) alloc_once)

Reachable-IsSound_example : IsSound allocated_once
Reachable-IsSound_example =
    Reachable-IsSound before_end allocated_once (λ n. refl) allocated_once-Reachable

Reachable-byte_of_example :
    (free 3 allocated_once ≡ 0) × (byte_of 20 allocated_once.intervals ≡ some 3 → ◌≡◌ {A = ℕ} 19 20)
unfolding byte_of
Reachable-byte_of_example =
    Reachable-byte_of before_end allocated_once 19 20 3 (λ n. refl) allocated_once-Reachable refl

-- The addresses 0 to 3 have the first bytes of the file, 16 to 31 the next ones, 48 to 55 none.
abbrev mapped : VirtAddressMapping
mapped = record {
  intervals = (0, (3, 0)) ∷ (16, (31, 4)) ∷ (48, (55, unmapped_offset)) ∷ [];
  unmapped = [];
  empty = [];
  max_addr = 32;
  max_offset = 20;
}

mapped-Disjoint : Disjoint 0 mapped.intervals
mapped-Disjoint = (
  omega arith,
  omega arith,
  omega arith,
  (omega arith, omega arith, omega arith, (omega arith, omega arith, omega arith, tt)),
)

mapped-IsSound : IsSound mapped
unfolding covers used piece
mapped-IsSound = record {
  valid = mapped-Disjoint;
  sorted = tt;
  in_space = tt;
  room = omega arith;
  once = λ x. ground arith;
}

-- No interval meets 64 to 71.
mapped-Clear : Clear 64 71 mapped.intervals
mapped-Clear = (inl (omega arith), (inl (omega arith), (inl (omega arith), tt)))

alloc-IsSound_example :
    (offset : ℕ) × (vam' : VirtAddressMapping) × (alloc before_end 64 8 mapped ≡ ok (offset, vam'))
    × IsSound vam'
    × ((x : ℕ) → used x vam'.intervals ≡ holds x offset 8 + used x mapped.intervals)
    × ((k : ℕ)
        → value_at k vam'.intervals
          ≡ (if leb 64 k && leb k 71 then some offset else value_at k mapped.intervals))
alloc-IsSound_example =
    alloc-IsSound before_end 64 8 mapped (λ n. refl) mapped-IsSound mapped-Clear (omega arith)
      (omega arith) (omega arith)

alloc-del_example :
    (offset : ℕ) × (vam' : VirtAddressMapping) × (vam'' : VirtAddressMapping) × (alloc before_end 64
        8 mapped
      ≡ ok (offset, vam'))
    × (del before_end 64 8 vam' ≡ ok (vam'', success))
    × IsSound vam''
    × ((x : ℕ) → free x vam'' ≡ free x mapped)
    × ((k : ℕ)
        → value_at k vam''.intervals
          ≡ (if leb 64 k && leb k 71 then some unmapped_offset else value_at k mapped.intervals))
alloc-del_example =
    alloc-del before_end 64 8 mapped (λ n. refl) mapped-IsSound mapped-Clear (omega arith)
      (omega arith) (omega arith)

del-IsSound_example : Deletes 16 31 mapped (del before_end 16 16 mapped)
del-IsSound_example =
    del-IsSound before_end 16 16 mapped (λ n. refl) mapped-IsSound
      (inr (inl (omega arith)), (inr (inr (inr (omega arith, omega arith))), (inl refl, tt)))
      (omega arith) (omega arith)

lookup-IsSound_example :
    (offset : ℕ) × (vam' : VirtAddressMapping) × (lookup before_end 48 4 false mapped
      ≡ ok ((add64 offset 0, 8), vam'))
    × IsSound vam'
    × ((x : ℕ) → used x vam'.intervals ≡ holds x offset 4 + used x mapped.intervals)
    × ((k : ℕ)
        → value_at k vam'.intervals
          ≡ (if leb 48 k && leb k 51 then some offset else value_at k mapped.intervals))
lookup-IsSound_example =
    lookup-IsSound before_end 48 48 55 4 ((0, (3, 0)) ∷ (16, (31, 4)) ∷ []) [] mapped (λ n. refl)
      mapped-IsSound refl (omega arith) (omega arith) (omega arith) (omega arith) (omega arith)

abbrev storage : SimpleStorage
storage = record {
  rma = opened (replicate 48 0);
  metadata = record {
    magic_number = 0;
    ra = 0;
    va_offset = 0;
    va_size = 0;
    va_addr = 0;
    static_addr = record { addr = 0; size = 0 };
  };
  mapping = mapped;
}

abbrev two : StorageAddress
two = record { addr = 18; size = 2 }

two-IsMapped : IsMapped before_end 16 31 4 two storage
unfolding find_interval find_it step_back upper_bound prev last_below last deref find
two-IsMapped = record {
  found = refl;
  held = refl;
  low = omega arith;
  high = omega arith;
  bounded = omega arith;
  nonempty = omega arith;
  behind = omega arith;
  below = omega arith;
  opened = refl;
  backed = omega arith;
}

write-content_example :
    (st' : SimpleStorage) × (write before_end two (7 ∷ 9 ∷ []) storage ≡ ok st')
    × ((k : ℕ)
        → content k st'
          ≡ (if leb 18 k && ltb k 20 then byte_at (k - 18) (7 ∷ 9 ∷ []) else content k storage))
write-content_example =
    write-content before_end 16 31 4 two (7 ∷ 9 ∷ []) storage mapped-IsSound two-IsMapped refl

readb-content_example :
    (bytes : Bytes) × (readb before_end two storage ≡ ok (bytes, storage))
    × (length bytes ≡ 2)
    × ((i : ℕ) → i < 2 → byte_at i bytes ≡ content (18 + i) storage)
readb-content_example = readb-content before_end 16 31 4 two storage mapped-Disjoint two-IsMapped

abbrev unwritten : StorageAddress
unwritten = record { addr = 48; size = 8 }

abbrev eight : Bytes
eight = 1 ∷ 2 ∷ 3 ∷ 4 ∷ 5 ∷ 6 ∷ 7 ∷ 8 ∷ []

first_write_example :
    (st' : SimpleStorage) × (write before_end unwritten eight storage ≡ ok st')
    × (readb before_end unwritten st' ≡ ok (eight, st'))
    × IsSound st'.mapping
unfolding covers
first_write_example =
    first_write before_end 48 55 unwritten ((0, (3, 0)) ∷ (16, (31, 4)) ∷ []) [] eight storage
      mapped-IsSound refl refl (ground arith) (omega arith) (omega arith) (ground arith)
      (omega arith) refl (omega arith) refl
