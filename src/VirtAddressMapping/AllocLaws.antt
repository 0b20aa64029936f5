-- ===== src/VirtAddressMapping/AllocLaws.antt =====
-- alloc_offset and alloc of VirtAddressMapping, in include/storage/SimpleStorage.hpp.
use direct_libstorage.Base.{
  ℕ, ◌+◌, ◌-◌, ◌<◌, ◌≡◌, refl, Bool, ◌&&◌, none, some, ok, leb, if◌then◌else◌, arith, nat_eq,
  nat_lawful,
}
use direct_libstorage.Base.Words.{word, add64_lem, sub64_lem}
use direct_libstorage.IntervalMap.{Intervals, BeforeBegin}
use direct_libstorage.IntervalMap.Meaning.{Disjoint, value_at}
use direct_libstorage.IntervalMap.SetLaws.{set_lem}
use direct_libstorage.IntervalMap.LookupLaws.{insert-eq-set}
use direct_libstorage.StorageHelpers.{MultiMap}
use direct_libstorage.StorageHelpers.Order.{IsSorted}
use direct_libstorage.StorageHelpers.Extents.{
  splice_offset, holds, covers, InSpace, Splices, misses, takes, splice-Splices,
}
use direct_libstorage.VirtAddressMapping.{VirtAddressMapping, alloc_offset, alloc}
use direct_libstorage.VirtAddressMapping.LookupLaws.{end_offset_lem}

-- 1 if the byte x of the file has not been given out at the end of the file yet.
abbrev pub unused : ℕ → ℕ → ℕ
unused x max_offset = if leb max_offset x then 1 else 0

-- How often the byte x of the file is free: in the set of free extents, or behind the end.
abbrev pub free : ℕ → VirtAddressMapping → ℕ
free x vam = covers x vam.empty + unused x vam.max_offset

alloc_offset-Splices :
    (addr size : ℕ) (vam : VirtAddressMapping) {r : (Bool × ℕ) × MultiMap ℕ}
    → splice_offset size vam.empty ≡ r
    → Splices size vam.empty r
    → vam.max_offset + size < word
    → (x : ℕ)
    → free x (alloc_offset addr size vam).1 + holds x (alloc_offset addr size vam).0 size
      ≡ free x vam
unfolding alloc_offset
alloc_offset-Splices addr size vam q (misses s) w x =
    rw (q, add64_lem vam.max_offset size w, sub64_lem (vam.max_offset + size) size (omega arith) w)
      (ground arith)
alloc_offset-Splices addr size vam q (takes offset d' c i) w x = rw q (ground (arith, c x))

-- With the free extents sorted and inside the address space and room for the new end of the file,
-- alloc_offset takes exactly the bytes that it answers out of the free bytes of the file: each
-- byte is free as often after the call as before, less once if it is answered.
pub alloc_offset_lem :
    (addr size : ℕ) (vam : VirtAddressMapping)
    → IsSorted 0 vam.empty
    → InSpace vam.empty
    → vam.max_offset + size < word
    → (x : ℕ)
    → free x (alloc_offset addr size vam).1 + holds x (alloc_offset addr size vam).0 size
      ≡ free x vam
alloc_offset_lem addr size vam s h w x =
    alloc_offset-Splices addr size vam refl (splice-Splices size vam.empty s h) w x

pub alloc_offset-intervals :
    (addr size : ℕ) (vam : VirtAddressMapping)
    → (alloc_offset addr size vam).1.intervals ≡ vam.intervals
unfolding alloc_offset
alloc_offset-intervals addr size vam = ground arith

module _ (before : BeforeBegin ℕ) where
  -- With end() as the result of going back from begin(), alloc of a range that is not empty and
  -- ends inside the address space succeeds on well-formed intervals. It answers the offset of
  -- alloc_offset, makes it the value of every address of the range, leaves the other addresses as
  -- they were, and the intervals stay well-formed.
  alloc_lem :
      (addr size : ℕ) (vam : VirtAddressMapping)
      → ((n : Intervals ℕ) → before n ≡ none)
      → Disjoint 0 vam.intervals
      → 0 < size
      → addr + size < word
      → (m' : Intervals ℕ) × (alloc before addr size vam
          ≡ ok (
            (alloc_offset addr size vam).0,
            record ((alloc_offset addr size vam).1) { intervals = m' },
          ))
        × Disjoint 0 m'
        × ((k : ℕ)
            → value_at k m' ≡ (
                if leb addr k && leb k (addr + size - 1)
                then some (alloc_offset addr size vam).0
                else value_at k vam.intervals))
  unfolding alloc
  alloc_lem addr size vam none_before h p w =
      let (m', run, valid, points) =
        set_lem before addr (addr + size - 1) (alloc_offset addr size vam).0 vam.intervals
          none_before h (omega arith) (omega arith) in
      (
        m',
        rw (
          end_offset_lem addr size p w,
          alloc_offset-intervals addr size vam,
          insert-eq-set before addr (addr + size - 1) (alloc_offset addr size vam).0 vam.intervals
              none_before h (omega arith),
          run,
        ),
        valid,
        points,
      )
