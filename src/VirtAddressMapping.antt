-- ===== src/VirtAddressMapping.antt =====
-- class VirtAddressMapping of include/storage/SimpleStorage.hpp: virtual addresses to offsets in a
-- file. The member functions take the object and return it with their result.
pub mod LookupLaws
pub mod AllocLaws
pub mod DeleteFront
pub mod Persist
pub mod Used
pub mod Sound
pub mod AllocSound
pub mod DeleteSound
pub mod FirstUse
pub mod LookupSound
pub mod AllocDelete
pub mod Reachable
pub mod Freed
pub mod FreeLoop
pub mod FreeRange
use direct_libstorage.Base.{
  ℕ, ◌+◌, Bool, true, false, not, ◌||◌, nat_eq, Option, none, some, [], Outcome, ok, ◌>>=◌, ◌>>◌,
  assert_on, Result, success, failure, ltb, leb, ◌==◌, if◌then◌else◌,
}
use direct_libstorage.Base.Words.{word_max, add64, sub64}
use direct_libstorage.StdMap.{Map, deref, assign}
use direct_libstorage.IntervalMap.{Intervals, BeforeBegin, find_interval}
use direct_libstorage.IntervalMap.Update
use direct_libstorage.IntervalMap.Update.{for_each_interval, set, split}
use direct_libstorage.StorageHelpers.{MultiMap}
use direct_libstorage.StorageHelpers
use direct_libstorage.StorageHelpers.Extents.{advance_offset, splice_offset}
use direct_libstorage.StorageUtils.Address.{StorageAddress}

pub record VirtAddressMapping : Type 0 where
  pub intervals : Intervals ℕ
  pub unmapped : Map ℕ
  pub empty : MultiMap ℕ
  pub max_addr : ℕ
  pub max_offset : ℕ

abbrev pub new_mapping : VirtAddressMapping
new_mapping = record { intervals = []; unmapped = []; empty = []; max_addr = 0; max_offset = 0 }

abbrev pub unmapped_offset : ℕ
unmapped_offset = word_max

-- alloc_offset: the offset, and the object after the call.
unfoldable pub alloc_offset : ℕ → ℕ → VirtAddressMapping → ℕ × VirtAddressMapping
alloc_offset addr size vam =
    let ((has, offset), empty') = splice_offset size vam.empty in
    if has
    then (offset, record vam { empty = empty' })
    else (let max_offset' = add64 vam.max_offset size in
        (
          sub64 max_offset' size,
          record vam { max_addr = add64 addr size; max_offset = max_offset' },
        ))

unfoldable pub end_offset : ℕ → ℕ → Outcome ℕ
end_offset addr size = do assert_on (size == 0); ok (sub64 (add64 addr size) 1)

unfoldable pub size_from_start_end : ℕ → ℕ → ℕ
size_from_start_end start end = add64 (sub64 end start) 1

module _ (before : BeforeBegin ℕ) where
  -- lookup's first use of an interval that has no offset yet.
  unfoldable pub map_interval :
      ℕ → ℕ → ℕ → ℕ → ℕ → Bool → VirtAddressMapping → Outcome (ℕ × VirtAddressMapping)
  map_interval va_start va_end va_size addr size is_read_only vam = do
    assert_on is_read_only
    let (offset, vam') = alloc_offset addr size vam
    let intervals' = assign va_start (va_end, offset) vam'.intervals
    (if size == va_size then ok (offset, record vam' { intervals = intervals' }) else (do
      mid_left ← end_offset va_start size
      halves ← split (λ _ _ _ _ _. unmapped_offset) va_start mid_left intervals'
      ok (offset, record vam' { intervals = halves.0 })))

  -- lookup: the offset and the size that follows it.
  unfoldable pub lookup : ℕ → ℕ → Bool → VirtAddressMapping → Outcome ((ℕ × ℕ) × VirtAddressMapping)
  lookup addr size is_read_only vam = do
    it ← find_interval before addr vam.intervals
    elim it [
      | none ↦ (do assert_on true; ok ((0, 0), vam))
      | some va_start ↦ do
        iv ← deref va_start vam.intervals
        let va_size = size_from_start_end va_start iv.0
        let addr_offset = sub64 addr va_start
        assert_on (ltb addr va_start)
        end ← end_offset addr size
        assert_on (ltb iv.0 end)
        mapped ←
            (if iv.1 == unmapped_offset
              then map_interval va_start iv.0 va_size addr size is_read_only vam
              else ok (iv.1, vam))
        ok ((add64 mapped.0 addr_offset, sub64 va_size addr_offset), mapped.1)
    ]

  unfoldable pub alloc : ℕ → ℕ → VirtAddressMapping → Outcome (ℕ × VirtAddressMapping)
  alloc addr size vam = do
    let (offset, vam') = alloc_offset addr size vam
    end ← end_offset addr size
    res ← Update.insert before addr end offset vam'.intervals
    assert_on (elim res.1 [ success ↦ false | failure ↦ true ])
    ok (offset, record vam' { intervals = res.0 })

  unfoldable pub alloc_unmapped : ℕ → ℕ → VirtAddressMapping → Outcome (VirtAddressMapping × Result)
  alloc_unmapped addr size vam = do
    end ← end_offset addr size
    res ← Update.insert before addr end unmapped_offset vam.intervals
    ok (record vam { intervals = res.0 }, res.1)

  -- The closure of del, on the count of freed ranges and the set of free extents.
  unfoldable pub add_to_empty : ℕ → ℕ → ℕ → ℕ × MultiMap ℕ → ℕ × MultiMap ℕ
  add_to_empty va_start va_end offset (count, empty) =
      let va_size = size_from_start_end va_start va_end in
      if (offset == unmapped_offset) || (va_size == 0)
      then (count, empty)
      else (count + 1, StorageHelpers.add va_size offset empty)

  unfoldable pub del : ℕ → ℕ → VirtAddressMapping → Outcome (VirtAddressMapping × Result)
  del addr size vam = do
    end ← end_offset addr size
    freed ← for_each_interval add_to_empty before addr end vam.intervals (0, vam.empty)
    let vam' = record vam { empty = freed.1 }
    (if freed.0 == 0 then ok (vam', failure) else (do
      res ← set before addr end unmapped_offset vam'.intervals
      ok (record vam' { intervals = res.0 }, res.1)))

  -- The closure of expand, on max.
  unfoldable pub expand_offset : ℕ → ℕ → ℕ → ℕ × ℕ → ℕ × ℕ
  expand_offset iv_start old_end new_end (max_addr, max_offset) =
      let size = sub64 new_end old_end in (add64 max_addr size, add64 max_offset size)

  unfoldable pub expand_new :
      StorageAddress → ℕ → VirtAddressMapping → Outcome (VirtAddressMapping × Result)
  expand_new address size vam = do
    new ← alloc (add64 address.addr address.size) size vam
    ok (new.1, success)

  unfoldable pub expand :
      StorageAddress → ℕ → VirtAddressMapping → Outcome (VirtAddressMapping × Result)
  expand address size vam =
      if vam.max_addr == add64 address.addr address.size
      then (do
        end ← end_offset address.addr address.size
        res ←
            Update.expand expand_offset before address.addr end vam.intervals
              (vam.max_addr, vam.max_offset)
        let vam' = record vam { intervals = res.0; max_addr = res.1.0; max_offset = res.1.1 }
        elim res.2 [ success ↦ ok (vam', success) | failure ↦ expand_new address size vam' ])
      else expand_new address size vam
