-- ===== src/VirtAddressMapping/DeleteFront.antt =====
-- del of VirtAddressMapping, in include/storage/SimpleStorage.hpp, on the front part of a mapped
-- interval: what becomes of the part that stays mapped.
use direct_libstorage.Base.{
  ℕ, suc, ◌+◌, ◌-◌, ◌≤◌, ◌<◌, ◌≡◌, ◌≢◌, ◌∙◌, true, none, [], ◌∷◌, ok, success, arith, nat_eq,
  nat_lawful,
}
use direct_libstorage.Base.Words.{word}
use direct_libstorage.StdMap.{find, upper_bound, last_below, last, prev, deref}
use direct_libstorage.IntervalMap.{Intervals, BeforeBegin, find_interval, find_it, step_back}
use direct_libstorage.IntervalMap.Meaning.{cut, trim, place, join}
use direct_libstorage.IntervalMap.SetLaws.{set-place}
use direct_libstorage.IntervalMap.Update.{for_each_interval, each_from, from_it, set}
use direct_libstorage.StorageHelpers.{MultiMap}
use direct_libstorage.StorageHelpers
use direct_libstorage.VirtAddressMapping.{
  VirtAddressMapping, unmapped_offset, add_to_empty, del, lookup,
}
use direct_libstorage.VirtAddressMapping.LookupLaws.{
  end_offset_lem, size_from_start_end_lem, lookup_at,
}

module _ (before : BeforeBegin ℕ) where
  -- One interval is mapped.
  abbrev pub one_interval : ℕ → ℕ → ℕ → VirtAddressMapping → VirtAddressMapping
  one_interval a b off vam = record vam { intervals = (a, (b, off)) ∷ [] }

  -- Its front part [a, m] is unmapped and free.
  abbrev pub front_deleted : ℕ → ℕ → ℕ → ℕ → VirtAddressMapping → VirtAddressMapping
  front_deleted a m b off vam = record vam {
    intervals = (a, (m, unmapped_offset)) ∷ (suc m, (b, off)) ∷ [];
    empty = StorageHelpers.add (m + 1 - a) off vam.empty;
  }

  freed_front :
      (a m b off : ℕ) (empty : MultiMap ℕ)
      → a ≤ m
      → m < b
      → b + 1 < word
      → off ≢ unmapped_offset
      → for_each_interval (add_to_empty before) before a m ((a, (b, off)) ∷ []) (0, empty)
        ≡ ok (1, StorageHelpers.add (m + 1 - a) off empty)
  unfolding for_each_interval each_from from_it add_to_empty find_it step_back upper_bound last
      deref find
  freed_front a m b off empty l h w u = ground (arith, size_from_start_end_lem a m l)

  set_front :
      (a m b off : ℕ)
      → ((n : Intervals ℕ) → before n ≡ none)
      → a ≤ m
      → m < b
      → b + 1 < word
      → off ≢ unmapped_offset
      → set before a m unmapped_offset ((a, (b, off)) ∷ [])
        ≡ ok ((a, (m, unmapped_offset)) ∷ (suc m, (b, off)) ∷ [], success)
  set_front a m b off none_before l h w u =
      set-place before a m unmapped_offset ((a, (b, off)) ∷ []) none_before (omega arith) l
        (omega arith)
      ∙ (unfold cut trim place join in ground arith)

  del_front :
      (a m b off : ℕ) (vam : VirtAddressMapping)
      → ((n : Intervals ℕ) → before n ≡ none)
      → a ≤ m
      → m < b
      → b + 1 < word
      → off ≢ unmapped_offset
      → del before a (m + 1 - a) (one_interval a b off vam)
        ≡ ok (front_deleted a m b off vam, success)
  unfolding del
  del_front a m b off vam none_before l h w u =
      let size : a + (m + 1 - a) - 1 ≡ m = omega arith in
      rw (
        end_offset_lem a (m + 1 - a) (omega arith) (omega arith),
        size,
        freed_front a m b off vam.empty l h w u,
        set_front a m b off none_before l h w u,
      )

  -- With end() as the result of going back from begin(), and without overflow: one interval [a,
  -- b] is mapped to the file offset `off`, and its front part [a, m] is deleted. Before, the
  -- address m + 1 was at the offset off + (m + 1 - a); after, it is at `off`, which del has put
  -- into the set of free extents.
  pub del_front_moves_rest :
      (a m b off : ℕ) (vam : VirtAddressMapping)
      → ((n : Intervals ℕ) → before n ≡ none)
      → a ≤ m
      → m < b
      → b + 1 < word
      → off + b < word
      → off ≢ unmapped_offset
      → (lookup before (m + 1) 1 true (one_interval a b off vam)
          ≡ ok ((off + (m + 1 - a), b - m), one_interval a b off vam))
        × (del before a (m + 1 - a) (one_interval a b off vam)
            ≡ ok (front_deleted a m b off vam, success))
        × (lookup before (m + 1) 1 true (front_deleted a m b off vam)
            ≡ ok ((off, b - m), front_deleted a m b off vam))
  unfolding find_interval find_it step_back upper_bound last deref find prev last_below
  del_front_moves_rest a m b off vam none_before l h w o u = (
    lookup_at before a b off (m + 1) 1 true (one_interval a b off vam) (ground arith) (ground arith)
          (omega arith) (omega arith) w (omega arith) (omega arith) u (omega arith)
        ∙ ground arith,
    del_front a m b off vam none_before l h w u,
    lookup_at before (suc m) b off (m + 1) 1 true (front_deleted a m b off vam) (ground arith)
          (ground arith) (omega arith) (omega arith) w (omega arith) (omega arith) u (omega arith)
        ∙ ground arith,
  )
