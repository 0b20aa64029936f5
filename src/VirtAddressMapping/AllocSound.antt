-- ===== src/VirtAddressMapping/AllocSound.antt =====
-- alloc and alloc_unmapped of VirtAddressMapping, in include/storage/SimpleStorage.hpp, under the
-- class's invariant.
use direct_libstorage.Base.{
  ℕ, ◌+◌, ◌-◌, ◌≤◌, ◌<◌, ◌≡◌, ◌∙◌, refl, inl, inr, ◌&&◌, none, some, ok, success, leb,
  if◌then◌else◌, arith, nat_eq, nat_lawful, ap,
}
use direct_libstorage.Base.Words.{word}
use direct_libstorage.IntervalMap.{Intervals, BeforeBegin}
use direct_libstorage.IntervalMap.Meaning.{Disjoint, Clear, value_at, place}
use direct_libstorage.IntervalMap.Points.{cut_lem, place-Disjoint, value_at-place}
use direct_libstorage.IntervalMap.Update
use direct_libstorage.IntervalMap.SetLaws.{set-place}
use direct_libstorage.IntervalMap.LookupLaws.{insert-eq-set}
use direct_libstorage.StorageHelpers.Extents.{holds}
use direct_libstorage.VirtAddressMapping.{
  VirtAddressMapping, unmapped_offset, alloc_offset, alloc, alloc_unmapped,
}
use direct_libstorage.VirtAddressMapping.LookupLaws.{end_offset_lem}
use direct_libstorage.VirtAddressMapping.AllocLaws.{alloc_offset-intervals}
use direct_libstorage.VirtAddressMapping.Used.{piece_unmapped, used, used-place}
use direct_libstorage.VirtAddressMapping.Sound.{
  IsSound, alloc_offset-Takes, IsSound-mapped, piece_mapped,
}

module _ (before : BeforeBegin ℕ) where
  insert-place :
      (start end off : ℕ) (m : Intervals ℕ)
      → ((n : Intervals ℕ) → before n ≡ none)
      → Disjoint 0 m
      → Clear start end m
      → start ≤ end
      → end < word
      → Update.insert before start end off m ≡ ok (place start end off m, success)
  insert-place start end off m none_before h c l w =
      insert-eq-set before start end off m none_before h l
      ∙ set-place before start end off m none_before h l w
      ∙ ap (λ n. ok (place start end off n, success)) (cut_lem start end 0 m h c l)

  -- The object after alloc of a clear range.
  abbrev pub allocated : ℕ → ℕ → VirtAddressMapping → VirtAddressMapping
  allocated addr size vam =
      let r = alloc_offset addr size vam in
      record r.1 { intervals = place addr (addr + size - 1) r.0 vam.intervals }

  pub alloc-place :
      (addr size : ℕ) (vam : VirtAddressMapping)
      → ((n : Intervals ℕ) → before n ≡ none)
      → Disjoint 0 vam.intervals
      → Clear addr (addr + size - 1) vam.intervals
      → 0 < size
      → addr + size < word
      → alloc before addr size vam ≡ ok ((alloc_offset addr size vam).0, allocated addr size vam)
  unfolding alloc
  alloc-place addr size vam none_before h c p w = rw (
    end_offset_lem addr size p w,
    alloc_offset-intervals addr size vam,
    insert-place addr (addr + size - 1) (alloc_offset addr size vam).0 vam.intervals none_before h c
        (omega arith) (omega arith),
  )

  used-allocated :
      (x addr size : ℕ) (vam : VirtAddressMapping)
      → IsSound vam
      → Clear addr (addr + size - 1) vam.intervals
      → 0 < size
      → vam.max_offset + size < word
      → used x (allocated addr size vam).intervals
        ≡ holds x (alloc_offset addr size vam).0 size + used x vam.intervals
  used-allocated x addr size vam h c p u =
      let t = alloc_offset-Takes addr size vam h p u in
      let offset = (alloc_offset addr size vam).0 in
      let end = addr + size - 1 in
      used-place x addr end 0 offset vam.intervals h.valid c (omega arith) (inr t.fresh)
      ∙ ap (λ n. n + used x vam.intervals)
          (piece_mapped x addr end size offset (omega arith) t.bounded p)

  pub allocated-IsSound :
      (addr size : ℕ) (vam : VirtAddressMapping)
      → IsSound vam
      → Clear addr (addr + size - 1) vam.intervals
      → 0 < size
      → addr + size < word
      → vam.max_offset + size < word
      → IsSound (allocated addr size vam)
  allocated-IsSound addr size vam h c p w u =
      let t = alloc_offset-Takes addr size vam h p u in
      let end = addr + size - 1 in
      IsSound-mapped addr size vam (alloc_offset addr size vam) _ h t
        (place-Disjoint addr end 0 (alloc_offset addr size vam).0 vam.intervals h.valid c
          (omega arith) (omega arith) (omega arith))
        λ x. used-allocated x addr size vam h c p u

  -- With end() as the result of going back from begin(), and room for the range at the end of the
  -- file, alloc of a clear range that is not empty and ends inside the address space succeeds. It
  -- maps the range to bytes of the file that no interval had and that are not free any more:
  -- afterwards every byte of the file is again exactly once either free or in a mapped interval.
  pub alloc-IsSound :
      (addr size : ℕ) (vam : VirtAddressMapping)
      → ((n : Intervals ℕ) → before n ≡ none)
      → IsSound vam
      → Clear addr (addr + size - 1) vam.intervals
      → 0 < size
      → addr + size < word
      → vam.max_offset + size < word
      → (offset : ℕ) × (vam' : VirtAddressMapping) × (alloc before addr size vam
          ≡ ok (offset, vam'))
        × IsSound vam'
        × ((x : ℕ) → used x vam'.intervals ≡ holds x offset size + used x vam.intervals)
        × ((k : ℕ)
            → value_at k vam'.intervals ≡ (
                if leb addr k && leb k (addr + size - 1)
                then some offset
                else value_at k vam.intervals))
  alloc-IsSound addr size vam none_before h c p w u = (
    (alloc_offset addr size vam).0,
    allocated addr size vam,
    alloc-place addr size vam none_before h.valid c p w,
    allocated-IsSound addr size vam h c p w u,
    λ x. used-allocated x addr size vam h c p u,
    λ k.
        value_at-place k addr (addr + size - 1) 0 (alloc_offset addr size vam).0 vam.intervals
          h.valid c (omega arith),
  )

  pub alloc_unmapped-place :
      (addr size : ℕ) (vam : VirtAddressMapping)
      → ((n : Intervals ℕ) → before n ≡ none)
      → IsSound vam
      → Clear addr (addr + size - 1) vam.intervals
      → 0 < size
      → addr + size < word
      → alloc_unmapped before addr size vam
        ≡ ok (
          record vam { intervals = place addr (addr + size - 1) unmapped_offset vam.intervals },
          success,
        )
  unfolding alloc_unmapped
  alloc_unmapped-place addr size vam none_before h c p w = rw (
    end_offset_lem addr size p w,
    insert-place addr (addr + size - 1) unmapped_offset vam.intervals none_before h.valid c
        (omega arith) (omega arith),
  )

  -- With end() as the result of going back from begin(), alloc_unmapped of a clear range that is not
  -- empty and ends inside the address space succeeds, gives it no byte of the file, and keeps every
  -- byte exactly once either free or in a mapped interval.
  pub alloc_unmapped-IsSound :
      (addr size : ℕ) (vam : VirtAddressMapping)
      → ((n : Intervals ℕ) → before n ≡ none)
      → IsSound vam
      → Clear addr (addr + size - 1) vam.intervals
      → 0 < size
      → addr + size < word
      → (vam' : VirtAddressMapping) × (alloc_unmapped before addr size vam ≡ ok (vam', success))
        × IsSound vam'
        × ((x : ℕ) → used x vam'.intervals ≡ used x vam.intervals)
        × ((k : ℕ)
            → value_at k vam'.intervals ≡ (
                if leb addr k && leb k (addr + size - 1)
                then some unmapped_offset
                else value_at k vam.intervals))
  alloc_unmapped-IsSound addr size vam none_before h c p w =
      let end = addr + size - 1 in
      let same : (x : ℕ)
          → used x (place addr end unmapped_offset vam.intervals) ≡ used x vam.intervals =
        λ x. omega (
          arith,
          used-place x addr end 0 unmapped_offset vam.intervals h.valid c (omega arith) (inl refl),
          piece_unmapped x addr end unmapped_offset refl,
        ) in
      (
        record vam { intervals = place addr end unmapped_offset vam.intervals },
        alloc_unmapped-place addr size vam none_before h c p w,
        record {
          valid =
              place-Disjoint addr end 0 unmapped_offset vam.intervals h.valid c (omega arith)
                (omega arith) (omega arith);
          sorted = h.sorted;
          in_space = h.in_space;
          room = h.room;
          once = λ x. omega (arith, same x, h.once x);
        },
        same,
        λ k. value_at-place k addr end 0 unmapped_offset vam.intervals h.valid c (omega arith),
      )
