-- ===== src/VirtAddressMapping/LookupSound.antt =====
-- lookup of VirtAddressMapping, in include/storage/SimpleStorage.hpp, in an interval that has no offset
-- yet, under the class's invariant.
use direct_libstorage.Base.{
  ℕ, ◌+◌, ◌-◌, ◌≤◌, ◌<◌, ◌≡◌, sym, subst, ◌∙◌, ◌&&◌, false, none, some, ◌∷◌, ◌++◌, ok, leb,
  if◌then◌else◌, arith, nat_eq, nat_lawful, ap,
}
use direct_libstorage.Base.Words.{word, add64}
use direct_libstorage.IntervalMap.{Intervals, BeforeBegin}
use direct_libstorage.IntervalMap.Meaning.{Disjoint, value_at}
use direct_libstorage.StorageHelpers.Extents.{holds}
use direct_libstorage.VirtAddressMapping.{VirtAddressMapping, unmapped_offset, alloc_offset, lookup}
use direct_libstorage.VirtAddressMapping.Used.{used}
use direct_libstorage.VirtAddressMapping.Sound.{IsSound, alloc_offset-Takes, IsSound-mapped}
use direct_libstorage.VirtAddressMapping.FirstUse.{
  first_use, used-first_use, Disjoint-first_use, value_at-first_use, used_first, lookup-first_use,
}

module _ (before : BeforeBegin ℕ) where
  pub used_first-IsSound :
      (addr a b size : ℕ) (front back : Intervals ℕ) (vam : VirtAddressMapping)
      → IsSound vam
      → vam.intervals ≡ front ++ (a, (b, unmapped_offset)) ∷ back
      → 0 < size
      → a + size ≤ b + 1
      → vam.max_offset + size < word
      → IsSound (used_first before addr a b size front back vam)
        × ((x : ℕ)
            → used x (used_first before addr a b size front back vam).intervals
              ≡ holds x (alloc_offset addr size vam).0 size + used x vam.intervals)
  used_first-IsSound addr a b size front back vam h q p l r =
      let t = alloc_offset-Takes addr size vam h p r in
      let offset = (alloc_offset addr size vam).0 in
      let old : Disjoint 0 (front ++ (a, (b, unmapped_offset)) ∷ back) =
        subst (Disjoint 0) q h.valid in
      let more : (x : ℕ)
          → used x (front ++ first_use a b size offset back)
            ≡ holds x offset size + used x vam.intervals =
        λ x.
          used-first_use x a b size offset front back p t.bounded l
          ∙ ap (λ m. holds x offset size + used x m) (sym q) in
      (
        IsSound-mapped addr size vam (alloc_offset addr size vam) _ h t
            (Disjoint-first_use 0 a b size offset front back old p l) more,
        more,
      )

  -- With end() as the result of going back from begin(): lookup for writing, of a range inside of an
  -- interval [a, b] that has no offset yet and ends below the last address, with room for the range
  -- at the end of the file, succeeds. It maps the first `size` addresses of the interval to bytes of
  -- the file that no interval had, and every byte of the file is again exactly once either free or
  -- in a mapped interval.
  pub lookup-IsSound :
      (addr a b size : ℕ) (front back : Intervals ℕ) (vam : VirtAddressMapping)
      → ((n : Intervals ℕ) → before n ≡ none)
      → IsSound vam
      → vam.intervals ≡ front ++ (a, (b, unmapped_offset)) ∷ back
      → 0 < size
      → a ≤ addr
      → addr + size ≤ b + 1
      → b + 1 < word
      → vam.max_offset + size < word
      → (offset : ℕ) × (vam' : VirtAddressMapping) × (lookup before addr size false vam
          ≡ ok ((add64 offset (addr - a), b + 1 - addr), vam'))
        × IsSound vam'
        × ((x : ℕ) → used x vam'.intervals ≡ holds x offset size + used x vam.intervals)
        × ((k : ℕ)
            → value_at k vam'.intervals
              ≡ (if leb a k && leb k (a + size - 1) then some offset else value_at k vam.intervals))
  lookup-IsSound addr a b size front back vam none_before h q p l o w r =
      let offset = (alloc_offset addr size vam).0 in
      let old : Disjoint 0 (front ++ (a, (b, unmapped_offset)) ∷ back) =
        subst (Disjoint 0) q h.valid in
      let (sound, more) = used_first-IsSound addr a b size front back vam h q p (omega arith) r in
      (
        offset,
        used_first before addr a b size front back vam,
        lookup-first_use before addr a b size front back vam q h.valid p l o w,
        sound,
        more,
        λ k.
            value_at-first_use k 0 a b size offset front back old p (omega arith)
            ∙ ap (λ m. if leb a k && leb k (a + size - 1) then some offset else value_at k m)
                (sym q),
      )
