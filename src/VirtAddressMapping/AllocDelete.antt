-- ===== src/VirtAddressMapping/AllocDelete.antt =====
-- alloc and then del of a range of VirtAddressMapping, in include/storage/SimpleStorage.hpp.
use direct_libstorage.Base.{
  ℕ, suc, ◌+◌, ◌-◌, ◌≤◌, ◌<◌, ◌≡◌, ◌≢◌, sym, subst, ◌∙◌, refl, inl, inr, ◌&&◌, true, false, Bool,
  none, some, [], ◌∷◌, Outcome, ok, Result, success, ltb, leb, if◌then◌else◌, arith, nat_eq,
  nat_lawful, ap,
}
use direct_libstorage.Base.Words.{word}
use direct_libstorage.IntervalMap.{Intervals, BeforeBegin}
use direct_libstorage.IntervalMap.Meaning.{Disjoint, Clear, value_at, place, join}
use direct_libstorage.IntervalMap.Points.{value_at-place}
use direct_libstorage.StorageHelpers.Extents.{holds}
use direct_libstorage.VirtAddressMapping.{
  VirtAddressMapping, unmapped_offset, alloc_offset, alloc, del,
}
use direct_libstorage.VirtAddressMapping.AllocLaws.{free}
use direct_libstorage.VirtAddressMapping.Used.{piece, used}
use direct_libstorage.VirtAddressMapping.Freed.{Whole, freed}
use direct_libstorage.VirtAddressMapping.AllocSound.{allocated, alloc-place, allocated-IsSound}
use direct_libstorage.VirtAddressMapping.DeleteSound.{Deletes, fails, deletes, del-IsSound}
use direct_libstorage.VirtAddressMapping.Sound.{IsSound, alloc_offset-Takes, piece_mapped}

Fresh-other :
    (a b w off : ℕ) (m : Intervals ℕ)
    → used off ((a, (b, w)) ∷ m) ≡ 0
    → a ≤ b
    → off ≢ unmapped_offset
    → w ≢ off
unfolding used piece
Fresh-other a b w off m z l u q = ground arith

Whole-Clear : (s e : ℕ) (m : Intervals ℕ) → Clear s e m → Whole s e m
Whole-Clear s e [] c = tt
Whole-Clear s e ((a, (b, off)) ∷ m) (inl l, c) = (inr (inl l), Whole-Clear s e m c)
Whole-Clear s e ((a, (b, off)) ∷ m) (inr l, c) = (inr (inr (inl l)), Whole-Clear s e m c)

freed-Clear :
    (x s e lo : ℕ) (m : Intervals ℕ) → Disjoint lo m → Clear s e m → s ≤ e → freed x s e m ≡ 0
unfolding freed
freed-Clear x s e lo [] h c l = refl
freed-Clear x s e lo ((a, (b, off)) ∷ m) h c l =
    ground (arith, freed-Clear x s e (suc b) m h.3 c.1 l)

used-tail : (off : ℕ) (iv : ℕ × (ℕ × ℕ)) (m : Intervals ℕ) → used off (iv ∷ m) ≡ 0 → used off m ≡ 0
unfolding used
used-tail off (a, (b, w)) m z = omega (arith, z)

-- [s, e] in its place in the map, joined to no neighbour.
apart : ℕ → ℕ → ℕ → Intervals ℕ → Intervals ℕ
apart s e off [] = (s, (e, off)) ∷ []
apart s e off ((a, iv) ∷ m) =
    if ltb e a then (s, (e, off)) ∷ (a, iv) ∷ m else (a, iv) ∷ apart s e off m

-- A fresh interval in its place is not joined to its neighbours.
place-apart :
    (s e lo off : ℕ) (m : Intervals ℕ)
    → Disjoint lo m
    → used off m ≡ 0
    → off ≢ unmapped_offset
    → place s e off m ≡ apart s e off m
unfolding place join apart
place-apart s e lo off [] h z u = refl
place-apart s e lo off ((a, (b, w)) ∷ m) h z u = ground (
  arith,
  Fresh-other a b w off m z h.1 u,
  place-apart s e (suc b) off m h.3 (used-tail off (a, (b, w)) m z) u,
)

Whole-choice :
    (s e : ℕ) (m n : Intervals ℕ) (b : Bool)
    → Whole s e m
    → Whole s e n
    → Whole s e (if b then m else n)
Whole-choice s e m n true h k = h
Whole-choice s e m n false h k = k

Whole-apart : (s e off : ℕ) (m : Intervals ℕ) → Clear s e m → Whole s e (apart s e off m)
unfolding apart
Whole-apart s e off [] c = (inr (inr (inr (omega arith, omega arith))), tt)
Whole-apart s e off ((a, (b, w)) ∷ m) c =
    let whole = Whole-Clear s e ((a, (b, w)) ∷ m) c in
    Whole-choice s e ((s, (e, off)) ∷ (a, (b, w)) ∷ m) ((a, (b, w)) ∷ apart s e off m) (ltb e a)
      (inr (inr (inr (omega arith, omega arith))), whole) (whole.0, Whole-apart s e off m c.1)

freed-apart :
    (x s e lo off : ℕ) (m : Intervals ℕ)
    → Disjoint lo m
    → Clear s e m
    → s ≤ e
    → freed x s e (apart s e off m) ≡ piece x s e off
unfolding freed apart
freed-apart x s e lo off [] h c l = ground arith
freed-apart x s e lo off ((a, (b, w)) ∷ m) h c l =
    ground (arith, freed-Clear x s e (suc b) m h.3 c.1 l, freed-apart x s e (suc b) off m h.3 c.1 l)

module _ (before : BeforeBegin ℕ) where
  -- What is left of a del that has bytes to free and finds the start of the range.
  del-succeeds :
      (addr size offset : ℕ) (vam : VirtAddressMapping) {r : Outcome (VirtAddressMapping × Result)}
      → Deletes addr (addr + size - 1) vam r
      → 0 < size
      → value_at addr vam.intervals ≡ some offset
      → ((x : ℕ) → freed x addr (addr + size - 1) vam.intervals ≡ holds x offset size)
      → (vam' : VirtAddressMapping) × (r ≡ ok (vam', success))
        × IsSound vam'
        × ((x : ℕ) → free x vam' ≡ free x vam + holds x offset size)
        × ((k : ℕ)
            → value_at k vam'.intervals ≡ (
                if leb addr k && leb k (addr + size - 1)
                then some unmapped_offset
                else value_at k vam.intervals))
  del-succeeds addr size offset vam (fails (inl q)) p v g = absurd cc
  del-succeeds addr size offset vam (fails (inr q)) p v g =
      absurd (ground (arith, q offset, g offset))
  del-succeeds addr size offset vam (deletes vam' s m f k) p v g =
      (vam', refl, s, (λ x. omega (arith, f x, g x)), k)

  -- With end() as the result of going back from begin(), and room for the range at the end of the
  -- file: alloc of a clear range that is not empty and ends inside the address space, and then del
  -- of the same range, both succeed, and every byte of the file is free as often as before. The
  -- range stays in the map without an offset.
  pub alloc-del :
      (addr size : ℕ) (vam : VirtAddressMapping)
      → ((n : Intervals ℕ) → before n ≡ none)
      → IsSound vam
      → Clear addr (addr + size - 1) vam.intervals
      → 0 < size
      → addr + size < word
      → vam.max_offset + size < word
      → (offset : ℕ) × (vam' : VirtAddressMapping) × (vam'' : VirtAddressMapping) × (alloc before
            addr size vam
          ≡ ok (offset, vam'))
        × (del before addr size vam' ≡ ok (vam'', success))
        × IsSound vam''
        × ((x : ℕ) → free x vam'' ≡ free x vam)
        × ((k : ℕ)
            → value_at k vam''.intervals ≡ (
                if leb addr k && leb k (addr + size - 1)
                then some unmapped_offset
                else value_at k vam.intervals))
  alloc-del addr size vam none_before h c p w u =
      let t = alloc_offset-Takes addr size vam h p u in
      let offset = (alloc_offset addr size vam).0 in
      let e = addr + size - 1 in
      let mapped : offset ≢ unmapped_offset = λ q. let b = t.bounded in omega arith in
      let vam' = allocated before addr size vam in
      let same = place-apart addr e 0 offset vam.intervals h.valid t.fresh mapped in
      let whole : Whole addr e vam'.intervals =
        subst (Whole addr e) (sym same) (Whole-apart addr e offset vam.intervals c) in
      let gone : (x : ℕ) → freed x addr e vam'.intervals ≡ holds x offset size = λ x.
        ap (freed x addr e) same
        ∙ freed-apart x addr e 0 offset vam.intervals h.valid c (omega arith)
        ∙ piece_mapped x addr e size offset (omega arith) t.bounded p in
      let value : (k : ℕ)
          → value_at k vam'.intervals
            ≡ (if leb addr k && leb k e then some offset else value_at k vam.intervals) =
        λ k. value_at-place k addr e 0 offset vam.intervals h.valid c (omega arith) in
      let sound = allocated-IsSound before addr size vam h c p w u in
      let (vam'', run, sound'', freed_bytes, values) =
        del-succeeds addr size offset vam'
          (del-IsSound before addr size vam' none_before sound whole p w) p
          (value addr ∙ ground arith) gone in
      (
        offset,
        vam',
        vam'',
        alloc-place before addr size vam none_before h.valid c p w,
        run,
        sound'',
        (λ x. freed_bytes x ∙ t.bytes x),
        λ k. ground (arith, values k, value k),
      )
