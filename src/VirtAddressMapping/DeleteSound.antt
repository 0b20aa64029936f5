-- ===== src/VirtAddressMapping/DeleteSound.antt =====
-- del of VirtAddressMapping, in include/storage/SimpleStorage.hpp, under the class's invariant.
use direct_libstorage.Base.{
  ℕ, zero, suc, ◌+◌, ◌-◌, ◌≤◌, ◌<◌, ◌≡◌, sym, subst, ◌∙◌, refl, ◌⊎◌, inl, inr, ◌&&◌, none, some,
  Outcome, ok, Result, success, failure, leb, if◌then◌else◌, arith, nat_eq, nat_lawful, ap,
}
use direct_libstorage.Base.Words.{word}
use direct_libstorage.IntervalMap.{Intervals, BeforeBegin}
use direct_libstorage.IntervalMap.Meaning.{Disjoint, value_at, place, cut}
use direct_libstorage.IntervalMap.Points.{
  value_at-cut, cut-Disjoint, cut-Clear, value_at-place, place-Disjoint,
}
use direct_libstorage.IntervalMap.SetLaws.{set-place}
use direct_libstorage.IntervalMap.Update.{for_each_interval}
use direct_libstorage.StorageHelpers.{MultiMap}
use direct_libstorage.StorageHelpers.Extents.{covers}
use direct_libstorage.VirtAddressMapping.{VirtAddressMapping, unmapped_offset, add_to_empty, del}
use direct_libstorage.VirtAddressMapping.LookupLaws.{end_offset_lem}
use direct_libstorage.VirtAddressMapping.AllocLaws.{free}
use direct_libstorage.VirtAddressMapping.Used.{piece_unmapped, used, used-place}
use direct_libstorage.VirtAddressMapping.Freed.{Whole, freed, used-cut}
use direct_libstorage.VirtAddressMapping.FreeLoop.{Frees}
use direct_libstorage.VirtAddressMapping.FreeRange.{Loops, missed, visited, for_each-Loops}
use direct_libstorage.VirtAddressMapping.Sound.{IsSound, IsSound-Inside}

-- What del answers: failure and the object as it was, if no interval has the start of the range or
-- no interval in the range has bytes, or success and an object in which the range has no byte of the
-- file any more, all other addresses are as before, and the bytes are free.
pub data Deletes (start end : ℕ) (vam : VirtAddressMapping)
    : Outcome (VirtAddressMapping × Result) → Type 0 where
  fails :
      (value_at start vam.intervals ≡ none) ⊎ ((x : ℕ) → freed x start end vam.intervals ≡ 0)
      → Deletes start end vam (ok (vam, failure))
  deletes :
      (vam' : VirtAddressMapping)
      → IsSound vam'
      → vam'.max_offset ≡ vam.max_offset
      → ((x : ℕ) → free x vam' ≡ free x vam + freed x start end vam.intervals)
      → ((k : ℕ)
          → value_at k vam'.intervals
            ≡ (if leb start k && leb k end then some unmapped_offset else value_at k vam.intervals))
      → Deletes start end vam (ok (vam', success))

-- The object after a del that frees something.
abbrev deleted : ℕ → ℕ → MultiMap ℕ → VirtAddressMapping → VirtAddressMapping
deleted s e empty vam = record vam {
  intervals = place s e unmapped_offset (cut s e vam.intervals);
  empty = empty;
}

used-deleted :
    (x s e : ℕ) (m : Intervals ℕ)
    → Disjoint 0 m
    → s ≤ e
    → Whole s e m
    → used x (place s e unmapped_offset (cut s e m)) + freed x s e m ≡ used x m
used-deleted x s e m h l u = omega (
  arith,
  used-place x s e 0 unmapped_offset (cut s e m) (cut-Disjoint s e 0 m h l) (cut-Clear s e 0 m h l)
      l (inl refl),
  piece_unmapped x s e unmapped_offset refl,
  used-cut x s e 0 m h l u,
)

deleted-IsSound :
    (s e : ℕ) (vam : VirtAddressMapping) (r : ℕ × MultiMap ℕ)
    → IsSound vam
    → s ≤ e
    → e < word
    → Whole s e vam.intervals
    → Frees s e vam.intervals (0, vam.empty) r
    → IsSound (deleted s e r.1 vam)
deleted-IsSound s e vam r h l w u f = record {
  valid =
      place-Disjoint s e 0 unmapped_offset (cut s e vam.intervals)
        (cut-Disjoint s e 0 vam.intervals h.valid l) (cut-Clear s e 0 vam.intervals h.valid l) l
        (omega arith) w;
  sorted = f.sorted h.sorted;
  in_space = f.in_space h.in_space;
  room = h.room;
  once = λ x. omega (arith, h.once x, f.extents x, used-deleted x s e vam.intervals h.valid l u);
}

module _ (before : BeforeBegin ℕ) where
  del_fails :
      (addr size : ℕ) (vam : VirtAddressMapping)
      → 0 < size
      → addr + size < word
      → for_each_interval
          (add_to_empty before)
          before
          addr
          (addr + size - 1)
          vam.intervals
          (0, vam.empty)
        ≡ ok (0, vam.empty)
      → del before addr size vam ≡ ok (vam, failure)
  unfolding del
  del_fails addr size vam p w q = rw (end_offset_lem addr size p w, q)

  del_succeeds :
      (addr size : ℕ) (vam : VirtAddressMapping) (r : ℕ × MultiMap ℕ)
      → ((n : Intervals ℕ) → before n ≡ none)
      → Disjoint 0 vam.intervals
      → 0 < size
      → addr + size < word
      → for_each_interval
          (add_to_empty before)
          before
          addr
          (addr + size - 1)
          vam.intervals
          (0, vam.empty)
        ≡ ok r
      → 0 < r.0
      → del before addr size vam ≡ ok (deleted addr (addr + size - 1) r.1 vam, success)
  unfolding del
  del_succeeds addr size vam (count, empty) none_before h p w q c =
      let made =
        set-place before addr (addr + size - 1) unmapped_offset vam.intervals none_before h
          (omega arith) (omega arith) in
      rw (end_offset_lem addr size p w, q) (ground (arith, made))

  Deletes-Loops :
      (addr size : ℕ) (vam : VirtAddressMapping) {r : Outcome (ℕ × MultiMap ℕ)}
      → ((n : Intervals ℕ) → before n ≡ none)
      → IsSound vam
      → Whole addr (addr + size - 1) vam.intervals
      → 0 < size
      → addr + size < word
      → for_each_interval
          (add_to_empty before)
          before
          addr
          (addr + size - 1)
          vam.intervals
          (0, vam.empty)
        ≡ r
      → Loops before addr (addr + size - 1) vam.intervals (0, vam.empty) r
      → Deletes addr (addr + size - 1) vam (del before addr size vam)
  Deletes-Loops addr size vam none_before h u p w q (missed o) =
      subst (Deletes addr (addr + size - 1) vam) (sym (del_fails addr size vam p w q))
        (fails (inl o))
  Deletes-Loops addr size vam none_before h u p w q (visited (zero, empty) f) =
      subst (Deletes addr (addr + size - 1) vam)
        (sym (del_fails addr size vam p w (q ∙ ap (λ d. ok (0, d)) (f.unchanged refl))))
        (fails (inr λ x. omega (arith, f.extents x, ap (covers x) (f.unchanged refl))))
  Deletes-Loops addr size vam none_before h u p w q (visited (suc count, empty) f) =
      let e = addr + size - 1 in
      subst (Deletes addr e vam)
        (sym
          (del_succeeds addr size vam (suc count, empty) none_before h.valid p w q (omega arith)))
        (deletes (deleted addr e empty vam)
          (deleted-IsSound addr e vam (suc count, empty) h (omega arith) (omega arith) u f) refl
          (λ x. omega (arith, f.extents x))
          λ k. ground (
            arith,
            value_at-place k addr e 0 unmapped_offset (cut addr e vam.intervals)
                (cut-Disjoint addr e 0 vam.intervals h.valid (omega arith))
                (cut-Clear addr e 0 vam.intervals h.valid (omega arith)) (omega arith),
            value_at-cut k addr e 0 vam.intervals h.valid (omega arith),
          ))

  -- With end() as the result of going back from begin(): del of a range that is not empty, ends
  -- inside the address space and has each mapped interval wholly or not at all either fails and
  -- changes nothing, which it does only if no interval has its first address or none inside of it has
  -- bytes, or it succeeds: the range has no offset any more, no other address changes, the
  -- bytes of the intervals inside of the range become free, and every byte of the file is again
  -- exactly once either free or in a mapped interval.
  pub del-IsSound :
      (addr size : ℕ) (vam : VirtAddressMapping)
      → ((n : Intervals ℕ) → before n ≡ none)
      → IsSound vam
      → Whole addr (addr + size - 1) vam.intervals
      → 0 < size
      → addr + size < word
      → Deletes addr (addr + size - 1) vam (del before addr size vam)
  del-IsSound addr size vam none_before h u p w =
      Deletes-Loops addr size vam none_before h u p w refl (
        for_each-Loops before addr (addr + size - 1) vam.intervals (0, vam.empty) none_before
          h.valid (omega arith) u (IsSound-Inside vam h))
