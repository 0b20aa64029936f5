-- ===== src/VirtAddressMapping/FirstUse.antt =====
-- The first lookup for writing in an interval that has no offset yet, of VirtAddressMapping in
-- include/storage/SimpleStorage.hpp: what it does to the intervals.
use direct_libstorage.Base.{
  ℕ, suc, ◌+◌, ◌-◌, ◌≤◌, ◌<◌, ◌≡◌, subst, ◌∙◌, refl, dec_le, ◌&&◌, false, some, [], ◌∷◌, ◌++◌, ok,
  success, leb, ◌==◌, if◌then◌else◌, arith, nat_eq, nat_lawful, ap,
}
use direct_libstorage.Base.Words.{word, add64, add64_lem, sub64_lem}
use direct_libstorage.StdMap.{deref, assign}
use direct_libstorage.StdMap.Split.{assign-middle, emplace-after, Ascends-assign, Ascends-weaken}
use direct_libstorage.IntervalMap.{Intervals, BeforeBegin, emplace, find_interval}
use direct_libstorage.IntervalMap.Meaning.{Disjoint, value_at}
use direct_libstorage.IntervalMap.CutLaws.{Disjoint-middle}
use direct_libstorage.IntervalMap.FindLaws.{Disjoint-Ascends, deref-middle, find_it-after}
use direct_libstorage.IntervalMap.LookupLaws.{find_it-checked}
use direct_libstorage.IntervalMap.Update.{split}
use direct_libstorage.StorageHelpers.Extents.{holds}
use direct_libstorage.VirtAddressMapping.{
  VirtAddressMapping, unmapped_offset, alloc_offset, map_interval, lookup,
}
use direct_libstorage.VirtAddressMapping.LookupLaws.{end_offset_lem, size_from_start_end_lem}
use direct_libstorage.VirtAddressMapping.AllocLaws.{alloc_offset-intervals}
use direct_libstorage.VirtAddressMapping.Used.{piece_unmapped, used}
use direct_libstorage.VirtAddressMapping.Sound.{piece_mapped}

-- The interval [a, b] of the map with the offset `off` for its first `size` addresses.
abbrev pub first_use : ℕ → ℕ → ℕ → ℕ → Intervals ℕ → Intervals ℕ
first_use a b size off back =
    if size == b + 1 - a
    then (a, (b, off)) ∷ back
    else (a, (a + size - 1, off)) ∷ (a + size, (b, unmapped_offset)) ∷ back

used-append : (x : ℕ) (m n : Intervals ℕ) → used x (m ++ n) ≡ used x m + used x n
unfolding used
used-append x [] n = omega arith
used-append x ((a, (b, off)) ∷ m) n = omega (arith, used-append x m n)

used-halves :
    (x a b size off : ℕ) (back : Intervals ℕ)
    → 0 < size
    → off + size < word
    → a + size ≤ b + 1
    → used x (first_use a b size off back) ≡ holds x off size + used x back
unfolding used
used-halves x a b size off back p w l = ground (
  arith,
  λ (q : suc b ≡ a + size). piece_mapped x a b size off q w p,
  piece_mapped x a (a + size - 1) size off (omega arith) w p,
  piece_unmapped x (a + size) b unmapped_offset refl,
)

pub used-first_use :
    (x a b size off : ℕ) (front back : Intervals ℕ)
    → 0 < size
    → off + size < word
    → a + size ≤ b + 1
    → used x (front ++ first_use a b size off back)
      ≡ holds x off size + used x (front ++ (a, (b, unmapped_offset)) ∷ back)
unfolding used
used-first_use x a b size off front back p w l = omega (
  arith,
  used-append x front (first_use a b size off back),
  used-append x front ((a, (b, unmapped_offset)) ∷ back),
  used-halves x a b size off back p w l,
  piece_unmapped x a b unmapped_offset refl,
)

pub Disjoint-first_use :
    (lo a b size off : ℕ) (front back : Intervals ℕ)
    → Disjoint lo (front ++ (a, (b, unmapped_offset)) ∷ back)
    → 0 < size
    → a + size ≤ b + 1
    → Disjoint lo (front ++ first_use a b size off back)
Disjoint-first_use lo a b size off [] back h p l = ground arith
Disjoint-first_use lo a b size off ((i, (c, w)) ∷ front) back h p l =
    (h.0, h.1, h.2, Disjoint-first_use (suc c) a b size off front back h.3 p l)

pub value_at-first_use :
    (k lo a b size off : ℕ) (front back : Intervals ℕ)
    → Disjoint lo (front ++ (a, (b, unmapped_offset)) ∷ back)
    → 0 < size
    → a + size ≤ b + 1
    → value_at k (front ++ first_use a b size off back) ≡ (
        if leb a k && leb k (a + size - 1)
        then some off
        else value_at k (front ++ (a, (b, unmapped_offset)) ∷ back))
unfolding value_at
value_at-first_use k lo a b size off [] back h p l = ground arith
value_at-first_use k lo a b size off ((i, (c, w)) ∷ front) back h p l = ground (
  arith,
  Disjoint-middle (suc c) front a b unmapped_offset back h.3,
  value_at-first_use k (suc c) a b size off front back h.3 p l,
)

Disjoint-value :
    (lo a b off off' : ℕ) (front back : Intervals ℕ)
    → Disjoint lo (front ++ (a, (b, off)) ∷ back)
    → Disjoint lo (front ++ (a, (b, off')) ∷ back)
Disjoint-value lo a b off off' [] back h = h
Disjoint-value lo a b off off' ((i, (c, w)) ∷ front) back h =
    (h.0, h.1, h.2, Disjoint-value (suc c) a b off off' front back h.3)

module _ (before : BeforeBegin ℕ) where
  split-first_use :
      (lo a b size off : ℕ) (front back : Intervals ℕ)
      → Disjoint lo (front ++ (a, (b, off)) ∷ back)
      → 0 < size
      → a + size ≤ b
      → split (λ _ _ _ _ _. unmapped_offset) a (a + size - 1) (front ++ (a, (b, off)) ∷ back)
        ≡ ok (front ++ (a, (a + size - 1, off)) ∷ (a + size, (b, unmapped_offset)) ∷ back, success)
  unfolding split emplace
  split-first_use lo a b size off front back h p l =
      let asc = Disjoint-Ascends lo _ h in
      let mid = Disjoint-middle lo front a b off back h in
      let e : add64 (a + size - 1) 1 ≡ a + size =
        add64_lem (a + size - 1) 1 (omega arith) ∙ omega arith in
      rw
        (
          deref-middle lo front a b off back asc,
          assign-middle lo front a (b, off) (a + size - 1, off) back asc,
          e,
          emplace-after lo front a (a + size - 1, off) (a + size) (b, unmapped_offset) back
              (Ascends-assign lo front a (b, off) (a + size - 1, off) back asc) (omega arith)
              (Ascends-weaken (suc b) (suc (a + size)) back (omega arith)
                (Disjoint-Ascends (suc b) back mid.3)),
        )
        (ground arith)

  -- The object after the first use of the interval [a, b].
  abbrev pub used_first :
      ℕ → ℕ → ℕ → ℕ → Intervals ℕ → Intervals ℕ → VirtAddressMapping → VirtAddressMapping
  used_first addr a b size front back vam =
      let r = alloc_offset addr size vam in
      record r.1 { intervals = front ++ first_use a b size r.0 back }

  map_interval-first_use :
      (addr a b size : ℕ) (front back : Intervals ℕ) (vam : VirtAddressMapping)
      → vam.intervals ≡ front ++ (a, (b, unmapped_offset)) ∷ back
      → Disjoint 0 vam.intervals
      → 0 < size
      → a + size ≤ b + 1
      → a + size < word
      → map_interval before a b (b + 1 - a) addr size false vam
        ≡ ok ((alloc_offset addr size vam).0, used_first addr a b size front back vam)
  unfolding map_interval
  map_interval-first_use addr a b size front back vam q h p l w =
      let off = (alloc_offset addr size vam).0 in
      let h' : Disjoint 0 (front ++ (a, (b, unmapped_offset)) ∷ back) = subst (Disjoint 0) q h in
      let asc = Disjoint-Ascends 0 _ h' in
      let mid = Disjoint-middle 0 front a b unmapped_offset back h' in
      let set_offset : assign a (b, off) vam.intervals ≡ front ++ (a, (b, off)) ∷ back =
        ap (assign a (b, off)) q ∙ assign-middle 0 front a (b, unmapped_offset) (b, off) back asc in
      rw (alloc_offset-intervals addr size vam, set_offset, end_offset_lem a size p w)
        (elim (dec_le (a + size) b) [
          | yes s ↦
              rw
                (split-first_use 0 a b size off front back
                  (Disjoint-value 0 a b unmapped_offset off front back h') p s)
                (ground arith)
          | no s ↦ ground arith
        ])

  pub found_first :
      (addr a b off : ℕ) (front back : Intervals ℕ)
      → Disjoint 0 (front ++ (a, (b, off)) ∷ back)
      → a ≤ addr
      → addr ≤ b
      → find_interval before addr (front ++ (a, (b, off)) ∷ back) ≡ ok (some a)
  unfolding find_interval
  found_first addr a b off front back h l o =
      let m : Intervals ℕ = front ++ (a, (b, off)) ∷ back in
      let asc = Disjoint-Ascends 0 m h in
      let mid = Disjoint-middle 0 front a b off back h in
      find_it-checked before addr a b off m
        (find_it-after before 0 addr front a b off back asc l (
          Ascends-weaken (suc b) (suc addr) back (omega arith)
            (Disjoint-Ascends (suc b) back mid.3)))
        (deref-middle 0 front a b off back asc)
      ∙ ground arith

  pub lookup-first_use :
      (addr a b size : ℕ) (front back : Intervals ℕ) (vam : VirtAddressMapping)
      → vam.intervals ≡ front ++ (a, (b, unmapped_offset)) ∷ back
      → Disjoint 0 vam.intervals
      → 0 < size
      → a ≤ addr
      → addr + size ≤ b + 1
      → b + 1 < word
      → lookup before addr size false vam
        ≡ ok (
          (add64 (alloc_offset addr size vam).0 (addr - a), b + 1 - addr),
          used_first addr a b size front back vam,
        )
  unfolding lookup
  lookup-first_use addr a b size front back vam q h p l o w =
      let h' : Disjoint 0 (front ++ (a, (b, unmapped_offset)) ∷ back) = subst (Disjoint 0) q h in
      let f : find_interval before addr vam.intervals ≡ ok (some a) =
        ap (find_interval before addr) q
        ∙ found_first addr a b unmapped_offset front back h' l (omega arith) in
      let d : deref a vam.intervals ≡ ok (b, unmapped_offset) =
        ap (deref a) q ∙ deref-middle 0 front a b unmapped_offset back (Disjoint-Ascends 0 _ h') in
      let m =
        map_interval-first_use addr a b size front back vam q h p (omega arith) (omega arith) in
      rw
        (
          f,
          d,
          end_offset_lem addr size p (omega arith),
          size_from_start_end_lem a b (omega arith) w,
          sub64_lem addr a l (omega arith),
          sub64_lem (b + 1 - a) (addr - a) (omega arith) (omega arith),
        )
        (ground (arith, m))
