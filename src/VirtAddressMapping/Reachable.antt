-- ===== src/VirtAddressMapping/Reachable.antt =====
-- The states that the operations of VirtAddressMapping, in include/storage/SimpleStorage.hpp, lead to,
-- and the bytes of the file that the virtual addresses have in them.
use direct_libstorage.Base.{
  ℕ, ◌+◌, ◌-◌, ◌≤◌, ◌<◌, ◌≡◌, subst, inl, inr, ◌⊎◌, ◌&&◌, false, Option, none, some, [], ◌∷◌, ◌++◌,
  Outcome, ok, Result, leb, ◌==◌, if◌then◌else◌, arith, nat_eq, nat_lawful,
}
use direct_libstorage.Base.Words.{word}
use direct_libstorage.IntervalMap.{Intervals, BeforeBegin}
use direct_libstorage.IntervalMap.Meaning.{Clear}
use direct_libstorage.VirtAddressMapping.{
  VirtAddressMapping, new_mapping, unmapped_offset, alloc, alloc_unmapped, lookup, del,
}
use direct_libstorage.VirtAddressMapping.AllocLaws.{free}
use direct_libstorage.VirtAddressMapping.Used.{piece, used}
use direct_libstorage.VirtAddressMapping.Freed.{Whole}
use direct_libstorage.VirtAddressMapping.Sound.{IsSound, new_mapping-IsSound}
use direct_libstorage.VirtAddressMapping.AllocSound.{alloc-IsSound, alloc_unmapped-IsSound}
use direct_libstorage.VirtAddressMapping.LookupSound.{lookup-IsSound}
use direct_libstorage.VirtAddressMapping.DeleteSound.{Deletes, fails, deletes, del-IsSound}

-- The byte of the file that an address has, if it has one.
unfoldable pub byte_of : ℕ → Intervals ℕ → Option ℕ
byte_of k [] = none
byte_of k ((a, (b, off)) ∷ m) =
    if leb a k && leb k b
    then if off == unmapped_offset then none else some (off + (k - a))
    else byte_of k m

byte_of-used : (k x : ℕ) (m : Intervals ℕ) → byte_of k m ≡ some x → 0 < used x m
unfolding byte_of used piece
byte_of-used k x [] h = ground arith
byte_of-used k x ((a, (b, off)) ∷ m) h = ground (arith, byte_of-used k x m)

byte_of-cases :
    (k x a b off : ℕ) (m : Intervals ℕ)
    → byte_of k ((a, (b, off)) ∷ m) ≡ some x
    → ((a ≤ k) × (off + (k - a) ≡ x) × (piece x a b off ≡ 1)) ⊎ (byte_of k m ≡ some x)
unfolding byte_of piece
byte_of-cases k x a b off m h = ground arith

byte_of_unique :
    (k j x : ℕ) (m : Intervals ℕ)
    → byte_of k m ≡ some x
    → byte_of j m ≡ some x
    → used x m ≤ 1
    → k ≡ j
unfolding byte_of used
byte_of_unique k j x [] h i u = ground arith
byte_of_unique k j x ((a, (b, off)) ∷ m) h i u =
    go (byte_of-cases k x a b off m h) (byte_of-cases j x a b off m i)
      (λ p q. byte_of_unique k j x m p q (omega (arith, u)))
  where
    go :
        ((a ≤ k) × (off + (k - a) ≡ x) × (piece x a b off ≡ 1)) ⊎ (byte_of k m ≡ some x)
        → ((a ≤ j) × (off + (j - a) ≡ x) × (piece x a b off ≡ 1)) ⊎ (byte_of j m ≡ some x)
        → (byte_of k m ≡ some x → byte_of j m ≡ some x → k ≡ j)
        → k ≡ j
    go (inl p) (inl q) rest = omega (arith, p, q)
    go (inl p) (inr q) rest = absurd (omega (arith, p.2, byte_of-used j x m q, u))
    go (inr p) (inl q) rest = absurd (omega (arith, q.2, byte_of-used k x m p, u))
    go (inr p) (inr q) rest = rest p q

-- Under the invariant, an address that has a byte of the file has it alone, and the byte is not free.
pub byte_of_lem :
    (k j x : ℕ) (vam : VirtAddressMapping)
    → IsSound vam
    → byte_of k vam.intervals ≡ some x
    → (free x vam ≡ 0) × (byte_of j vam.intervals ≡ some x → k ≡ j)
byte_of_lem k j x vam s h = (
  omega (arith, s.once x, byte_of-used k x vam.intervals h),
  λ i. byte_of_unique k j x vam.intervals h i (omega (arith, s.once x)),
)

module _ (before : BeforeBegin ℕ) where
  -- One call of an operation, under the conditions that keep the invariant: the range is not empty
  -- and ends inside the address space, a range that is allocated is clear and fits behind the end
  -- of the file, and a range that is deleted has each mapped interval wholly or not at all.
  pub data Step (vam : VirtAddressMapping) : VirtAddressMapping → Type 0 where
    allocates :
        (addr size offset : ℕ) (vam' : VirtAddressMapping)
        → Clear addr (addr + size - 1) vam.intervals
        → 0 < size
        → addr + size < word
        → vam.max_offset + size < word
        → alloc before addr size vam ≡ ok (offset, vam')
        → Step vam vam'
    reserves :
        (addr size : ℕ) (res : Result) (vam' : VirtAddressMapping)
        → Clear addr (addr + size - 1) vam.intervals
        → 0 < size
        → addr + size < word
        → alloc_unmapped before addr size vam ≡ ok (vam', res)
        → Step vam vam'
    maps :
        (addr a b size : ℕ) (front back : Intervals ℕ) (at : ℕ × ℕ) (vam' : VirtAddressMapping)
        → vam.intervals ≡ front ++ (a, (b, unmapped_offset)) ∷ back
        → 0 < size
        → a ≤ addr
        → addr + size ≤ b + 1
        → b + 1 < word
        → vam.max_offset + size < word
        → lookup before addr size false vam ≡ ok (at, vam')
        → Step vam vam'
    frees :
        (addr size : ℕ) (res : Result) (vam' : VirtAddressMapping)
        → Whole addr (addr + size - 1) vam.intervals
        → 0 < size
        → addr + size < word
        → del before addr size vam ≡ ok (vam', res)
        → Step vam vam'

  -- What a sequence of calls makes of a new object.
  pub data Reachable : VirtAddressMapping → Type 0 where
    start : Reachable new_mapping
    after : (vam vam' : VirtAddressMapping) → Reachable vam → Step vam vam' → Reachable vam'

  Deletes-IsSound :
      (s e : ℕ) (vam vam' : VirtAddressMapping) (res : Result)
      {r : Outcome (VirtAddressMapping × Result)}
      → IsSound vam
      → Deletes s e vam r
      → r ≡ ok (vam', res)
      → IsSound vam'
  Deletes-IsSound s e vam vam' res h (fails x) q = let e : vam ≡ vam' = cc in subst IsSound e h
  Deletes-IsSound s e vam vam' res h (deletes vam'' sound m f k) q =
      let e : vam'' ≡ vam' = cc in subst IsSound e sound

  Step-IsSound :
      (vam vam' : VirtAddressMapping)
      → ((n : Intervals ℕ) → before n ≡ none)
      → IsSound vam
      → Step vam vam'
      → IsSound vam'
  Step-IsSound vam vam' none_before h (allocates addr size offset _ c p w u q) =
      let (offset', made, run, sound, more, values) =
        alloc-IsSound before addr size vam none_before h c p w u in
      let e : made ≡ vam' = cc in subst IsSound e sound
  Step-IsSound vam vam' none_before h (reserves addr size res _ c p w q) =
      let (made, run, sound, more, values) =
        alloc_unmapped-IsSound before addr size vam none_before h c p w in
      let e : made ≡ vam' = cc in subst IsSound e sound
  Step-IsSound vam vam' none_before h (maps addr a b size front back at _ e p l o w u q) =
      let (offset', made, run, sound, more, values) =
        lookup-IsSound before addr a b size front back vam none_before h e p l o w u in
      let e : made ≡ vam' = cc in subst IsSound e sound
  Step-IsSound vam vam' none_before h (frees addr size res _ u p w q) =
      Deletes-IsSound addr (addr + size - 1) vam vam' res h
        (del-IsSound before addr size vam none_before h u p w) q

  -- With end() as the result of going back from begin(): whatever sequence of calls of alloc,
  -- alloc_unmapped, lookup for writing and del, each under the conditions of Step, makes a mapping of
  -- a new one, its intervals are well-formed, its free extents are sorted and in the address space,
  -- and every byte of the file is exactly once either free or in a mapped interval.
  pub Reachable-IsSound :
      (vam : VirtAddressMapping)
      → ((n : Intervals ℕ) → before n ≡ none)
      → Reachable vam
      → IsSound vam
  Reachable-IsSound vam none_before start = new_mapping-IsSound
  Reachable-IsSound vam none_before (after old _ r s) =
      Step-IsSound old vam none_before (Reachable-IsSound old none_before r) s

  -- With end() as the result of going back from begin(): whatever sequence of calls of alloc,
  -- alloc_unmapped, lookup for writing and del, each under the conditions of Step, makes a mapping of
  -- a new one: where it gives an address a byte of the file, the byte is not free, and no other address
  -- has it.
  pub Reachable-byte_of :
      (vam : VirtAddressMapping) (k j x : ℕ)
      → ((n : Intervals ℕ) → before n ≡ none)
      → Reachable vam
      → byte_of k vam.intervals ≡ some x
      → (free x vam ≡ 0) × (byte_of j vam.intervals ≡ some x → k ≡ j)
  Reachable-byte_of vam k j x none_before r =
      byte_of_lem k j x vam (Reachable-IsSound vam none_before r)
