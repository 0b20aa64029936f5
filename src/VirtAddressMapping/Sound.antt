-- ===== src/VirtAddressMapping/Sound.antt =====
-- The invariant of VirtAddressMapping, in include/storage/SimpleStorage.hpp, and alloc_offset
-- under it.
use direct_libstorage.Base.{ℕ, suc, ◌+◌, ◌-◌, ◌≤◌, ◌<◌, ◌≡◌, refl, Bool, arith, nat_eq, nat_lawful}
use direct_libstorage.Base.Words.{word, add64_lem}
use direct_libstorage.IntervalMap.{Intervals}
use direct_libstorage.IntervalMap.Meaning.{Disjoint}
use direct_libstorage.StorageHelpers.{MultiMap}
use direct_libstorage.StorageHelpers.Order.{IsSorted}
use direct_libstorage.StorageHelpers.Extents.{
  splice_offset, holds, covers, InSpace, Splices, misses, takes, splice-Splices, splice-IsSorted,
}
use direct_libstorage.VirtAddressMapping.{VirtAddressMapping, new_mapping, alloc_offset}
use direct_libstorage.VirtAddressMapping.AllocLaws.{free, alloc_offset_lem, alloc_offset-intervals}
use direct_libstorage.VirtAddressMapping.Used.{piece, used}
use direct_libstorage.VirtAddressMapping.FreeLoop.{Inside}

-- The intervals are well-formed, the free extents are sorted and in the address space, and every byte
-- of the file is exactly once either free or in a mapped interval.
pub record IsSound (vam : VirtAddressMapping) : Type 0 where
  pub valid : Disjoint 0 vam.intervals
  pub sorted : IsSorted 0 vam.empty
  pub in_space : InSpace vam.empty
  pub room : vam.max_offset < word
  pub once : (x : ℕ) → free x vam + used x vam.intervals ≡ 1

pub new_mapping-IsSound : IsSound new_mapping
unfolding covers used
new_mapping-IsSound = record {
  valid = tt;
  sorted = tt;
  in_space = tt;
  room = omega arith;
  once = λ x. ground arith;
}

pub IsSound-Inside : (vam : VirtAddressMapping) → IsSound vam → Inside vam.intervals
IsSound-Inside vam h x l = let all = h.once x in let top = h.room in ground arith

-- What alloc_offset leaves beside the bytes that it takes.
record Leaves (size : ℕ) (vam vam' : VirtAddressMapping) : Type 0 where
  sorted : IsSorted 0 vam'.empty
  in_space : InSpace vam'.empty
  room : vam'.max_offset < word
  end : vam'.max_offset ≤ vam.max_offset + size

Leaves-Splices :
    (addr size : ℕ) (vam : VirtAddressMapping) {r : (Bool × ℕ) × MultiMap ℕ}
    → IsSound vam
    → vam.max_offset + size < word
    → splice_offset size vam.empty ≡ r
    → Splices size vam.empty r
    → IsSorted 0 r.1
    → Leaves size vam (alloc_offset addr size vam).1
unfolding alloc_offset
Leaves-Splices addr size vam h w q (misses s) o =
    rw (q, add64_lem vam.max_offset size w)
      (record { sorted = o; in_space = h.in_space; room = w; end = omega arith })
Leaves-Splices addr size vam h w q (takes offset d' c i) o =
    rw q (record { sorted = o; in_space = i; room = h.room; end = omega arith })

-- What alloc_offset answers: bytes that no interval has, in the address space.
pub record Takes (size : ℕ) (vam : VirtAddressMapping) (r : ℕ × VirtAddressMapping) : Type 0 where
  pub sorted : IsSorted 0 r.1.empty
  pub in_space : InSpace r.1.empty
  pub room : r.1.max_offset < word
  pub end : r.1.max_offset ≤ vam.max_offset + size
  pub intervals : r.1.intervals ≡ vam.intervals
  pub bytes : (x : ℕ) → free x r.1 + holds x r.0 size ≡ free x vam
  pub bounded : r.0 + size < word
  pub fresh : used r.0 vam.intervals ≡ 0

pub alloc_offset-Takes :
    (addr size : ℕ) (vam : VirtAddressMapping)
    → IsSound vam
    → 0 < size
    → vam.max_offset + size < word
    → Takes size vam (alloc_offset addr size vam)
alloc_offset-Takes addr size vam h p w =
    let left =
      Leaves-Splices addr size vam h w refl (splice-Splices size vam.empty h.sorted h.in_space)
        (splice-IsSorted size vam.empty h.sorted) in
    let offset = (alloc_offset addr size vam).0 in
    let taken = alloc_offset_lem addr size vam h.sorted h.in_space w in
    let room = left.room in
    record {
      sorted = left.sorted;
      in_space = left.in_space;
      room = left.room;
      end = left.end;
      intervals = alloc_offset-intervals addr size vam;
      bytes = taken;
      bounded = ground (arith, taken (offset + (size - 1)), h.once (offset + (size - 1)));
      fresh = ground (arith, taken offset, h.once offset);
    }

pub piece_mapped :
    (x a b size off : ℕ)
    → suc b ≡ a + size
    → off + size < word
    → 0 < size
    → piece x a b off ≡ holds x off size
unfolding piece
piece_mapped x a b size off q w p = ground arith

-- Bytes taken for a clear range, and put in the map as its value.
pub IsSound-mapped :
    (addr size : ℕ) (vam : VirtAddressMapping) (r : ℕ × VirtAddressMapping) (m : Intervals ℕ)
    → IsSound vam
    → Takes size vam r
    → Disjoint 0 m
    → ((x : ℕ) → used x m ≡ holds x r.0 size + used x vam.intervals)
    → IsSound (record r.1 { intervals = m })
IsSound-mapped addr size vam r m h t d u = record {
  valid = d;
  sorted = t.sorted;
  in_space = t.in_space;
  room = t.room;
  once = λ x. omega (arith, u x, t.bytes x, h.once x);
}
