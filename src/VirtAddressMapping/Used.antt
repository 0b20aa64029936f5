-- ===== src/VirtAddressMapping/Used.antt =====
-- The bytes of the file that the mapped intervals of a VirtAddressMapping, in
-- include/storage/SimpleStorage.hpp, stand for.
use direct_libstorage.Base.{
  ℕ, suc, ◌+◌, ◌-◌, ◌≤◌, ◌≡◌, subst, ◌⊎◌, inl, inr, [], ◌∷◌, ◌==◌, if◌then◌else◌, arith, nat_eq,
  nat_lawful,
}
use direct_libstorage.IntervalMap.{Intervals}
use direct_libstorage.IntervalMap.Meaning.{Disjoint, Clear, join, place}
use direct_libstorage.IntervalMap.Points.{Clear-Disjoint}
use direct_libstorage.StorageHelpers.Extents.{holds}
use direct_libstorage.VirtAddressMapping.{unmapped_offset}

-- 1 if the interval [a, b] at the offset `off` has the byte x.
unfoldable pub piece : ℕ → ℕ → ℕ → ℕ → ℕ
piece x a b off = if off == unmapped_offset then 0 else holds x off (suc b - a)

-- The number of intervals that have the byte x.
unfoldable pub used : ℕ → Intervals ℕ → ℕ
used x [] = 0
used x ((a, (b, off)) ∷ m) = piece x a b off + used x m

-- An offset that no interval has, if it is one.
abbrev pub Fresh : ℕ → Intervals ℕ → Type 0
Fresh off m = (off ≡ unmapped_offset) ⊎ (used off m ≡ 0)

piece-first : (a b off : ℕ) → a ≤ b → (off ≡ unmapped_offset) ⊎ (piece off a b off ≡ 1)
unfolding piece
piece-first a b off l = ground arith

Fresh-tail : (a b w off : ℕ) (m : Intervals ℕ) → Fresh off ((a, (b, w)) ∷ m) → Fresh off m
unfolding used
Fresh-tail a b w off m (inl e) = inl e
Fresh-tail a b w off m (inr z) = inr (omega (arith, z))

pub piece_unmapped : (x a b off : ℕ) → off ≡ unmapped_offset → piece x a b off ≡ 0
unfolding piece
piece_unmapped x a b off q = ground arith

-- An interval with the same value as a fresh one has no bytes, and neither has any other at it.
Fresh-piece :
    (x a b c d off : ℕ) (m : Intervals ℕ)
    → Fresh off ((a, (b, off)) ∷ m)
    → a ≤ b
    → piece x c d off ≡ 0
unfolding used
Fresh-piece x a b c d off m (inl e) l = piece_unmapped x c d off e
Fresh-piece x a b c d off m (inr z) l = elim (piece-first a b off l) [
  | inl e ↦ piece_unmapped x c d off e
  | inr o ↦ absurd (omega (arith, z, o))
]

-- Two intervals with the same fresh value have no bytes, and neither has what they are joined to.
Fresh-pieces :
    (x a b s e off w : ℕ) (m : Intervals ℕ)
    → Fresh off ((a, (b, w)) ∷ m)
    → a ≤ b
    → w ≡ off
    → (piece x a b w ≡ 0) × (piece x s e off ≡ 0) × (piece x s b off ≡ 0) × (piece x a e w ≡ 0)
Fresh-pieces x a b s e off w m f l q =
    let f' : Fresh off ((a, (b, off)) ∷ m) = subst (λ v. Fresh off ((a, (b, v)) ∷ m)) q f in
    rw q (
      Fresh-piece x a b a b off m f' l,
      Fresh-piece x a b s e off m f' l,
      Fresh-piece x a b s b off m f' l,
      Fresh-piece x a b a e off m f' l,
    )

used-join :
    (x s e off : ℕ) (m : Intervals ℕ)
    → Disjoint (suc e) m
    → Fresh off m
    → used x (join s e off m) ≡ piece x s e off + used x m
unfolding used join
used-join x s e off [] h f = omega arith
used-join x s e off ((a, (b, w)) ∷ m) h f = ground (arith, Fresh-pieces x a b s e off w m f h.1)

-- A fresh interval in its place, in a clear part of the map, adds its bytes to those in use.
pub used-place :
    (x s e lo off : ℕ) (m : Intervals ℕ)
    → Disjoint lo m
    → Clear s e m
    → s ≤ e
    → Fresh off m
    → used x (place s e off m) ≡ piece x s e off + used x m
unfolding used place
used-place x s e lo off [] h c l f = omega arith
used-place x s e lo off ((a, (b, w)) ∷ m) h c l f = ground (
  arith,
  Fresh-pieces x a b s e off w m f h.1,
  Fresh-tail a b w off m f,
  used-place x s e (suc b) off m h.3 c.1 l,
  used-join x s e off ((a, (b, w)) ∷ m),
  used-join x a e w m,
  Clear-Disjoint s e (suc b) m h.3 c.1,
)
