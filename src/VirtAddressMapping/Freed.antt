-- ===== src/VirtAddressMapping/Freed.antt =====
-- The bytes of a file that del of VirtAddressMapping, in include/storage/SimpleStorage.hpp, takes from
-- the intervals of a range.
use direct_libstorage.Base.{
  ℕ, suc, ◌+◌, ◌-◌, ◌≤◌, ◌<◌, ◌≡◌, refl, ◌⊎◌, ◌&&◌, [], ◌∷◌, leb, if◌then◌else◌, arith,
}
use direct_libstorage.IntervalMap.{Intervals}
use direct_libstorage.IntervalMap.Meaning.{Disjoint, trim, cut}
use direct_libstorage.VirtAddressMapping.{unmapped_offset}
use direct_libstorage.VirtAddressMapping.Used.{piece, used, piece_unmapped}

-- The range [s, e] has each interval that is mapped wholly, or not at all.
abbrev pub Whole : ℕ → ℕ → Intervals ℕ → Type 0
Whole s e [] = Unit
Whole s e ((a, (b, off)) ∷ m) =
    ((off ≡ unmapped_offset) ⊎ (b < s) ⊎ (e < a) ⊎ ((s ≤ a) × (b ≤ e))) × Whole s e m

-- The number of intervals inside of [s, e] that have the byte x.
unfoldable pub freed : ℕ → ℕ → ℕ → Intervals ℕ → ℕ
freed x s e [] = 0
freed x s e ((a, (b, off)) ∷ m) =
    (if leb s a && leb b e then piece x a b off else 0) + freed x s e m

pub freed_above : (x s e lo : ℕ) (m : Intervals ℕ) → Disjoint lo m → e < lo → freed x s e m ≡ 0
unfolding freed
freed_above x s e lo [] h l = refl
freed_above x s e lo ((a, (b, off)) ∷ m) h l = ground (arith, freed_above x s e (suc b) m h.3)

used-trim :
    (x s e lo : ℕ) (m : Intervals ℕ)
    → Disjoint lo m
    → s ≤ lo
    → Whole s e m
    → used x (trim e m) + freed x s e m ≡ used x m
unfolding used trim freed
used-trim x s e lo [] h l u = refl
used-trim x s e lo ((a, (b, off)) ∷ m) h l u = ground (
  arith,
  used-trim x s e (suc b) m h.3,
  freed_above x s e (suc b) m h.3,
  piece_unmapped x a b off,
  piece_unmapped x (suc e) b off,
)

-- Cutting the range out of the map takes away the bytes of the intervals inside.
pub used-cut :
    (x s e lo : ℕ) (m : Intervals ℕ)
    → Disjoint lo m
    → s ≤ e
    → Whole s e m
    → used x (cut s e m) + freed x s e m ≡ used x m
unfolding used cut freed
used-cut x s e lo [] h l u = refl
used-cut x s e lo ((a, (b, off)) ∷ m) h l u = ground (
  arith,
  used-cut x s e (suc b) m h.3,
  used-trim x s e (suc b) m h.3,
  used-trim x s e s ((a, (b, off)) ∷ m),
  freed_above x s e (suc b) m h.3,
  piece_unmapped x a b off,
  piece_unmapped x a (s - 1) off,
  piece_unmapped x (suc e) b off,
)
