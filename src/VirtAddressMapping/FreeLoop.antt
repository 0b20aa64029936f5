-- ===== src/VirtAddressMapping/FreeLoop.antt =====
-- The closure of del of VirtAddressMapping, in include/storage/SimpleStorage.hpp, over the intervals of
-- a range that holds each mapped interval wholly or not at all.
use direct_libstorage.Base.{
  ℕ, suc, ◌+◌, ◌-◌, ◌≤◌, ◌<◌, ◌≡◌, sym, ap, subst, dec_lt, ◌≢◌, ◌∙◌, refl, ◌⊎◌, inl, inr, [], ◌∷◌,
  arith, min, max,
}
use direct_libstorage.Base.Words.{word}
use direct_libstorage.IntervalMap.{Intervals, BeforeBegin}
use direct_libstorage.IntervalMap.Meaning.{Disjoint}
use direct_libstorage.IntervalMap.Update.{each_from}
use direct_libstorage.StorageHelpers.{MultiMap, insert}
use direct_libstorage.StorageHelpers
use direct_libstorage.StorageHelpers.Order.{IsSorted, insert-IsSorted}
use direct_libstorage.StorageHelpers.Extents.{covers, covers-insert, InSpace, InSpace-insert}
use direct_libstorage.VirtAddressMapping.{unmapped_offset, add_to_empty}
use direct_libstorage.VirtAddressMapping.LookupLaws.{size_from_start_end_lem}
use direct_libstorage.VirtAddressMapping.Freed.{Whole, freed, freed_above}
use direct_libstorage.VirtAddressMapping.Used.{piece, used, piece_unmapped}

-- What the closure leaves of the count of freed ranges and the set of free extents.
pub record Frees (s e : ℕ) (m : Intervals ℕ) (old new : ℕ × MultiMap ℕ) : Type 0 where
  pub counted : old.0 ≤ new.0
  pub unchanged : new.0 ≡ old.0 → new.1 ≡ old.1
  pub extents : (x : ℕ) → covers x new.1 ≡ covers x old.1 + freed x s e m
  pub sorted : IsSorted 0 old.1 → IsSorted 0 new.1
  pub in_space : InSpace old.1 → InSpace new.1

-- The bytes of the intervals are in the address space.
abbrev pub Inside : Intervals ℕ → Type 0
Inside m = (x : ℕ) → 0 < used x m → suc x < word

Inside-first :
    (a b off : ℕ) (m : Intervals ℕ)
    → Inside ((a, (b, off)) ∷ m)
    → a ≤ b
    → (off ≡ unmapped_offset) ⊎ (off + (b + 1 - a) < word)
unfolding used piece
Inside-first a b off m i l = ground (arith, i (off + (b - a)))

Frees-same :
    (s e : ℕ) (m : Intervals ℕ) (r : ℕ × MultiMap ℕ)
    → ((x : ℕ) → freed x s e m ≡ 0)
    → Frees s e m r r
Frees-same s e m r z = record {
  counted = omega arith;
  unchanged = λ q. refl;
  extents = λ x. omega (arith, z x);
  sorted = λ h. h;
  in_space = λ h. h;
}

Frees-trans :
    (s e : ℕ) (iv : ℕ × (ℕ × ℕ)) (m : Intervals ℕ) {r r' r'' : ℕ × MultiMap ℕ}
    → Frees s e (iv ∷ []) r r'
    → Frees s e m r' r''
    → Frees s e (iv ∷ m) r r''
unfolding freed
Frees-trans s e (a, (b, off)) m f g = record {
  counted = omega (arith, f.counted, g.counted);
  unchanged = λ q.
      g.unchanged (omega (arith, f.counted, g.counted, q))
      ∙ f.unchanged (omega (arith, f.counted, g.counted, q));
  extents = λ x. omega (arith, f.extents x, g.extents x);
  sorted = λ h. g.sorted (f.sorted h);
  in_space = λ h. g.in_space (f.in_space h);
}

pub Inside-tail : (iv : ℕ × (ℕ × ℕ)) (m : Intervals ℕ) → Inside (iv ∷ m) → Inside m
unfolding used
Inside-tail iv m i x l = i x (omega (arith, l))

module _ (before : BeforeBegin ℕ) where
  add_to_empty_skips :
      (c d : ℕ) (r : ℕ × MultiMap ℕ) → add_to_empty before c d unmapped_offset r ≡ r
  unfolding add_to_empty
  add_to_empty_skips c d (count, empty) = ground arith

  add_to_empty_adds :
      (a b off : ℕ) (r : ℕ × MultiMap ℕ)
      → a ≤ b
      → b + 1 < word
      → off ≢ unmapped_offset
      → add_to_empty before a b off r ≡ (r.0 + 1, insert (b + 1 - a) off r.1)
  unfolding add_to_empty StorageHelpers.add
  add_to_empty_adds a b off (count, empty) l w u =
      rw (size_from_start_end_lem a b l w) (ground arith)

  Frees-adds :
      (s e a b off : ℕ) (r : ℕ × MultiMap ℕ)
      → s ≤ a
      → a ≤ b
      → b ≤ e
      → off ≢ unmapped_offset
      → off + (b + 1 - a) < word
      → Frees s e ((a, (b, off)) ∷ []) r (r.0 + 1, insert (b + 1 - a) off r.1)
  unfolding freed piece
  Frees-adds s e a b off r l o u q w = record {
    counted = omega arith;
    unchanged = λ p. absurd (omega arith);
    extents = λ x. ground (arith, covers-insert x (b + 1 - a) off r.1);
    sorted = λ h. insert-IsSorted 0 (b + 1 - a) off r.1 (omega arith) h;
    in_space = λ h. InSpace-insert (b + 1 - a) off r.1 w h;
  }

  Frees-skips :
      (s e a b c d off : ℕ) (r : ℕ × MultiMap ℕ)
      → off ≡ unmapped_offset
      → Frees s e ((a, (b, off)) ∷ []) r (add_to_empty before c d off r)
  unfolding freed
  Frees-skips s e a b c d off r q =
      subst (Frees s e ((a, (b, off)) ∷ []) r)
        (sym (add_to_empty_skips c d r) ∙ ap (λ v. add_to_empty before c d v r) (sym q))
        (Frees-same s e ((a, (b, off)) ∷ []) r λ x. ground (arith, piece_unmapped x a b off q))

  Frees-inside :
      (s e a b off : ℕ) (r : ℕ × MultiMap ℕ)
      → s ≤ a
      → a ≤ b
      → b ≤ e
      → e + 1 < word
      → off + (b + 1 - a) < word
      → Frees s e ((a, (b, off)) ∷ []) r (add_to_empty before (max a s) (min b e) off r)
  Frees-inside s e a b off r l o u v w =
      let left : max a s ≡ a = omega arith in
      let right : min b e ≡ b = omega arith in
      rw (left, right, add_to_empty_adds a b off r o (omega arith) (λ q. omega arith))
        (Frees-adds s e a b off r l o u (λ q. omega arith) w)

  -- One round of the loop.
  Frees-first :
      (s e a b off : ℕ) (m : Intervals ℕ) (r : ℕ × MultiMap ℕ)
      → a ≤ b
      → s ≤ b
      → a ≤ e
      → e + 1 < word
      → Whole s e ((a, (b, off)) ∷ m)
      → Inside ((a, (b, off)) ∷ m)
      → Frees s e ((a, (b, off)) ∷ []) r (add_to_empty before (max a s) (min b e) off r)
  Frees-first s e a b off m r l o u v (inl q, rest) i =
      Frees-skips s e a b (max a s) (min b e) off r q
  Frees-first s e a b off m r l o u v (inr (inl q), rest) i = absurd (omega arith)
  Frees-first s e a b off m r l o u v (inr (inr (inl q)), rest) i = absurd (omega arith)
  Frees-first s e a b off m r l o u v (inr (inr (inr q)), rest) i =
      elim (Inside-first a b off m i l) [
        | inl p ↦ Frees-skips s e a b (max a s) (min b e) off r p
        | inr w ↦ Frees-inside s e a b off r q.0 l q.1 v w
      ]

  each_from-stop :
      (s e a b off : ℕ) (m : Intervals ℕ) (r : ℕ × MultiMap ℕ)
      → e < a
      → each_from (add_to_empty before) s e ((a, (b, off)) ∷ m) r ≡ r
  unfolding each_from
  each_from-stop s e a b off m r l = ground arith

  each_from-round :
      (s e a b off : ℕ) (m : Intervals ℕ) (r : ℕ × MultiMap ℕ)
      → a ≤ e
      → each_from (add_to_empty before) s e ((a, (b, off)) ∷ m) r
        ≡ each_from (add_to_empty before) s e m (add_to_empty before (max a s) (min b e) off r)
  unfolding each_from
  each_from-round s e a b off m r l = ground arith

  pub each_from-cons :
      (s e lo a b off : ℕ) (m : Intervals ℕ) (r : ℕ × MultiMap ℕ)
      → Disjoint lo ((a, (b, off)) ∷ m)
      → s ≤ b
      → e + 1 < word
      → Whole s e ((a, (b, off)) ∷ m)
      → Inside ((a, (b, off)) ∷ m)
      → ((t : ℕ × MultiMap ℕ) → Frees s e m t (each_from (add_to_empty before) s e m t))
      → Frees s e ((a, (b, off)) ∷ m) r (each_from (add_to_empty before) s e ((a, (b, off)) ∷ m) r)
  each_from-cons s e lo a b off m r h l w u i rest = elim (dec_lt e a) [
    | yes p ↦ subst (Frees s e ((a, (b, off)) ∷ m) r) (sym (each_from-stop s e a b off m r p)) (
        Frees-same s e ((a, (b, off)) ∷ m) r
          λ x. freed_above x s e a ((a, (b, off)) ∷ m) (omega arith, h.1, h.2, h.3) p)
    | no p ↦
        subst (Frees s e ((a, (b, off)) ∷ m) r)
          (sym (each_from-round s e a b off m r (omega arith)))
          (Frees-trans s e (a, (b, off)) m (Frees-first s e a b off m r h.1 l (omega arith) w u i)
            (rest (add_to_empty before (max a s) (min b e) off r)))
  ]

  pub each_from-Frees :
      (s e lo : ℕ) (m : Intervals ℕ) (r : ℕ × MultiMap ℕ)
      → Disjoint lo m
      → s ≤ lo
      → e + 1 < word
      → Whole s e m
      → Inside m
      → Frees s e m r (each_from (add_to_empty before) s e m r)
  unfolding each_from freed
  each_from-Frees s e lo [] r h l w u i = Frees-same s e [] r (λ x. refl)
  each_from-Frees s e lo ((a, (b, off)) ∷ m) r h l w u i =
      each_from-cons s e lo a b off m r h (omega arith) w u i (λ t.
        each_from-Frees s e (suc b) m t h.3 (omega arith) w u.1 (Inside-tail (a, (b, off)) m i))
