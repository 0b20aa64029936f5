-- ===== src/VirtAddressMapping/FreeRange.antt =====
-- for_each_interval with the closure of del of VirtAddressMapping, in include/storage/SimpleStorage.hpp.
use direct_libstorage.Base.{
  ℕ, suc, ◌+◌, ◌≤◌, ◌<◌, ◌≡◌, sym, subst, dec_le, ◌∙◌, refl, none, some, [], ◌∷◌, Outcome, true,
  ◌++◌, ok, arith,
}
use direct_libstorage.Base.Words.{word}
use direct_libstorage.StdMap.{Ascends}
use direct_libstorage.StdMap.Split.{Place, locate, Ascends-middle}
use direct_libstorage.IntervalMap.{Intervals, BeforeBegin, find_it}
use direct_libstorage.IntervalMap.Meaning.{Disjoint, value_at}
use direct_libstorage.IntervalMap.CutLaws.{Disjoint-middle}
use direct_libstorage.IntervalMap.FindLaws.{
  Disjoint-Ascends, deref-middle, find_it-after, find_it-below,
}
use direct_libstorage.IntervalMap.LookupLaws.{
  value_at-above, value_at-middle, find_it-checked, find_it-none,
}
use direct_libstorage.IntervalMap.Update.{for_each_interval, each_from, from_it}
use direct_libstorage.StorageHelpers.{MultiMap}
use direct_libstorage.VirtAddressMapping.{add_to_empty}
use direct_libstorage.VirtAddressMapping.Freed.{Whole, freed}
use direct_libstorage.VirtAddressMapping.FreeLoop.{
  Frees, Inside, Inside-tail, each_from-cons, each_from-Frees,
}

freed-front :
    (x s e lo : ℕ) (front : Intervals ℕ) (j b off : ℕ) (back : Intervals ℕ)
    → Disjoint lo (front ++ (j, (b, off)) ∷ back)
    → j ≤ s
    → freed x s e (front ++ (j, (b, off)) ∷ back) ≡ freed x s e ((j, (b, off)) ∷ back)
unfolding freed
freed-front x s e lo [] j b off back h l = refl
freed-front x s e lo ((i, (c, w)) ∷ front) j b off back h l = ground (
  arith,
  Disjoint-middle (suc c) front j b off back h.3,
  freed-front x s e (suc c) front j b off back h.3 l,
)

Whole-back : (s e : ℕ) (front m : Intervals ℕ) → Whole s e (front ++ m) → Whole s e m
Whole-back s e [] m u = u
Whole-back s e (iv ∷ front) m u = Whole-back s e front m u.1

Inside-back : (front m : Intervals ℕ) → Inside (front ++ m) → Inside m
Inside-back [] m i = i
Inside-back (iv ∷ front) m i = Inside-back front m (Inside-tail iv (front ++ m) i)

Frees-front :
    (s e : ℕ) (m n : Intervals ℕ) {r r' : ℕ × MultiMap ℕ}
    → ((x : ℕ) → freed x s e m ≡ freed x s e n)
    → Frees s e n r r'
    → Frees s e m r r'
Frees-front s e m n q f = record {
  counted = f.counted;
  unchanged = f.unchanged;
  extents = λ x. omega (arith, f.extents x, q x);
  sorted = f.sorted;
  in_space = f.in_space;
}

module _ (before : BeforeBegin ℕ) where
  from_it-middle :
      (lo : ℕ) (front : Intervals ℕ) (j : ℕ) (iv : ℕ × ℕ) (back : Intervals ℕ)
      → Ascends lo (front ++ (j, iv) ∷ back)
      → from_it (add_to_empty before) j (front ++ (j, iv) ∷ back) ≡ (j, iv) ∷ back
  unfolding from_it
  from_it-middle lo [] j iv back h = ground arith
  from_it-middle lo ((i, iw) ∷ front) j iv back h =
      ground (arith, Ascends-middle (suc i) front j iv back, from_it-middle (suc i) front j iv back)

  for_each-found :
      (s e lo j b off : ℕ) (front back : Intervals ℕ) (r : ℕ × MultiMap ℕ)
      → Disjoint lo (front ++ (j, (b, off)) ∷ back)
      → find_it before s true (front ++ (j, (b, off)) ∷ back) ≡ ok (some j)
      → for_each_interval (add_to_empty before) before s e (front ++ (j, (b, off)) ∷ back) r
        ≡ ok (each_from (add_to_empty before) s e ((j, (b, off)) ∷ back) r)
  unfolding for_each_interval
  for_each-found s e lo j b off front back r h q =
      rw (q, from_it-middle lo front j (b, off) back (Disjoint-Ascends lo _ h))

  for_each-missed :
      (s e : ℕ) (m : Intervals ℕ) (r : ℕ × MultiMap ℕ)
      → find_it before s true m ≡ ok none
      → for_each_interval (add_to_empty before) before s e m r ≡ ok r
  unfolding for_each_interval
  for_each-missed s e m r q = rw q

  -- What the loop answers: what it was given, if no interval has s, or with the intervals freed.
  pub data Loops (s e : ℕ) (m : Intervals ℕ) (r : ℕ × MultiMap ℕ)
      : Outcome (ℕ × MultiMap ℕ) → Type 0 where
    missed : value_at s m ≡ none → Loops s e m r (ok r)
    visited : (r' : ℕ × MultiMap ℕ) → Frees s e m r r' → Loops s e m r (ok r')

  Loops-after :
      (s e j b off : ℕ) (front back : Intervals ℕ) (r : ℕ × MultiMap ℕ)
      → Disjoint 0 (front ++ (j, (b, off)) ∷ back)
      → e + 1 < word
      → Whole s e (front ++ (j, (b, off)) ∷ back)
      → Inside (front ++ (j, (b, off)) ∷ back)
      → j ≤ s
      → Ascends (suc s) back
      → Loops s e
          (front ++ (j, (b, off)) ∷ back)
          r
          (for_each_interval (add_to_empty before) before s e (front ++ (j, (b, off)) ∷ back) r)
  Loops-after s e j b off front back r h w u i l a =
      let m : Intervals ℕ = front ++ (j, (b, off)) ∷ back in
      let asc = Disjoint-Ascends 0 m h in
      let mid = Disjoint-middle 0 front j b off back h in
      let found =
        find_it-checked before s j b off m (find_it-after before 0 s front j b off back asc l a)
          (deref-middle 0 front j b off back asc) in
      elim (dec_le s b) [
        | yes p ↦
            subst (Loops s e m r)
              (sym (for_each-found s e 0 j b off front back r h (found ∙ ground arith)))
              (visited (each_from (add_to_empty before) s e ((j, (b, off)) ∷ back) r) (
                Frees-front s e m ((j, (b, off)) ∷ back)
                  (λ x. freed-front x s e 0 front j b off back h l)
                  (each_from-cons before s e j j b off back r (omega arith, mid.1, mid.2, mid.3) p w
                    (Whole-back s e front _ u) (Inside-back front _ i)
                    λ t.
                      each_from-Frees before s e (suc b) back t mid.3 (omega arith) w
                        (Whole-back s e front _ u).1
                        (Inside-tail (j, (b, off)) back (Inside-back front _ i)))))
        | no p ↦
            subst (Loops s e m r) (sym (for_each-missed s e m r (found ∙ ground arith)))
              (missed (value_at-middle 0 s front j b off back h l a ∙ ground arith))
      ]

  -- With end() as the result of going back from begin(), for_each_interval with the closure of del
  -- on well-formed intervals does nothing, if no interval has the start of the range, or else
  -- frees the intervals inside of the range.
  pub for_each-Loops :
      (s e : ℕ) (m : Intervals ℕ) (r : ℕ × MultiMap ℕ)
      → ((n : Intervals ℕ) → before n ≡ none)
      → Disjoint 0 m
      → e + 1 < word
      → Whole s e m
      → Inside m
      → Loops s e m r (for_each_interval (add_to_empty before) before s e m r)
  for_each-Loops s e m r none_before h w u i = go (locate 0 s m (Disjoint-Ascends 0 m h))
    where
      go : Place s m → Loops s e m r (for_each_interval (add_to_empty before) before s e m r)
      go (Place.below a) =
          subst (Loops s e m r)
            (sym (
              for_each-missed s e m r
                (find_it-none before s m (find_it-below before s m (none_before m) a))))
            (missed (value_at-above s m a))
      go (Place.after front j (b, off) back q l a) =
          subst (λ n. Loops s e n r (for_each_interval (add_to_empty before) before s e n r))
            (sym q)
            (Loops-after s e j b off front back r (subst (Disjoint 0) q h) w (subst (Whole s e) q u)
              (subst Inside q i) l a)
