-- ===== src/IntervalMap/Points.antt =====
-- The reference definitions `cut` and `place`, point by point.
use direct_libstorage.Base.{
  ℕ, suc, ◌≤◌, ◌<◌, ◌≡◌, refl, inr, ◌&&◌, none, some, [], ◌∷◌, arith, Eq, LawfulEq, leb,
  if◌then◌else◌,
}
use direct_libstorage.Base.Words.{word}
use direct_libstorage.IntervalMap.{Intervals}
use direct_libstorage.IntervalMap.Meaning.{Disjoint, Clear, value_at, trim, cut, join, place}

module _ {V : Type 0} where
  value_at-below : (k lo : ℕ) (m : Intervals V) → Disjoint lo m → k < lo → value_at k m ≡ none
  unfolding value_at
  value_at-below k lo [] h l = refl
  value_at-below k lo ((a, (b, v)) ∷ m) h l = ground (arith, value_at-below k (suc b) m h.3)

  value_at-trim :
      (k e lo : ℕ) (m : Intervals V)
      → Disjoint lo m
      → value_at k (trim e m) ≡ (if leb k e then none else value_at k m)
  unfolding value_at trim
  value_at-trim k e lo [] h = ground arith
  value_at-trim k e lo ((a, (b, v)) ∷ m) h =
      ground (arith, value_at-trim k e (suc b) m h.3, value_at-below k (suc b) m h.3)

  -- cut removes the points of [s, e] and no other.
  pub value_at-cut :
      (k s e lo : ℕ) (m : Intervals V)
      → Disjoint lo m
      → s ≤ e
      → value_at k (cut s e m) ≡ (if leb s k && leb k e then none else value_at k m)
  unfolding value_at cut
  value_at-cut k s e lo [] h l = ground arith
  value_at-cut k s e lo ((a, (b, v)) ∷ m) h l = ground (
    arith,
    value_at-cut k s e (suc b) m h.3,
    value_at-trim k e (suc b) m h.3,
    value_at-trim k e lo ((a, (b, v)) ∷ m) h,
    value_at-below k (suc b) m h.3,
  )

  trim-Disjoint : (e lo : ℕ) (m : Intervals V) → Disjoint lo m → Disjoint (suc e) (trim e m)
  unfolding trim
  trim-Disjoint e lo [] h = tt
  trim-Disjoint e lo ((a, (b, v)) ∷ m) h = ground (arith, trim-Disjoint e (suc b) m h.3)

  lower : (lo lo' : ℕ) (m : Intervals V) → lo' ≤ lo → Disjoint lo m → Disjoint lo' m
  lower lo lo' [] l h = tt
  lower lo lo' ((a, (b, v)) ∷ m) l h = (omega arith, h.1, h.2, h.3)

  trim_keeps : (e lo : ℕ) (m : Intervals V) → Disjoint lo m → Disjoint lo (trim e m)
  unfolding trim
  trim_keeps e lo [] h = tt
  trim_keeps e lo ((a, (b, v)) ∷ m) h =
      ground (arith, lower (suc b) lo (trim e m) (omega arith) (trim_keeps e (suc b) m h.3))

  pub cut-Disjoint :
      (s e lo : ℕ) (m : Intervals V) → Disjoint lo m → s ≤ e → Disjoint lo (cut s e m)
  unfolding cut
  cut-Disjoint s e lo [] h l = tt
  cut-Disjoint s e lo ((a, (b, v)) ∷ m) h l = ground (
    arith,
    cut-Disjoint s e (suc b) m h.3,
    trim_keeps e lo ((a, (b, v)) ∷ m) h,
    lower (suc e) s (trim e m) (omega arith) (trim-Disjoint e (suc b) m h.3),
  )

  Disjoint-Clear : (s e : ℕ) (m : Intervals V) → Disjoint (suc e) m → Clear s e m
  Disjoint-Clear s e [] h = tt
  Disjoint-Clear s e ((a, (b, v)) ∷ m) h =
      (inr (omega arith), Disjoint-Clear s e m (lower (suc b) (suc e) m (omega arith) h.3))

  pub cut-Clear : (s e lo : ℕ) (m : Intervals V) → Disjoint lo m → s ≤ e → Clear s e (cut s e m)
  unfolding cut
  cut-Clear s e lo [] h l = tt
  cut-Clear s e lo ((a, (b, v)) ∷ m) h l = ground (
    arith,
    cut-Clear s e (suc b) m h.3,
    λ (p : e < b). Disjoint-Clear s e m (lower (suc b) (suc e) m (omega arith) h.3),
    Disjoint-Clear s e (trim e m) (trim-Disjoint e (suc b) m h.3),
    Disjoint-Clear s e (trim e ((a, (b, v)) ∷ m)) (trim-Disjoint e lo ((a, (b, v)) ∷ m) h),
  )

  -- What is clear already is left as it is.
  pub cut_lem : (s e lo : ℕ) (m : Intervals V) → Disjoint lo m → Clear s e m → s ≤ e → cut s e m ≡ m
  unfolding cut trim
  cut_lem s e lo [] h c l = refl
  cut_lem s e lo ((a, (b, v)) ∷ m) h c l = ground (arith, cut_lem s e (suc b) m h.3 c.1 l)

module _ {V : Type 0} ⦃e : Eq V⦄ ⦃law : LawfulEq V⦄ where
  value_at-join :
      (k s end : ℕ) (v : V) (m : Intervals V)
      → Disjoint (suc end) m
      → s ≤ end
      → value_at k (join s end v m) ≡ (if leb s k && leb k end then some v else value_at k m)
  unfolding value_at join
  value_at-join k s end v [] h l = ground arith
  value_at-join k s end v ((a, (b, w)) ∷ m) h l = ground (arith, law.same v w)

  pub Clear-Disjoint :
      (s end lo : ℕ) (m : Intervals V)
      → Disjoint lo m
      → Clear s end m
      → s ≤ lo
      → Disjoint (suc end) m
  Clear-Disjoint s end lo [] h c l = tt
  Clear-Disjoint s end lo ((a, (b, w)) ∷ m) h c l = (omega arith, h.1, h.2, h.3)

  -- place gives the points of [s, end] the value v, and changes no other.
  pub value_at-place :
      (k s end lo : ℕ) (v : V) (m : Intervals V)
      → Disjoint lo m
      → Clear s end m
      → s ≤ end
      → value_at k (place s end v m) ≡ (if leb s k && leb k end then some v else value_at k m)
  unfolding value_at place
  value_at-place k s end lo v [] h c l = ground arith
  value_at-place k s end lo v ((a, (b, w)) ∷ m) h c l = ground (
    arith,
    law.same v w,
    value_at-place k s end (suc b) v m h.3 c.1 l,
    value_at-join k s end v ((a, (b, w)) ∷ m),
    value_at-join k a end w m,
    Clear-Disjoint s end (suc b) m h.3 c.1,
  )

  join-Disjoint :
      (s end lo : ℕ) (v : V) (m : Intervals V)
      → Disjoint (suc end) m
      → s ≤ end
      → lo ≤ s
      → end < word
      → Disjoint lo (join s end v m)
  unfolding join
  join-Disjoint s end lo v [] h l o w = (o, l, w, tt)
  join-Disjoint s end lo v ((a, (b, x)) ∷ m) h l o w = ground arith

  pub place-Disjoint :
      (s end lo : ℕ) (v : V) (m : Intervals V)
      → Disjoint lo m
      → Clear s end m
      → s ≤ end
      → lo ≤ s
      → end < word
      → Disjoint lo (place s end v m)
  unfolding place
  place-Disjoint s end lo v [] h c l o w = (o, l, w, tt)
  place-Disjoint s end lo v ((a, (b, x)) ∷ m) h c l o w = ground (
    arith,
    place-Disjoint s end (suc b) v m h.3 c.1 l,
    join-Disjoint s end lo v ((a, (b, x)) ∷ m),
    join-Disjoint a end lo x m,
    Clear-Disjoint s end (suc b) m h.3 c.1,
  )
