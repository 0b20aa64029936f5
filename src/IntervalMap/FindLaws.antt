-- ===== src/IntervalMap/FindLaws.antt =====
-- find_it on a well-formed map: it finds the last interval that starts at or before k.
use direct_libstorage.Base.{ℕ, suc, ◌≤◌, ◌≡◌, refl, false, none, some, [], ◌∷◌, ◌++◌, ok, arith}
use direct_libstorage.StdMap.{Ascends, begin, upper_bound, prev, deref, last_below}
use direct_libstorage.StdMap.Split.{
  upper_bound-begin, upper_bound-middle, last_below-middle, last-middle, find-middle,
}
use direct_libstorage.IntervalMap.{Intervals, BeforeBegin, find_it, step_back}
use direct_libstorage.IntervalMap.Meaning.{Disjoint}

module _ {V : Type 0} where
  pub Disjoint-Ascends : (lo : ℕ) (m : Intervals V) → Disjoint lo m → Ascends lo m
  Disjoint-Ascends lo [] h = tt
  Disjoint-Ascends lo ((a, (b, v)) ∷ m) h = (h.0, weaken (suc a) (suc b) m (omega arith) h.3)
    where
      weaken : (lo lo' : ℕ) (m : Intervals V) → lo ≤ lo' → Disjoint lo' m → Ascends lo m
      weaken lo lo' [] l h = tt
      weaken lo lo' ((a, (b, v)) ∷ m) l h =
          (omega arith, weaken (suc a) (suc b) m (omega arith) h.3)

  -- deref at an element in the middle.
  pub deref-middle :
      (lo : ℕ) (front : Intervals V) (j b : ℕ) (v : V) (back : Intervals V)
      → Ascends lo (front ++ (j, (b, v)) ∷ back)
      → deref j (front ++ (j, (b, v)) ∷ back) ≡ ok (b, v)
  unfolding deref
  deref-middle lo front j b v back h = ground (arith, find-middle lo front j (b, v) back h)

module _ {V : Type 0} (before : BeforeBegin V) where
  step_back-middle :
      (lo k : ℕ) (front : Intervals V) (j : ℕ) (iv : ℕ × V) (back : Intervals V)
      → Ascends lo (front ++ (j, iv) ∷ back)
      → j ≤ k
      → Ascends (suc k) back
      → step_back before (begin back) (front ++ (j, iv) ∷ back) ≡ some j
  unfolding step_back prev begin
  step_back-middle lo k [] j iv [] h l u = last-middle [] j iv
  step_back-middle lo k ((i, iw) ∷ front) j iv [] h l u = last-middle ((i, iw) ∷ front) j iv
  step_back-middle lo k front j iv ((i, iw) ∷ back) h l u =
      ground (
        arith,
        last_below-middle lo i front j iv ((i, iw) ∷ back) h (omega arith) (omega arith, u.1),
      )

  pub find_it-after :
      (lo k : ℕ) (front : Intervals V) (j b : ℕ) (v : V) (back : Intervals V)
      → Ascends lo (front ++ (j, (b, v)) ∷ back)
      → j ≤ k
      → Ascends (suc k) back
      → find_it before k false (front ++ (j, (b, v)) ∷ back) ≡ ok (some j)
  unfolding find_it
  find_it-after lo k front j b v back h l u = rw (
    upper_bound-middle lo k front j (b, v) back h l,
    upper_bound-begin k back u,
    step_back-middle lo k front j (b, v) back h l u,
    find_it,
    deref-middle lo front j b v back h,
  )

  pub find_it-below :
      (k : ℕ) (m : Intervals V)
      → before m ≡ none
      → Ascends (suc k) m
      → find_it before k false m ≡ ok none
  unfolding find_it step_back upper_bound prev last_below
  find_it-below k [] back h = refl
  find_it-below k ((j, iv) ∷ m) back h = ground arith
