-- ===== src/StorageHelpers/Order.antt =====
-- The order of a SetOrderedBySize, and that get and splice take the smallest element that fits.
use direct_libstorage.Base.{
  ℕ, ◌≤◌, ◌<◌, ◌≡◌, refl, ◌⊎◌, inl, inr, Bool, true, false, Option, none, some, [], ◌∷◌, ◌++◌, ltb,
  if◌then◌else◌, arith, dec_lt, ap, sym, subst, ◌∙◌,
}
use direct_libstorage.StorageHelpers.{MultiMap, lower_bound, element, erase, insert, candidate, get}

test_true : (k size : ℕ) → k < size → ltb k size ≡ true
test_true k size h = ground arith

test_false : (k size : ℕ) → ¬ (k < size) → ltb k size ≡ false
test_false k size h = ground arith

module _ {T : Type 0} where
  -- The keys are at least `lo` and do not descend.
  abbrev pub IsSorted : ℕ → MultiMap T → Type 0
  IsSorted lo [] = Unit
  IsSorted lo ((k, t) ∷ d) = (lo ≤ k) × IsSorted k d

  -- All keys are below the bound.
  abbrev pub Smaller : ℕ → MultiMap T → Type 0
  Smaller hi [] = Unit
  Smaller hi ((k, t) ∷ d) = (k < hi) × Smaller hi d

  pub insert-IsSorted :
      (lo k : ℕ) (t : T) (d : MultiMap T) → lo ≤ k → IsSorted lo d → IsSorted lo (insert k t d)
  unfolding insert
  insert-IsSorted lo k t [] l h = (l, tt)
  insert-IsSorted lo k t ((j, u) ∷ d) l h = ground (arith, insert-IsSorted j k t d)

  -- The split of a sorted map at lower_bound(size).
  pub data Fit (size : ℕ) (d : MultiMap T) : Option (ℕ × T) → Type 0 where
    no_fit : Smaller size d → Fit size d none
    best_fit :
        (front : MultiMap T) (k : ℕ) (t : T) (back : MultiMap T)
        → d ≡ front ++ (k, t) ∷ back
        → Smaller size front
        → size ≤ k
        → IsSorted k back
        → erase (lower_bound size d) d ≡ front ++ back
        → Fit size d (some (k, t))

  Fit-cons :
      (size k : ℕ) (t : T) (d : MultiMap T)
      → k < size
      → {r : Option (ℕ × T)} → Fit size d r
      → Fit size ((k, t) ∷ d) r
  unfolding lower_bound erase
  Fit-cons size k t d l (no_fit h) = no_fit (l, h)
  Fit-cons size k t d l (best_fit front j u back e s o b q) =
      best_fit ((k, t) ∷ front) j u back (ap (◌∷◌ (k, t)) e) (l, s) o b
        (rw (test_true k size l) (ap (◌∷◌ (k, t)) q))

  pub lower_bound-Fit :
      (lo size : ℕ) (d : MultiMap T) → IsSorted lo d → Fit size d (element (lower_bound size d) d)
  unfolding lower_bound element erase
  lower_bound-Fit lo size [] h = no_fit tt
  lower_bound-Fit lo size ((k, t) ∷ d) h = elim (dec_lt k size) [
    | yes p ↦ rw (test_true k size p) (Fit-cons size k t d p (lower_bound-Fit k size d h.1))
    | no p ↦
        rw (test_false k size p)
          (best_fit [] k t d refl tt (omega arith) h.1 (rw (test_false k size p)))
  ]

  -- No key is in [size, atmost].
  abbrev pub Outside : ℕ → ℕ → MultiMap T → Type 0
  Outside size atmost [] = Unit
  Outside size atmost ((k, t) ∷ d) = ((k < size) ⊎ (atmost < k)) × Outside size atmost d

  Smaller-Outside : (size atmost : ℕ) (d : MultiMap T) → Smaller size d → Outside size atmost d
  Smaller-Outside size atmost [] h = tt
  Smaller-Outside size atmost ((k, t) ∷ d) h = (inl h.0, Smaller-Outside size atmost d h.1)

  Sorted-Outside :
      (size atmost lo : ℕ) (d : MultiMap T) → IsSorted lo d → atmost < lo → Outside size atmost d
  Sorted-Outside size atmost lo [] h l = tt
  Sorted-Outside size atmost lo ((k, t) ∷ d) h l =
      (inr (omega arith), Sorted-Outside size atmost k d h.1 (omega arith))

  Outside-append :
      (size atmost : ℕ) (front back : MultiMap T)
      → Outside size atmost front
      → Outside size atmost back
      → Outside size atmost (front ++ back)
  Outside-append size atmost [] back f b = b
  Outside-append size atmost (x ∷ front) back f b =
      (f.0, Outside-append size atmost front back f.1 b)

  -- What get does to the map: nothing, if no key is in the range asked for, or it takes out an element
  -- whose key is, such that the keys in front of it are below `size` and those behind it are not below
  -- its own.
  pub data Gets (default : T) (size atmost : ℕ) (d : MultiMap T)
      : (Bool × ℕ × T) × MultiMap T → Type 0 where
    misses : Outside size atmost d → Gets default size atmost d ((false, 0, default), d)
    takes :
        (front : MultiMap T) (k : ℕ) (t : T) (back : MultiMap T)
        → d ≡ front ++ (k, t) ∷ back
        → Smaller size front
        → size ≤ k
        → k ≤ atmost
        → IsSorted k back
        → Gets default size atmost d ((true, k, t), front ++ back)

  pub candidate-none :
      (size atmost : ℕ) (d : MultiMap T)
      → element (lower_bound size d) d ≡ none
      → candidate size atmost d ≡ none
  unfolding candidate
  candidate-none size atmost d q = ground arith

  pub candidate-some :
      (size atmost : ℕ) (d : MultiMap T) (k : ℕ) (t : T)
      → element (lower_bound size d) d ≡ some (k, t)
      → candidate size atmost d ≡ (if ltb atmost k then none else some (k, t))
  unfolding candidate
  candidate-some size atmost d k t q = ground arith

  get_miss :
      (default : T) (size atmost : ℕ) (d : MultiMap T)
      → candidate size atmost d ≡ none
      → get default size atmost d ≡ ((false, 0, default), d)
  unfolding get
  get_miss default size atmost d q = ground arith

  get_take :
      (default : T) (size atmost : ℕ) (d : MultiMap T) (k : ℕ) (t : T)
      → candidate size atmost d ≡ some (k, t)
      → get default size atmost d ≡ ((true, k, t), erase (lower_bound size d) d)
  unfolding get
  get_take default size atmost d k t q = ground arith

  Fit-Gets :
      (default : T) (size atmost : ℕ) (d : MultiMap T) {r : Option (ℕ × T)}
      → element (lower_bound size d) d ≡ r
      → Fit size d r
      → Gets default size atmost d (get default size atmost d)
  Fit-Gets default size atmost d q (no_fit h) =
      rw (get_miss default size atmost d (candidate-none size atmost d q))
        (misses (Smaller-Outside size atmost d h))
  Fit-Gets default size atmost d q (best_fit front k t back e s o b r) = elim (dec_lt atmost k) [
    | yes p ↦
        rw (get_miss default size atmost d (candidate-some size atmost d k t q ∙ ground arith)) (
          misses (
            subst (Outside size atmost) (sym e) (
              Outside-append size atmost front ((k, t) ∷ back) (Smaller-Outside size atmost front s)
                (inr p, Sorted-Outside size atmost k back b p))))
    | no p ↦
        rw
          (
            get_take default size atmost d k t (candidate-some size atmost d k t q ∙ ground arith),
            r,
          )
          (takes front k t back e s o (omega arith) b)
  ]

  -- On a sorted set, get takes out and answers the first of the smallest elements of at least the
  -- size asked for, if it is small enough, and otherwise answers false and changes nothing.
  pub get-Gets :
      (default : T) (size atmost : ℕ) (d : MultiMap T)
      → IsSorted 0 d
      → Gets default size atmost d (get default size atmost d)
  get-Gets default size atmost d h =
      Fit-Gets default size atmost d refl (lower_bound-Fit 0 size d h)
