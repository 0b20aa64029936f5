-- ===== src/IntervalMap/Update.antt =====
-- The public operations of include/storage/IntervalMap.hpp that change the map or walk over it.
use direct_libstorage.Base.{
  ℕ, min, max, true, none, some, [], ◌∷◌, Outcome, ok, ◌>>=◌, ◌>>◌, assert_on, Result, success,
  failure, ltb, leb, ◌==◌, if◌then◌else◌, Eq,
}
use direct_libstorage.Base.Words.{add64, sub64}
use direct_libstorage.StdMap.{next, deref, assign}
use direct_libstorage.IntervalMap.{Intervals, BeforeBegin, Call, emplace, find_it, has_range}
use direct_libstorage.IntervalMap.Insert.{insert_impl}
use direct_libstorage.IntervalMap.Delete.{del}

module _ {ℓ} {V : Type ℓ} ⦃e : Eq V⦄ (before : BeforeBegin V) where
  -- The result of del is not looked at.
  unfoldable pub set : ℕ → ℕ → V → Intervals V → Call V
  set start end v m = do deleted ← del before start end m; insert_impl before start end v deleted.0

  unfoldable pub insert : ℕ → ℕ → V → Intervals V → Call V
  insert start end v m = do
    taken ← has_range before start end m
    m' ← (if taken then (del before start end m >>= λ deleted. ok deleted.0) else ok m)
    insert_impl before start end v m'

module _ {ℓ κ} {V : Type ℓ} {S : Type κ} (f : ℕ → ℕ → V → S → S) where
  -- The rounds of for_each_interval from one iterator on: `f` is given the part of each interval that
  -- lies in [start, end], and changes the state that its closure refers to.
  unfoldable pub each_from : ℕ → ℕ → Intervals V → S → S
  each_from start end [] s = s
  each_from start end ((iv_start, (iv_end, v)) ∷ m) s =
      let s' = f (max iv_start start) (min iv_end end) v s in
      let rest = each_from start end m s' in if ltb end iv_start then s else rest

  -- The elements from an iterator on.
  unfoldable pub from_it : ℕ → Intervals V → Intervals V
  from_it it [] = []
  from_it it ((k, iv) ∷ m) = if k == it then (k, iv) ∷ m else from_it it m

  unfoldable pub for_each_interval : BeforeBegin V → ℕ → ℕ → Intervals V → S → Outcome S
  unfolding each_from from_it
  for_each_interval before start end m s = do
    it ← find_it before start true m
    ok (elim it [ none ↦ s | some i ↦ each_from start end (from_it i m) s ])

-- expand, of a map to numbers; `f` is given the interval's start, and its old and new end.
module _ {κ} {S : Type κ} (f : ℕ → ℕ → ℕ → S → S) where
  -- What follows when the new end is above the old one.
  unfoldable pub grow : ℕ → ℕ → ℕ → ℕ → Intervals ℕ → S → Outcome (Intervals ℕ × S × Result)
  grow iv_start iv_end size new_end m s =
      let grown : Intervals ℕ × S × Result = (
        assign iv_start (new_end, add64 size (sub64 new_end iv_end)) m,
        f iv_start iv_end new_end s,
        success,
      ) in
      elim (next iv_start m) [
        | none ↦ ok grown
        | some n_iv_start ↦ ok (if leb n_iv_start new_end then (m, s, failure) else grown)
      ]

  unfoldable pub expand :
      BeforeBegin ℕ → ℕ → ℕ → Intervals ℕ → S → Outcome (Intervals ℕ × S × Result)
  unfolding grow
  expand before start new_end m s = do
    it ← find_it before start true m
    elim it [
      | none ↦ ok (m, s, failure)
      | some iv_start ↦ do
        iv ← deref iv_start m
        assert_on (ltb start iv_start)
        assert_on (ltb new_end start)
        (if leb new_end iv.0
            then ok (assign iv_start (new_end, iv.1) m, f iv_start iv.0 new_end s, success)
            else grow iv_start iv.0 iv.1 new_end m s)
    ]

-- split: the interval at `it` keeps [iv_start, mid_left]; the rest gets the value that `f` makes.
unfoldable pub split {ℓ} : {V : Type ℓ} → (V → ℕ → ℕ → ℕ → ℕ → V) → ℕ → ℕ → Intervals V → Call V
split f it mid_left m = do
  iv ← deref it m
  assert_on (leb iv.0 mid_left)
  assert_on (ltb mid_left it)
  let mid_right = add64 mid_left 1
  m' ← emplace mid_right iv.0 (f iv.1 it mid_left mid_right iv.0) (assign it (mid_left, iv.1) m)
  ok (m', success)

-- clear
unfoldable pub clear {ℓ} : {V : Type ℓ} → Intervals V → Intervals V
clear m = []
