-- ===== src/IntervalMap/LookupLaws.antt =====
-- What find, has and has(start, end) of include/storage/IntervalMap.hpp answer, in terms of the
-- partial function that the map stands for; and insert, which asks has(start, end) first.
use direct_libstorage.Base.{
  ℕ, suc, ◌≤◌, ◌<◌, ◌≡◌, refl, sym, subst, ◌∙◌, inl, inr, Bool, true, false, ◌&&◌, Option, none,
  some, [], ◌∷◌, ◌++◌, Outcome, ok, ◌>>=◌, arith, Eq, LawfulEq, leb, if◌then◌else◌, dec_le, min,
}
use direct_libstorage.StdMap.{Ascends, begin, deref, find}
use direct_libstorage.StdMap.Split.{Place, locate, Ascends-weaken}
use direct_libstorage.IntervalMap.{
  Intervals, BeforeBegin, find_it, find_interval, has, has_range, overlaps,
}
use direct_libstorage.IntervalMap.Meaning.{Disjoint, Clear, value_at}
use direct_libstorage.IntervalMap.CutLaws.{Disjoint-middle}
use direct_libstorage.IntervalMap.Points.{cut_lem}
use direct_libstorage.IntervalMap.FindLaws.{
  Disjoint-Ascends, deref-middle, find_it-after, find_it-below,
}
use direct_libstorage.IntervalMap.Update.{set, insert}
use direct_libstorage.IntervalMap.DeleteLaws.{del-cut}

abbrev pub is_some : {A : Type 0} → Option A → Bool
is_some none = false
is_some (some a) = true

module _ {V : Type 0} where
  pub value_at-above : (k : ℕ) (m : Intervals V) → Ascends (suc k) m → value_at k m ≡ none
  unfolding value_at
  value_at-above k [] h = refl
  value_at-above k ((a, (b, v)) ∷ m) h = ground (arith, value_at-above_rest k a m h.1)
    where
      value_at-above_rest :
          (k a : ℕ) (m : Intervals V) → Ascends (suc a) m → k < a → value_at k m ≡ none
      value_at-above_rest k a [] h l = refl
      value_at-above_rest k a ((i, (c, w)) ∷ m) h l = ground (arith, value_at-above_rest k i m h.1)

  pub value_at-middle :
      (lo k : ℕ) (front : Intervals V) (j b : ℕ) (v : V) (back : Intervals V)
      → Disjoint lo (front ++ (j, (b, v)) ∷ back)
      → j ≤ k
      → Ascends (suc k) back
      → value_at k (front ++ (j, (b, v)) ∷ back) ≡ (if leb k b then some v else none)
  unfolding value_at
  value_at-middle lo k [] j b v back h l u = ground (arith, value_at-above k back u)
  value_at-middle lo k ((i, (c, w)) ∷ front) j b v back h l u = ground (
    arith,
    Disjoint-middle (suc c) front j b v back h.3,
    value_at-middle (suc c) k front j b v back h.3 l u,
  )

  -- What find_interval answers: no interval, or the one that holds k.
  pub data Finds (k : ℕ) (m : Intervals V) : Outcome (Option ℕ) → Type 0 where
    nothing : value_at k m ≡ none → Finds k m (ok none)
    interval :
        (start end : ℕ) (v : V)
        → deref start m ≡ ok (end, v)
        → start ≤ k
        → k ≤ end
        → value_at k m ≡ some v
        → Finds k m (ok (some start))

module _ {V : Type 0} (before : BeforeBegin V) where
  pub find_it-checked :
      (k j b : ℕ) (v : V) (m : Intervals V)
      → find_it before k false m ≡ ok (some j)
      → deref j m ≡ ok (b, v)
      → find_it before k true m ≡ ok (if leb j k && leb k b then some j else none)
  unfolding find_it
  find_it-checked k j b v m h d = ground arith

  pub find_it-none :
      (k : ℕ) (m : Intervals V)
      → find_it before k false m ≡ ok none
      → find_it before k true m ≡ ok none
  unfolding find_it
  find_it-none k m h = ground arith

  find_interval-after :
      (lo k : ℕ) (front : Intervals V) (j b : ℕ) (v : V) (back : Intervals V)
      → Disjoint lo (front ++ (j, (b, v)) ∷ back)
      → j ≤ k
      → Ascends (suc k) back
      → Finds k (front ++ (j, (b, v)) ∷ back) (find_interval before k (front ++ (j, (b, v)) ∷ back))
  unfolding find_interval
  find_interval-after lo k front j b v back h l u =
      let asc = Disjoint-Ascends lo _ h in
      let d = deref-middle lo front j b v back asc in
      let at = value_at-middle lo k front j b v back h l u in
      let found =
        find_it-checked k j b v _ (find_it-after before lo k front j b v back asc l u) d in
      elim (dec_le k b) [
        | yes p ↦
            subst (Finds k _) (sym (found ∙ ground arith))
              (interval j b v d l p (at ∙ ground arith))
        | no p ↦ subst (Finds k _) (sym (found ∙ ground arith)) (nothing (at ∙ ground arith))
      ]

  -- With end() as the result of going back from begin(), find on a well-formed map answers the
  -- interval that holds k exactly if there is one.
  pub find_interval-Finds :
      (k : ℕ) (m : Intervals V)
      → ((n : Intervals V) → before n ≡ none)
      → Disjoint 0 m
      → Finds k m (find_interval before k m)
  unfolding find_interval
  find_interval-Finds k m none_before h = go (locate 0 k m (Disjoint-Ascends 0 m h))
    where
      go : Place k m → Finds k m (find_interval before k m)
      go (Place.below u) =
          rw (find_it-none k m (find_it-below before k m (none_before m) u))
            (nothing (value_at-above k m u))
      go (Place.after front j (b, v) back e l u) =
          subst (λ n. Finds k n (find_interval before k n)) (sym e)
            (find_interval-after 0 k front j b v back (subst (Disjoint 0) e h) l u)

  Finds-is_some :
      (k : ℕ) (m : Intervals V) {r : Outcome (Option ℕ)}
      → Finds k m r
      → (r >>= λ it. ok (is_some it)) ≡ ok (is_some (value_at k m))
  Finds-is_some k m (nothing e) = rw e
  Finds-is_some k m (interval start end v d l o e) = rw e

  -- With end() as the result of going back from begin(), has(k) on a well-formed map says whether
  -- k has a value.
  has_lem :
      (k : ℕ) (m : Intervals V)
      → ((n : Intervals V) → before n ≡ none)
      → Disjoint 0 m
      → has before k m ≡ ok (is_some (value_at k m))
  unfolding has find_interval
  has_lem k m none_before h = Finds-is_some k m (find_interval-Finds k m none_before h)

module _ {V : Type 0} where
  Clear-above : (start end lo : ℕ) (m : Intervals V) → Ascends lo m → end < lo → Clear start end m
  Clear-above start end lo [] u l = tt
  Clear-above start end lo ((a, (c, w)) ∷ m) u l =
      (inr (omega arith), Clear-above start end (suc a) m u.1 (omega arith))

  Clear-after :
      (lo start end : ℕ) (front : Intervals V) (j b : ℕ) (v : V) (back : Intervals V)
      → Disjoint lo (front ++ (j, (b, v)) ∷ back)
      → b < start
      → Ascends (suc end) back
      → Clear start end (front ++ (j, (b, v)) ∷ back)
  Clear-after lo start end [] j b v back h l u =
      (inl l, Clear-above start end (suc end) back u (omega arith))
  Clear-after lo start end ((i, (c, w)) ∷ front) j b v back h l u =
      let low = Disjoint-middle (suc c) front j b v back h.3 in
      (inl (omega arith), Clear-after (suc c) start end front j b v back h.3 l u)

  -- What has(start, end) answers.
  pub data Meets (start end : ℕ) (m : Intervals V) : Outcome Bool → Type 0 where
    disjoint : Clear start end m → Meets start end m (ok false)
    shared :
        (k : ℕ) (v : V) → start ≤ k → k ≤ end → value_at k m ≡ some v → Meets start end m (ok true)

module _ {V : Type 0} (before : BeforeBegin V) where
  has_range-after :
      (lo start end : ℕ) (front : Intervals V) (j b : ℕ) (v : V) (back : Intervals V)
      → Disjoint lo (front ++ (j, (b, v)) ∷ back)
      → start ≤ end
      → j ≤ end
      → Ascends (suc end) back
      → has_range before start end (front ++ (j, (b, v)) ∷ back) ≡ ok (leb start b)
  unfolding has_range overlaps
  has_range-after lo start end front j b v back h o l u =
      let asc = Disjoint-Ascends lo _ h in
      let (low, order, bound, rest) = Disjoint-middle lo front j b v back h in
      rw
        (find_it-after before lo end front j b v back asc l u, deref-middle lo front j b v back asc)
        (ground arith)

  has_range-below :
      (start end : ℕ) (m : Intervals V)
      → before m ≡ none
      → Disjoint 0 m
      → start ≤ end
      → Ascends (suc end) m
      → has_range before start end m ≡ ok false
  unfolding has_range overlaps begin deref find
  has_range-below start end [] none_before h o u = rw (find_it-below before end [] none_before u)
  has_range-below start end ((a, (b, v)) ∷ m) none_before h o u =
      rw (find_it-below before end ((a, (b, v)) ∷ m) none_before u) (ground arith)

  Meets-after :
      (lo start end : ℕ) (front : Intervals V) (j b : ℕ) (v : V) (back : Intervals V)
      → Disjoint lo (front ++ (j, (b, v)) ∷ back)
      → start ≤ end
      → j ≤ end
      → Ascends (suc end) back
      → Meets start end
          (front ++ (j, (b, v)) ∷ back)
          (has_range before start end (front ++ (j, (b, v)) ∷ back))
  Meets-after lo start end front j b v back h o l u =
      let (low, order, bound, rest) = Disjoint-middle lo front j b v back h in
      let answer = has_range-after lo start end front j b v back h o l u in
      elim (dec_le start b) [
        | yes p ↦ subst (Meets start end _) (sym (answer ∙ ground arith)) (
            shared (min b end) v (omega arith) (omega arith) (
              value_at-middle lo (min b end) front j b v back h (omega arith)
                (Ascends-weaken (suc end) (suc (min b end)) back (omega arith) u)
              ∙ ground arith))
        | no p ↦
            subst (Meets start end _) (sym (answer ∙ ground arith))
              (disjoint (Clear-after lo start end front j b v back h (omega arith) u))
      ]

  -- With end() as the result of going back from begin(), has(start, end) on a well-formed map,
  -- start at most end, answers true only if some point of [start, end] has a value, and false
  -- only if no interval meets [start, end].
  pub has_range-Meets :
      (start end : ℕ) (m : Intervals V)
      → ((n : Intervals V) → before n ≡ none)
      → Disjoint 0 m
      → start ≤ end
      → Meets start end m (has_range before start end m)
  has_range-Meets start end m none_before h o = go (locate 0 end m (Disjoint-Ascends 0 m h))
    where
      go : Place end m → Meets start end m (has_range before start end m)
      go (Place.below u) =
          rw (has_range-below start end m (none_before m) h o u)
            (disjoint (Clear-above start end (suc end) m u (omega arith)))
      go (Place.after front j (b, v) back e l u) =
          subst (λ n. Meets start end n (has_range before start end n)) (sym e)
            (Meets-after 0 start end front j b v back (subst (Disjoint 0) e h) o l u)

module _ {V : Type 0} ⦃e : Eq V⦄ ⦃law : LawfulEq V⦄ (before : BeforeBegin V) where
  insert-Meets :
      (start end : ℕ) (v : V) (m : Intervals V) {r : Outcome Bool}
      → ((n : Intervals V) → before n ≡ none)
      → Disjoint 0 m
      → start ≤ end
      → has_range before start end m ≡ r
      → Meets start end m r
      → insert before start end v m ≡ set before start end v m
  unfolding insert set
  insert-Meets start end v m none_before h o q (disjoint c) =
      rw (q, del-cut before 0 start end m none_before h o, cut_lem start end 0 m h c o)
  insert-Meets start end v m none_before h o q (shared k w l u p) =
      rw (q, del-cut before 0 start end m none_before h o)

  -- With end() as the result of going back from begin(), insert and set of [start, end], start at
  -- most end, are the same operation on a well-formed map.
  pub insert-eq-set :
      (start end : ℕ) (v : V) (m : Intervals V)
      → ((n : Intervals V) → before n ≡ none)
      → Disjoint 0 m
      → start ≤ end
      → insert before start end v m ≡ set before start end v m
  insert-eq-set start end v m none_before h o =
      insert-Meets start end v m none_before h o refl
        (has_range-Meets before start end m none_before h o)
