-- ===== src/IntervalMap/SetLaws.antt =====
-- What the public operations of include/storage/IntervalMap.hpp do to the partial function that the
-- map stands for.
use direct_libstorage.Base.{
  ℕ, ◌≤◌, ◌<◌, ◌≡◌, ◌&&◌, none, some, ok, success, arith, Eq, LawfulEq, leb, if◌then◌else◌,
}
use direct_libstorage.Base.Words.{word}
use direct_libstorage.IntervalMap.{Intervals, BeforeBegin}
use direct_libstorage.IntervalMap.Delete.{del}
use direct_libstorage.IntervalMap.Update.{set}
use direct_libstorage.IntervalMap.Meaning.{Disjoint, value_at, cut, place}
use direct_libstorage.IntervalMap.Points.{
  value_at-cut, cut-Disjoint, cut-Clear, value_at-place, place-Disjoint,
}
use direct_libstorage.IntervalMap.DeleteLaws.{del-cut}
use direct_libstorage.IntervalMap.InsertLaws.{insert_impl-place}

module _ {V : Type 0} ⦃e : Eq V⦄ ⦃law : LawfulEq V⦄ (before : BeforeBegin V) where
  -- With end() as the result of going back from begin(), set of an interval [start, end] of
  -- words, start at most end, succeeds on a well-formed map, and its map is the one in which one
  -- walk cuts [start, end] out and another puts the new interval in its place, joined to the
  -- neighbours that touch it and have the same value.
  pub set-place :
      (start end : ℕ) (v : V) (m : Intervals V)
      → ((n : Intervals V) → before n ≡ none)
      → Disjoint 0 m
      → start ≤ end
      → end < word
      → set before start end v m ≡ ok (place start end v (cut start end m), success)
  unfolding set
  set-place start end v m none_before h l w = rw (
    del-cut before 0 start end m none_before h l,
    insert_impl-place before 0 start end v (cut start end m) none_before
        (cut-Disjoint start end 0 m h l) (cut-Clear start end 0 m h l) l w,
  )

  -- With end() as the result of going back from begin(), set of an interval [start, end] of
  -- words, start at most end, succeeds on a well-formed map; it gives every point of [start, end]
  -- the value v and leaves every other point as it was, and the new map is well-formed.
  pub set_lem :
      (start end : ℕ) (v : V) (m : Intervals V)
      → ((n : Intervals V) → before n ≡ none)
      → Disjoint 0 m
      → start ≤ end
      → end < word
      → (m' : Intervals V) × (set before start end v m ≡ ok (m', success))
        × Disjoint 0 m'
        × ((k : ℕ) → value_at k m' ≡ (if leb start k && leb k end then some v else value_at k m))
  set_lem start end v m none_before h l w =
      let h' = cut-Disjoint start end 0 m h l in
      let c = cut-Clear start end 0 m h l in
      (
        place start end v (cut start end m),
        set-place start end v m none_before h l w,
        place-Disjoint start end 0 v (cut start end m) h' c l (omega arith) w,
        λ k. ground (
          arith,
          value_at-place k start end 0 v (cut start end m) h' c l,
          value_at-cut k start end 0 m h l,
        ),
      )

module _ {V : Type 0} (before : BeforeBegin V) where
  -- With end() as the result of going back from begin(), del of [start, end], start at most end,
  -- succeeds on a well-formed map; it removes every point of [start, end] and no other, and the
  -- new map is well-formed.
  pub del_lem :
      (start end : ℕ) (m : Intervals V)
      → ((n : Intervals V) → before n ≡ none)
      → Disjoint 0 m
      → start ≤ end
      → (m' : Intervals V) × (del before start end m ≡ ok (m', success))
        × Disjoint 0 m'
        × ((k : ℕ) → value_at k m' ≡ (if leb start k && leb k end then none else value_at k m))
  del_lem start end m none_before h l = (
    cut start end m,
    del-cut before 0 start end m none_before h l,
    cut-Disjoint start end 0 m h l,
    λ k. value_at-cut k start end 0 m h l,
  )
