-- ===== src/ObjectInstanceStorage.antt =====
-- class ObjectInstanceStorage of include/storage/ObjectInstanceStorage.hpp: objects under an index,
-- singly in a std::map or many at once in ranges. `before` is as in IntervalMap, `moved` as in
-- ObjectInstanceStorage.Range. A function that makes objects is called with the same results whenever
-- it is called with the same arguments.
pub mod Range
pub mod RangeLaws
pub mod RangeDelete
pub mod Laws
pub mod AddRange
pub mod RangeEnds
pub mod DelRange
use direct_libstorage.Base.{
  ℕ, zero, suc, ◌+◌, ◌-◌, min, Bool, true, false, not, Option, none, some, [], Outcome, ok, throw,
  logic_error, out_of_fuel, ◌>>=◌, ◌>>◌, assert_on, ltb, if◌then◌else◌,
}
use direct_libstorage.Base.Words.{add64, sub64}
use direct_libstorage.StdMap.{Map, find, deref, assign, emplace, erase}
use direct_libstorage.IntervalMap.{Intervals, BeforeBegin, find_interval, has_range}
use direct_libstorage.IntervalMap.Update.{insert}
use direct_libstorage.ObjectInstanceStorage.Range.{ObjectInstanceRange, new_range, range_eq}
use direct_libstorage.ObjectInstanceStorage.Range

pub record ObjectInstanceStorage (T : Type 0) : Type 0 where
  pub instance_map : Map T
  pub instance_range : Intervals (ObjectInstanceRange T)

abbrev pub range_threshold : ℕ
range_threshold = 8

abbrev pub new_storage : {T : Type 0} → ObjectInstanceStorage T
new_storage = record { instance_map = []; instance_range = [] }

-- The loop of add_range over `count` indices from i on.
unfoldable pub emplace_from : {T : Type 0} → (ℕ → ℕ → T) → ℕ → ℕ → ℕ → Map T → Outcome (Map T)
emplace_from f start i zero m = ok m
emplace_from f start i (suc count) m = do
  let (m', inserted) = emplace i (f start (i - start)) m
  assert_on (not inserted)
  emplace_from f start (suc i) count m'

module _ {T : Type 0} (before : BeforeBegin (ObjectInstanceRange T)) where
  unfoldable pub add_range :
      (ℕ → ℕ → T) → ℕ → ℕ → ObjectInstanceStorage T → Outcome (ObjectInstanceStorage T)
  unfolding emplace_from
  add_range f start end st = do
    let size = add64 (sub64 end start) 1
    taken ← has_range before start end st.instance_range
    (if taken
        then throw logic_error
        else if ltb size range_threshold
        then (do
          m ← emplace_from f start start (suc end - start) st.instance_map
          ok (record st { instance_map = m }))
        else (do
          ir ← Range.add_range f 0 (sub64 size 1) (new_range start end)
          res ← insert before start end ir st.instance_range
          ok (record st { instance_range = res.0 })))

  unfoldable pub add : ℕ → T → ObjectInstanceStorage T → Outcome (ObjectInstanceStorage T)
  add index t st = do
    it ← find_interval before index st.instance_range
    elim it [
      | none ↦ do
        let (m, inserted) = emplace index t st.instance_map
        assert_on (not inserted)
        ok (record st { instance_map = m })
      | some iv_start ↦ do
        iv ← deref iv_start st.instance_range
        v ← Range.add (sub64 index iv_start) t iv.1
        ok (record st { instance_range = assign iv_start (iv.0, v) st.instance_range })
    ]

  -- The part of the range at `it` from i to `end` goes: the last index that does, and the storage.
  unfoldable pub del_found :
      (T → T) → ℕ → ℕ → Option ℕ → ObjectInstanceStorage T → Outcome (ℕ × ObjectInstanceStorage T)
  del_found moved end i none st = ok (i, st)
  del_found moved end i (some iv_start) st = do
    iv ← deref iv_start st.instance_range
    v ← Range.del_range moved (sub64 i iv_start) (sub64 (min end iv.0) iv_start) iv.1
    ok (iv.0, record st { instance_range = assign iv_start (iv.0, v) st.instance_range })

  -- One round of the loop of del_range at i: the index that it has come to, and the storage.
  unfoldable pub del_round :
      (T → T) → ℕ → ℕ → ObjectInstanceStorage T → Outcome (ℕ × ObjectInstanceStorage T)
  unfolding del_found
  del_round moved end i st = do
    it ← find_interval before i st.instance_range
    at ← del_found moved end i it st
    ok (at.0, record (at.1) { instance_map = erase at.0 at.1.instance_map })

  -- The rounds of del_range from i on.
  unfoldable pub del_loop :
      (T → T) → ℕ → ℕ → ℕ → ObjectInstanceStorage T → Outcome (ObjectInstanceStorage T)
  unfolding del_round
  del_loop moved end zero i st = throw out_of_fuel
  del_loop moved end (suc fuel) i st =
      if ltb end i
      then ok st
      else (do at ← del_round moved end i st; del_loop moved end fuel (add64 at.0 1) at.1)

  unfoldable pub del_range :
      (T → T) → ℕ → ℕ → ObjectInstanceStorage T → Outcome (ObjectInstanceStorage T)
  unfolding del_loop
  del_range moved start end st = del_loop moved end (suc (suc end) - start) start st

  unfoldable pub del : (T → T) → ℕ → ObjectInstanceStorage T → Outcome (ObjectInstanceStorage T)
  unfolding del_range
  del moved index st = del_range moved index index st

  unfoldable pub get : ℕ → ObjectInstanceStorage T → Outcome (Option T)
  get index st = elim (find index st.instance_map) [
    | some t ↦ ok (some t)
    | none ↦ do
      it ← find_interval before index st.instance_range
      elim it [
        | none ↦ ok none
        | some iv_start ↦ do
          iv ← deref iv_start st.instance_range
          Range.get (sub64 index iv_start) iv.1
      ]
  ]

  unfoldable pub has : ℕ → ObjectInstanceStorage T → Outcome Bool
  has index st = elim (find index st.instance_map) [
    | some t ↦ ok true
    | none ↦ do
      it ← find_interval before index st.instance_range
      elim it [
        | none ↦ ok false
        | some iv_start ↦ do
          iv ← deref iv_start st.instance_range
          ok (Range.has (sub64 index iv_start) iv.1)
      ]
  ]
