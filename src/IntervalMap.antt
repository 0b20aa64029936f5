-- ===== src/IntervalMap.antt =====
-- include/storage/IntervalMap.hpp: a map from closed intervals of words to values, kept as a
-- std::map from an interval's start to its end and value.
pub mod Insert
pub mod Delete
pub mod Update
pub mod Meaning
pub mod FindLaws
pub mod Points
pub mod SetLaws
pub mod LookupLaws
pub mod InsertLaws
pub mod CutLaws
pub mod DeleteLaws
pub mod Apart
use direct_libstorage.Base.{
  ℕ, zero, suc, ◌≡◌, min, max, Bool, true, false, not, ◌&&◌, ◌||◌, Option, none, some, List, [],
  ◌∷◌, Outcome, ok, throw, dangling_iterator, out_of_fuel, ◌>>=◌, ◌>>◌, assert_on, Result, success,
  failure, ltb, leb, ◌==◌, if◌then◌else◌, Eq, length,
}
use direct_libstorage.Base.Words.{add64, sub64}
use direct_libstorage.StdMap.{Map, begin, find, upper_bound, last, prev, next, deref, assign, erase}
use direct_libstorage.StdMap

-- std::map<K, std::pair<K, V>>: [start] -> (end, V)
abbrev pub Intervals {ℓ} : Type ℓ → Type ℓ
Intervals V = Map (ℕ × V)

-- What an implementation makes of --m.begin(), which C++ leaves undefined.
abbrev pub BeforeBegin {ℓ} : Type ℓ → Type ℓ
BeforeBegin V = Intervals V → Option ℕ

abbrev pub is_empty {ℓ} : {A : Type ℓ} → Map A → Bool
is_empty [] = true
is_empty (x ∷ m) = false

-- The value of a return type that the caller inspects: the map after the call, and the result.
abbrev pub Call {ℓ} : Type ℓ → Type ℓ
Call V = Outcome (Intervals V × Result)

module _ {ℓ} {V : Type ℓ} where
  -- IntervalMap::emplace
  unfoldable pub emplace : ℕ → ℕ → V → Intervals V → Outcome (Intervals V)
  emplace start end v m =
      let (m', inserted) = StdMap.emplace start (end, v) m in do assert_on (not inserted); ok m'

  -- m.extract(it), nh.key() = new_start, m.insert(std::move(nh))
  unfoldable pub rekey : ℕ → ℕ → Intervals V → Outcome (Intervals V)
  rekey it new_start m = do node ← deref it m; ok (StdMap.emplace new_start node (erase it m)).0

module _ {ℓ} {V : Type ℓ} (before : BeforeBegin V) where
  -- The steps back from upper_bound(k) in find_it.
  unfoldable pub step_back : Option ℕ → Intervals V → Option ℕ
  step_back (some it) m = prev before it m
  step_back none m = if is_empty m then none else last m

  unfoldable pub find_it : ℕ → Bool → Intervals V → Outcome (Option ℕ)
  unfolding step_back
  find_it k check_value m = elim (step_back (upper_bound k m) m) [
    | none ↦ ok none
    | some iv_start ↦ do
      iv ← deref iv_start m
      ok (if not check_value || (leb iv_start k && leb k iv.0) then some iv_start else none)
  ]

  -- find: the start of the interval that holds k, if there is one.
  unfoldable pub find_interval : ℕ → Intervals V → Outcome (Option ℕ)
  find_interval k m = find_it k true m

  -- has(k)
  unfoldable pub has : ℕ → Intervals V → Outcome Bool
  unfolding find_it
  has k m = do it ← find_it k true m; ok (elim it [ none ↦ false | some i ↦ true ])

  overlaps : ℕ → ℕ → Option ℕ → Intervals V → Outcome Bool
  overlaps start end none m = ok false
  overlaps start end (some iv_start) m = do
    iv ← deref iv_start m
    ok (
        (leb start iv.0 && leb iv.0 end)
        || (leb start iv_start && leb iv_start end)
        || (leb iv_start start && leb start iv.0))

  -- has(start, end)
  unfoldable pub has_range : ℕ → ℕ → Intervals V → Outcome Bool
  unfolding find_it overlaps
  has_range start end m = do
    it ← find_it end false m
    overlaps start end (elim it [ none ↦ begin m | some i ↦ some i ]) m
