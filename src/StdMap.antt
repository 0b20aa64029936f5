-- ===== src/StdMap.antt =====
-- std::map with unsigned keys, as the code uses it: a list of pairs in ascending order of keys.
-- An iterator is the key that it stands at, since std::map keeps iterators valid under every change
-- to other elements; `none` is end(). Going back from begin() is undefined in C++, so its result is
-- an argument of `prev`.
pub mod Split
pub mod Lookup
use direct_libstorage.Base.{
  ℕ, suc, ◌≤◌, ◌<◌, Bool, true, false, Option, none, some, List, [], ◌∷◌, Outcome, ok, throw,
  dangling_iterator, ltb, ◌==◌, if◌then◌else◌,
}

abbrev pub Map {ℓ} : Type ℓ → Type ℓ
Map A = List (ℕ × A)

module _ {ℓ} {A : Type ℓ} where
  -- m.begin()
  unfoldable pub begin : Map A → Option ℕ
  begin [] = none
  begin ((k, a) ∷ m) = some k

  -- m.find(k), with the mapped value.
  unfoldable pub find : ℕ → Map A → Option A
  find k [] = none
  find k ((j, a) ∷ m) = if j == k then some a else find k m

  -- m.upper_bound(k): the first key above k.
  unfoldable pub upper_bound : ℕ → Map A → Option ℕ
  upper_bound k [] = none
  upper_bound k ((j, a) ∷ m) = if ltb k j then some j else upper_bound k m

  -- The last key below k.
  unfoldable pub last_below : ℕ → Map A → Option ℕ
  last_below k [] = none
  last_below k ((j, a) ∷ m) =
      if ltb j k then elim (last_below k m) [ none ↦ some j | some i ↦ some i ] else none

  -- std::prev(m.end()), of a map that is not empty.
  unfoldable pub last : Map A → Option ℕ
  last [] = none
  last ((j, a) ∷ m) = elim (last m) [ none ↦ some j | some i ↦ some i ]

  -- --it at the key k; `before` is what an implementation makes of --m.begin().
  unfoldable pub prev : (Map A → Option ℕ) → ℕ → Map A → Option ℕ
  unfolding last_below
  prev before k m = elim (last_below k m) [ none ↦ before m | some i ↦ some i ]

  -- ++it at the key k.
  unfoldable pub next : ℕ → Map A → Option ℕ
  unfolding upper_bound
  next k m = upper_bound k m

  -- it->second
  unfoldable pub deref : ℕ → Map A → Outcome A
  unfolding find
  deref k m = elim (find k m) [ none ↦ throw dangling_iterator | some a ↦ ok a ]

  -- it->second = a
  unfoldable pub assign : ℕ → A → Map A → Map A
  assign k a [] = []
  assign k a ((j, b) ∷ m) = if j == k then (j, a) ∷ m else (j, b) ∷ assign k a m

  -- m.emplace(k, a) and m.insert: a key that is there is left as it is.
  unfoldable pub emplace : ℕ → A → Map A → Map A × Bool
  emplace k a [] = ((k, a) ∷ [], true)
  emplace k a ((j, b) ∷ m) =
      let rest = emplace k a m in
      if ltb k j
      then ((k, a) ∷ (j, b) ∷ m, true)
      else if j == k
      then ((j, b) ∷ m, false)
      else ((j, b) ∷ rest.0, rest.1)

  -- m.erase(k)
  unfoldable pub erase : ℕ → Map A → Map A
  erase k [] = []
  erase k ((j, b) ∷ m) = if j == k then m else (j, b) ∷ erase k m

  -- The keys are at least `lo` and ascend strictly.
  abbrev pub Ascends : ℕ → Map A → Type 0
  Ascends lo [] = Unit
  Ascends lo ((k, a) ∷ m) = (lo ≤ k) × Ascends (suc k) m
