-- ===== src/StorageHelpers.antt =====
-- include/storage/StorageHelpers.hpp: values ordered by a size, kept as a std::multimap. The multimap
-- is a list in ascending order of keys; an iterator is a position, and the length stands for end().
pub mod Order
pub mod Extents
use direct_libstorage.Base.{
  ℕ, zero, suc, ◌-◌, ◌≤◌, Bool, true, false, not, Option, none, some, List, [], ◌∷◌, ltb, ◌==◌,
  if◌then◌else◌,
}
use direct_libstorage.Base.Words.{sub64}

abbrev pub MultiMap {ℓ} : Type ℓ → Type ℓ
MultiMap T = List (ℕ × T)

module _ {ℓ} {T : Type ℓ} where
  -- data.lower_bound(size)
  unfoldable pub lower_bound : ℕ → MultiMap T → ℕ
  lower_bound size [] = 0
  lower_bound size ((k, t) ∷ d) = if ltb k size then suc (lower_bound size d) else 0

  -- The element at an iterator; none at end().
  unfoldable pub element : ℕ → MultiMap T → Option (ℕ × T)
  element i [] = none
  element zero (x ∷ d) = some x
  element (suc i) (x ∷ d) = element i d

  -- data.erase(it), and data.extract(it) without the node.
  unfoldable pub erase : ℕ → MultiMap T → MultiMap T
  erase i [] = []
  erase zero (x ∷ d) = d
  erase (suc i) (x ∷ d) = x ∷ erase i d

  -- data.insert: behind the elements with the same key.
  unfoldable pub insert : ℕ → T → MultiMap T → MultiMap T
  insert k t [] = (k, t) ∷ []
  insert k t ((j, u) ∷ d) = if ltb k j then (k, t) ∷ (j, u) ∷ d else (j, u) ∷ insert k t d

  -- add
  unfoldable pub add : ℕ → T → MultiMap T → MultiMap T
  unfolding insert
  add size t d = insert size t d

  -- The element that has, get and splice look at: the first at lower_bound(size), if its key is at
  -- most `atmost`.
  unfoldable pub candidate : ℕ → ℕ → MultiMap T → Option (ℕ × T)
  candidate size atmost d = elim (element (lower_bound size d) d) [
    | none ↦ none
    | some (k, t) ↦ if ltb atmost k then none else some (k, t)
  ]

  unfoldable pub has : ℕ → ℕ → MultiMap T → Bool
  has size atmost d = elim (candidate size atmost d) [ none ↦ false | some x ↦ true ]

  -- get; `default` is T().
  unfoldable pub get : T → ℕ → ℕ → MultiMap T → (Bool × ℕ × T) × MultiMap T
  get default size atmost d = elim (candidate size atmost d) [
    | none ↦ ((false, 0, default), d)
    | some (k, t) ↦ ((true, k, t), erase (lower_bound size d) d)
  ]

  -- splice; `f` changes the mapped value and returns the old one.
  unfoldable pub splice : T → (T → ℕ → T × T) → ℕ → ℕ → MultiMap T → (Bool × T) × MultiMap T
  splice default f size atmost d = elim (candidate size atmost d) [
    | none ↦ ((false, default), d)
    | some (k, t) ↦
        let rest = erase (lower_bound size d) d in
        let (mapped, old_key) = f t size in
        if k == size
        then ((true, t), rest)
        else ((true, old_key), insert (sub64 k size) mapped rest)
  ]
