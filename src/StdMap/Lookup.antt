-- ===== src/StdMap/Lookup.antt =====
-- What find gives after a change to a std::map.
use direct_libstorage.Base.{ℕ, ◌≡◌, none, some, [], ◌∷◌, ◌==◌, if◌then◌else◌, arith}
use direct_libstorage.StdMap.{Map, find, emplace, assign}

module _ {A : Type 0} where
  pub find-emplace :
      (j k : ℕ) (a : A) (m : Map A)
      → find k m ≡ none
      → find j (emplace k a m).0 ≡ (if j == k then some a else find j m)
  unfolding find emplace
  find-emplace j k a [] h = ground arith
  find-emplace j k a ((i, b) ∷ m) h = ground (arith, find-emplace j k a m)

  pub find-assign :
      (j k : ℕ) (a b : A) (m : Map A)
      → find k m ≡ some b
      → find j (assign k a m) ≡ (if j == k then some a else find j m)
  unfolding find assign
  find-assign j k a b [] h = ground arith
  find-assign j k a b ((i, c) ∷ m) h = ground (arith, find-assign j k a b m)
