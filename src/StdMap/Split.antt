-- ===== src/StdMap/Split.antt =====
-- The operations of std::map at an element in the middle of the list.
use direct_libstorage.Base.{
  ℕ, suc, ◌≤◌, ◌<◌, ◌≡◌, refl, true, some, [], ◌∷◌, ◌++◌, arith, ap, dec_lt, ◌∙◌,
}
use direct_libstorage.StdMap.{
  Map, Ascends, begin, find, upper_bound, last_below, last, next, assign, emplace, erase,
}

module _ {ℓ} {A : Type ℓ} where
  -- The key in the middle is above those before it, and below those after it.
  pub Ascends-middle :
      (lo : ℕ) (before : Map A) (k : ℕ) (a : A) (after : Map A)
      → Ascends lo (before ++ (k, a) ∷ after)
      → (lo ≤ k) × Ascends (suc k) after
  Ascends-middle lo [] k a after h = h
  Ascends-middle lo ((j, b) ∷ before) k a after h =
      let (low, high) = Ascends-middle (suc j) before k a after h.1 in (omega arith, high)

module _ {ℓ} {A : Type ℓ} where
  pub upper_bound-begin : (k : ℕ) (m : Map A) → Ascends (suc k) m → upper_bound k m ≡ begin m
  unfolding upper_bound begin
  upper_bound-begin k [] h = refl
  upper_bound-begin k ((j, b) ∷ m) h = ground arith

  pub last_below-middle :
      (lo bound : ℕ) (before : Map A) (k : ℕ) (a : A) (after : Map A)
      → Ascends lo (before ++ (k, a) ∷ after)
      → k < bound
      → Ascends bound after
      → last_below bound (before ++ (k, a) ∷ after) ≡ some k
  unfolding last_below
  last_below-middle lo bound [] k a [] h l u = ground arith
  last_below-middle lo bound [] k a ((j, b) ∷ after) h l u = ground arith
  last_below-middle lo bound ((j, b) ∷ before) k a after h l u = ground (
    arith,
    Ascends-middle (suc j) before k a after,
    last_below-middle (suc j) bound before k a after,
  )

  pub last-middle : (before : Map A) (k : ℕ) (a : A) → last (before ++ (k, a) ∷ []) ≡ some k
  unfolding last
  last-middle [] k a = refl
  last-middle ((j, b) ∷ before) k a = ground (arith, last-middle before k a)

  pub upper_bound-middle :
      (lo bound : ℕ) (before : Map A) (k : ℕ) (a : A) (after : Map A)
      → Ascends lo (before ++ (k, a) ∷ after)
      → k ≤ bound
      → upper_bound bound (before ++ (k, a) ∷ after) ≡ upper_bound bound after
  unfolding upper_bound
  upper_bound-middle lo bound [] k a after h l = ground arith
  upper_bound-middle lo bound ((j, b) ∷ before) k a after h l = ground (
    arith,
    Ascends-middle (suc j) before k a after,
    upper_bound-middle (suc j) bound before k a after,
  )

  pub find-middle :
      (lo : ℕ) (before : Map A) (k : ℕ) (a : A) (after : Map A)
      → Ascends lo (before ++ (k, a) ∷ after)
      → find k (before ++ (k, a) ∷ after) ≡ some a
  unfolding find
  find-middle lo [] k a after h = ground arith
  find-middle lo ((j, b) ∷ before) k a after h =
      ground (arith, Ascends-middle (suc j) before k a after, find-middle (suc j) before k a after)

  pub assign-middle :
      (lo : ℕ) (before : Map A) (k : ℕ) (a a' : A) (after : Map A)
      → Ascends lo (before ++ (k, a) ∷ after)
      → assign k a' (before ++ (k, a) ∷ after) ≡ before ++ (k, a') ∷ after
  unfolding assign
  assign-middle lo [] k a a' after h = ground arith
  assign-middle lo ((j, b) ∷ before) k a a' after h =
      ground
        (arith, Ascends-middle (suc j) before k a after, assign-middle (suc j) before k a a' after)

  pub erase-middle :
      (lo : ℕ) (before : Map A) (k : ℕ) (a : A) (after : Map A)
      → Ascends lo (before ++ (k, a) ∷ after)
      → erase k (before ++ (k, a) ∷ after) ≡ before ++ after
  unfolding erase
  erase-middle lo [] k a after h = ground arith
  erase-middle lo ((j, b) ∷ before) k a after h =
      ground (arith, Ascends-middle (suc j) before k a after, erase-middle (suc j) before k a after)

  -- All keys are below the bound.
  abbrev pub KeysBelow : ℕ → Map A → Type 0
  KeysBelow hi [] = Unit
  KeysBelow hi ((k, a) ∷ m) = (k < hi) × KeysBelow hi m

  -- An element goes between those with lower keys and those with higher ones.
  pub emplace-middle :
      (before : Map A) (k : ℕ) (a : A) (after : Map A)
      → KeysBelow k before
      → Ascends (suc k) after
      → emplace k a (before ++ after) ≡ (before ++ (k, a) ∷ after, true)
  unfolding emplace
  emplace-middle [] k a [] l u = refl
  emplace-middle [] k a ((j, b) ∷ after) l u = ground arith
  emplace-middle ((j, b) ∷ before) k a after l u = ground (arith, emplace-middle before k a after)

  -- An element goes right behind the one in the middle.
  pub emplace-after :
      (lo : ℕ) (front : Map A) (j : ℕ) (a : A) (k : ℕ) (a' : A) (back : Map A)
      → Ascends lo (front ++ (j, a) ∷ back)
      → j < k
      → Ascends (suc k) back
      → emplace k a' (front ++ (j, a) ∷ back) ≡ (front ++ (j, a) ∷ (k, a') ∷ back, true)
  unfolding emplace
  emplace-after lo [] j a k a' [] h l u = ground arith
  emplace-after lo [] j a k a' ((i, b) ∷ back) h l u = ground arith
  emplace-after lo ((i, b) ∷ front) j a k a' back h l u =
      ground
        (arith, Ascends-middle (suc i) front j a back, emplace-after (suc i) front j a k a' back)

  pub KeysBelow-middle :
      (lo : ℕ) (front : Map A) (j : ℕ) (a : A) (back : Map A) (k : ℕ)
      → Ascends lo (front ++ (j, a) ∷ back)
      → j ≤ k
      → KeysBelow k front
  KeysBelow-middle lo [] j a back k h l = tt
  KeysBelow-middle lo ((i, b) ∷ front) j a back k h l =
      let low = Ascends-middle (suc i) front j a back h.1 in
      (omega arith, KeysBelow-middle (suc i) front j a back k h.1 l)

  pub next-middle :
      (lo : ℕ) (front : Map A) (j : ℕ) (a : A) (back : Map A)
      → Ascends lo (front ++ (j, a) ∷ back)
      → next j (front ++ (j, a) ∷ back) ≡ begin back
  unfolding next
  next-middle lo front j a back h =
      upper_bound-middle lo j front j a back h (omega arith)
      ∙ upper_bound-begin j back (Ascends-middle lo front j a back h).1

  -- The element behind the one in the middle.
  pub find-second :
      (lo : ℕ) (front : Map A) (j : ℕ) (a : A) (k : ℕ) (a' : A) (back : Map A)
      → Ascends lo (front ++ (j, a) ∷ (k, a') ∷ back)
      → find k (front ++ (j, a) ∷ (k, a') ∷ back) ≡ some a'
  unfolding find
  find-second lo [] j a k a' back h = ground arith
  find-second lo ((i, b) ∷ front) j a k a' back h = ground (
    arith,
    Ascends-middle (suc i) front j a ((k, a') ∷ back),
    find-second (suc i) front j a k a' back,
  )

  pub erase-second :
      (lo : ℕ) (front : Map A) (j : ℕ) (a : A) (k : ℕ) (a' : A) (back : Map A)
      → Ascends lo (front ++ (j, a) ∷ (k, a') ∷ back)
      → erase k (front ++ (j, a) ∷ (k, a') ∷ back) ≡ front ++ (j, a) ∷ back
  unfolding erase
  erase-second lo [] j a k a' back h = ground arith
  erase-second lo ((i, b) ∷ front) j a k a' back h = ground (
    arith,
    Ascends-middle (suc i) front j a ((k, a') ∷ back),
    erase-second (suc i) front j a k a' back,
  )

  pub Ascends-drop_second :
      (lo : ℕ) (front : Map A) (j : ℕ) (a : A) (k : ℕ) (a' : A) (back : Map A)
      → Ascends lo (front ++ (j, a) ∷ (k, a') ∷ back)
      → Ascends lo (front ++ (j, a) ∷ back)
  Ascends-drop_second lo [] j a k a' [] h = (h.0, tt)
  Ascends-drop_second lo [] j a k a' ((i, b) ∷ back) h = (h.0, (omega arith, h.1.1.1))
  Ascends-drop_second lo ((i, b) ∷ front) j a k a' back h =
      (h.0, Ascends-drop_second (suc i) front j a k a' back h.1)

  pub Ascends-assign :
      (lo : ℕ) (front : Map A) (j : ℕ) (a a' : A) (back : Map A)
      → Ascends lo (front ++ (j, a) ∷ back)
      → Ascends lo (front ++ (j, a') ∷ back)
  Ascends-assign lo [] j a a' back h = h
  Ascends-assign lo ((i, b) ∷ front) j a a' back h =
      (h.0, Ascends-assign (suc i) front j a a' back h.1)

  pub Ascends-weaken : (lo lo' : ℕ) (m : Map A) → lo' ≤ lo → Ascends lo m → Ascends lo' m
  Ascends-weaken lo lo' [] l h = tt
  Ascends-weaken lo lo' ((j, b) ∷ m) l h = (omega arith, h.1)

  -- Where a key stands among those of the map: below all of them, or at or after one of them and
  -- below the next.
  pub data Place (k : ℕ) (m : Map A) : Type ℓ where
    below : Ascends (suc k) m → Place k m
    after :
        (front : Map A) (j : ℕ) (a : A) (back : Map A)
        → m ≡ front ++ (j, a) ∷ back
        → j ≤ k
        → Ascends (suc k) back
        → Place k m

  Place-cons : (k j : ℕ) (a : A) (m : Map A) → j ≤ k → Place k m → Place k ((j, a) ∷ m)
  Place-cons k j a m l (below h) = after [] j a m refl l h
  Place-cons k j a m l (after front i b back e q h) =
      after ((j, a) ∷ front) i b back (ap (◌∷◌ (j, a)) e) q h

  pub locate : (lo k : ℕ) (m : Map A) → Ascends lo m → Place k m
  locate lo k [] h = below tt
  locate lo k ((j, a) ∷ m) h = elim (dec_lt k j) [
    | yes l ↦ below (l, h.1)
    | no l ↦ Place-cons k j a m (omega arith) (locate (suc j) k m h.1)
  ]
