-- ===== src/IntervalMap/Meaning.antt =====
-- What a map of intervals means: a partial function on words. The well-formedness of a map, and
-- reference definitions of the deletion and the insertion of an interval, by one walk over the list.
use direct_libstorage.Base.{
  ℕ, suc, ◌-◌, ◌≤◌, ◌<◌, ◌⊎◌, ◌&&◌, Option, none, some, [], ◌∷◌, ltb, leb, ◌==◌, if◌then◌else◌, Eq,
}
use direct_libstorage.Base.Words.{word}
use direct_libstorage.IntervalMap.{Intervals}

module _ {ℓ} {V : Type ℓ} where
  -- The intervals start at `lo` or above, are in order and do not overlap, and their ends are words.
  abbrev pub Disjoint : ℕ → Intervals V → Type 0
  Disjoint lo [] = Unit
  Disjoint lo ((a, (b, v)) ∷ m) = (lo ≤ a) × (a ≤ b) × (b < word) × Disjoint (suc b) m

  -- No interval meets [s, e].
  abbrev pub Clear : ℕ → ℕ → Intervals V → Type 0
  Clear s e [] = Unit
  Clear s e ((a, (b, v)) ∷ m) = ((b < s) ⊎ (e < a)) × Clear s e m

  -- The value at the point k.
  unfoldable pub value_at : ℕ → Intervals V → Option V
  value_at k [] = none
  value_at k ((a, (b, v)) ∷ m) = if leb a k && leb k b then some v else value_at k m

  -- The map without the points up to e.
  unfoldable pub trim : ℕ → Intervals V → Intervals V
  trim e [] = []
  trim e ((a, (b, v)) ∷ m) =
      if ltb e a then (a, (b, v)) ∷ m else if ltb e b then (suc e, (b, v)) ∷ m else trim e m

  -- The map without the points of [s, e].
  unfoldable pub cut : ℕ → ℕ → Intervals V → Intervals V
  unfolding trim
  cut s e [] = []
  cut s e ((a, (b, v)) ∷ m) =
      if ltb b s
      then (a, (b, v)) ∷ cut s e m
      else if ltb a s
      then (a, (s - 1, v)) ∷ (if ltb e b then (suc e, (b, v)) ∷ m else trim e m)
      else trim e ((a, (b, v)) ∷ m)

module _ {ℓ} {V : Type ℓ} ⦃e : Eq V⦄ where
  -- [s, end] in front of the map, joined to the first interval if they touch and agree.
  unfoldable pub join : ℕ → ℕ → V → Intervals V → Intervals V
  join s end v [] = (s, (end, v)) ∷ []
  join s end v ((a, (b, w)) ∷ m) =
      if a == suc end && e.beq v w then (s, (b, w)) ∷ m else (s, (end, v)) ∷ (a, (b, w)) ∷ m

  -- [s, end] in its place in the map, joined to both neighbours if they touch and agree.
  unfoldable pub place : ℕ → ℕ → V → Intervals V → Intervals V
  unfolding join
  place s end v [] = (s, (end, v)) ∷ []
  place s end v ((a, (b, w)) ∷ m) =
      if ltb end a
      then join s end v ((a, (b, w)) ∷ m)
      else if suc b == s && e.beq v w
      then join a end w m
      else (a, (b, w)) ∷ place s end v m
