-- ===== src/IntervalMap/CutLaws.antt =====
-- One round of del_impl on the interval in the middle of a well-formed map, and the facts on `cut`
-- and `trim` that its rounds are put together with.
use direct_libstorage.Base.{
  ℕ, suc, ◌-◌, ◌≤◌, ◌<◌, ◌≡◌, refl, [], ◌∷◌, ◌++◌, ok, ◌>>=◌, arith, success, if◌then◌else◌, ltb,
  append_assoc,
}
use direct_libstorage.Base.Words.{word, add64_one, sub64_one}
use direct_libstorage.StdMap.{Ascends, begin}
use direct_libstorage.StdMap.Split.{
  assign-middle, erase-middle, emplace-middle, emplace-after, KeysBelow-middle, Ascends-assign,
  Ascends-weaken,
}
use direct_libstorage.IntervalMap.{Intervals, emplace, rekey, Call}
use direct_libstorage.IntervalMap.Delete.{cut_interval, next_round, go_on}
use direct_libstorage.IntervalMap.Meaning.{Disjoint, trim, cut}
use direct_libstorage.IntervalMap.FindLaws.{Disjoint-Ascends, deref-middle}

module _ {V : Type 0} where
  pub rekey-middle :
      (lo : ℕ) (front : Intervals V) (j b : ℕ) (v : V) (back : Intervals V) (k : ℕ)
      → Ascends lo (front ++ (j, (b, v)) ∷ back)
      → j ≤ k
      → Ascends (suc k) back
      → rekey j k (front ++ (j, (b, v)) ∷ back) ≡ ok (front ++ (k, (b, v)) ∷ back)
  unfolding rekey
  rekey-middle lo front j b v back k h l u = ground (
    arith,
    deref-middle lo front j b v back h,
    erase-middle lo front j (b, v) back h,
    emplace-middle front k (b, v) back (KeysBelow-middle lo front j (b, v) back k h l) u,
  )

  -- The interval at j after its round, in front of those behind it.
  unfoldable pub cut_one : ℕ → ℕ → ℕ → ℕ → V → Intervals V → Intervals V
  cut_one s e j b v back =
      if ltb b s
      then (j, (b, v)) ∷ back
      else if ltb j s
      then (j, (s - 1, v)) ∷ (if ltb e b then (suc e, (b, v)) ∷ back else back)
      else if ltb e b
      then (if ltb e j then (j, (b, v)) ∷ back else (suc e, (b, v)) ∷ back)
      else back

  pub cut_interval_lem :
      (lo s e : ℕ) (front : Intervals V) (j b : ℕ) (v : V) (back : Intervals V)
      → Ascends lo (front ++ (j, (b, v)) ∷ back)
      → j ≤ b
      → b < word
      → s ≤ e
      → Ascends (suc b) back
      → cut_interval s e j b v (front ++ (j, (b, v)) ∷ back) ≡ ok (front ++ cut_one s e j b v back)
  unfolding cut_interval emplace cut_one
  cut_interval_lem lo s e front j b v back h l w o u = ground (
    arith,
    assign-middle lo front j (b, v) (s - 1, v) back h,
    emplace-after lo front j (s - 1, v) (suc e) (b, v) back
        (Ascends-assign lo front j (b, v) (s - 1, v) back h),
    rekey-middle lo front j b v back (suc e) h,
    erase-middle lo front j (b, v) back h,
    add64_one e b,
    sub64_one s b,
    λ (q : e < b). Ascends-weaken (suc b) (suc (suc e)) back (omega arith) u,
  )

  pub Disjoint-middle :
      (lo : ℕ) (front : Intervals V) (j b : ℕ) (v : V) (back : Intervals V)
      → Disjoint lo (front ++ (j, (b, v)) ∷ back)
      → (lo ≤ j) × (j ≤ b) × (b < word) × Disjoint (suc b) back
  Disjoint-middle lo [] j b v back h = h
  Disjoint-middle lo ((i, (c, w)) ∷ front) j b v back h =
      let rest = Disjoint-middle (suc c) front j b v back h.3 in
      (omega arith, rest.1, rest.2, rest.3)

  pub Disjoint-back :
      (lo : ℕ) (front : Intervals V) (j b : ℕ) (v : V) (back : Intervals V)
      → Disjoint lo (front ++ (j, (b, v)) ∷ back)
      → Ascends (suc b) back
  Disjoint-back lo front j b v back h =
      Disjoint-Ascends (suc b) back (Disjoint-middle lo front j b v back h).3

  pub Disjoint-erase :
      (lo : ℕ) (front : Intervals V) (j b : ℕ) (v : V) (back : Intervals V)
      → Disjoint lo (front ++ (j, (b, v)) ∷ back)
      → Disjoint lo (front ++ back)
  Disjoint-erase lo [] j b v [] h = tt
  Disjoint-erase lo [] j b v ((a, (c, w)) ∷ back) h = (omega arith, h.3.1, h.3.2, h.3.3)
  Disjoint-erase lo ((i, (c, w)) ∷ front) j b v back h =
      (h.0, h.1, h.2, Disjoint-erase (suc c) front j b v back h.3)

  -- After the interval that ends at b, the rounds go on with the next one and trim the rest.
  pub go_on_lem :
      (round : ℕ → Intervals V → Call V) (lo e j b : ℕ) (front back : Intervals V)
      → Ascends lo (front ++ back)
      → Ascends (suc b) back
      → j ≤ b
      → b ≤ e
      → ((a : ℕ) (c : ℕ) (w : V) (rest : Intervals V)
          → back ≡ (a, (c, w)) ∷ rest
          → a ≤ e
          → round a (front ++ back) ≡ ok (front ++ trim e back, success))
      → (next_round e j b (begin back) (front ++ back) >>= λ again.
          go_on round again (front ++ back))
        ≡ ok (front ++ trim e back, success)
  unfolding next_round go_on begin trim
  go_on_lem round lo e j b front [] h u l o rec = refl
  go_on_lem round lo e j b front ((a, (c, w)) ∷ back) h u l o rec =
      ground (arith, deref-middle lo front a c w back h, rec a c w back refl)

  pub Disjoint-weaken : (lo lo' : ℕ) (m : Intervals V) → lo' ≤ lo → Disjoint lo m → Disjoint lo' m
  Disjoint-weaken lo lo' [] l h = tt
  Disjoint-weaken lo lo' ((a, (b, v)) ∷ m) l h = (omega arith, h.1, h.2, h.3)

  pub Disjoint-shrink :
      (lo : ℕ) (front : Intervals V) (j b b' : ℕ) (v : V) (back : Intervals V)
      → Disjoint lo (front ++ (j, (b, v)) ∷ back)
      → j ≤ b'
      → b' ≤ b
      → Disjoint lo (front ++ (j, (b', v)) ∷ back)
  Disjoint-shrink lo [] j b b' v back h l o =
      (h.0, l, omega arith, Disjoint-weaken (suc b) (suc b') back (omega arith) h.3)
  Disjoint-shrink lo ((i, (c, w)) ∷ front) j b b' v back h l o =
      (h.0, h.1, h.2, Disjoint-shrink (suc c) front j b b' v back h.3 l o)

  pub Disjoint-grow :
      (lo : ℕ) (front : Intervals V) (j b b' : ℕ) (v : V) (back : Intervals V)
      → Disjoint lo (front ++ (j, (b, v)) ∷ back)
      → b ≤ b'
      → b' < word
      → Disjoint (suc b') back
      → Disjoint lo (front ++ (j, (b', v)) ∷ back)
  Disjoint-grow lo [] j b b' v back h l w o = (h.0, omega arith, w, o)
  Disjoint-grow lo ((i, (c, x)) ∷ front) j b b' v back h l w o =
      (h.0, h.1, h.2, Disjoint-grow (suc c) front j b b' v back h.3 l w o)

  -- What the round at j leaves of its interval, where no later part of it remains.
  unfoldable pub kept : ℕ → ℕ → ℕ → V → Intervals V
  kept s j b v = if ltb b s then (j, (b, v)) ∷ [] else if ltb j s then (j, (s - 1, v)) ∷ [] else []

  pub cut_one-kept :
      (s e j b : ℕ) (v : V) (back : Intervals V)
      → b ≤ e
      → cut_one s e j b v back ≡ kept s j b v ++ back
  unfolding cut_one kept
  cut_one-kept s e j b v back h = ground arith

  pub cut-kept :
      (s e j b : ℕ) (v : V) (back : Intervals V)
      → j ≤ b
      → b ≤ e
      → (b < s → cut s e back ≡ trim e back)
      → cut s e ((j, (b, v)) ∷ back) ≡ kept s j b v ++ trim e back
  unfolding cut trim kept
  cut-kept s e j b v back l h u = ground arith

  pub kept-Disjoint :
      (lo s : ℕ) (front : Intervals V) (j b : ℕ) (v : V) (back : Intervals V)
      → Disjoint lo (front ++ (j, (b, v)) ∷ back)
      → Disjoint lo ((front ++ kept s j b v) ++ back)
  unfolding kept
  kept-Disjoint lo s front j b v back h = rw (append_assoc front (kept s j b v) back) (
      ground (
        arith,
        Disjoint-shrink lo front j b (s - 1) v back h,
        Disjoint-erase lo front j b v back h,
      ))

  pub cut-trim : (s e : ℕ) (m : Intervals V) → Disjoint s m → cut s e m ≡ trim e m
  unfolding cut trim
  cut-trim s e [] h = refl
  cut-trim s e ((a, (b, v)) ∷ m) h = ground arith

  pub Disjoint-raise :
      (lo hi : ℕ) (m : Intervals V) → lo ≤ hi → Ascends (suc hi) m → Disjoint lo m → Disjoint hi m
  Disjoint-raise lo hi [] l u h = tt
  Disjoint-raise lo hi ((a, (b, v)) ∷ m) l u h = (omega arith, h.1, h.2, h.3)

  pub cut-front :
      (lo s e : ℕ) (front : Intervals V) (j b : ℕ) (v : V) (back : Intervals V)
      → Disjoint lo (front ++ (j, (b, v)) ∷ back)
      → j ≤ s
      → cut s e (front ++ (j, (b, v)) ∷ back) ≡ front ++ cut s e ((j, (b, v)) ∷ back)
  unfolding cut
  cut-front lo s e [] j b v back h l = refl
  cut-front lo s e ((i, (c, w)) ∷ front) j b v back h l = ground (
    arith,
    Disjoint-middle (suc c) front j b v back h.3,
    cut-front (suc c) s e front j b v back h.3 l,
  )
