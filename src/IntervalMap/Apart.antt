-- ===== src/IntervalMap/Apart.antt =====
-- insert of include/storage/IntervalMap.hpp, of a value that is equal to no value of the map.
use direct_libstorage.Base.{
  ℕ, ◌≤◌, ◌<◌, ◌≡◌, refl, ap, inl, inr, Bool, false, Option, none, some, [], ◌∷◌, Outcome, ok,
  throw, Exception, dangling_iterator, ◌⊎◌, ◌>>=◌, success, arith, Eq, LawfulEq, ltb, if◌then◌else◌,
}
use direct_libstorage.Base.Words.{word}
use direct_libstorage.StdMap.{deref, find, begin, next}
use direct_libstorage.IntervalMap.{Intervals, BeforeBegin, find_it, has_range}
use direct_libstorage.IntervalMap.Insert.{extend_left, extend_right, finish, insert_impl}
use direct_libstorage.IntervalMap.Update.{insert}
use direct_libstorage.IntervalMap.Meaning.{Disjoint, Clear, value_at, join, place}
use direct_libstorage.IntervalMap.LookupLaws.{Meets, disjoint, shared, has_range-Meets}
use direct_libstorage.IntervalMap.InsertLaws.{insert_impl-place}

-- An operator== that holds of nothing.
abbrev pub never : {V : Type 0} → Eq V
never = record { beq = λ v w. false }

pub never_lawful : (V : Type 0) → LawfulEq V ⦃e = never⦄
never_lawful V = record { same = λ v w q. ground arith }

pub place-never :
    {V : Type 0} (s e : ℕ) (v : V) (a b : ℕ) (w : V) (m : Intervals V)
    → place ⦃e = never⦄ s e v ((a, (b, w)) ∷ m)
      ≡ (if ltb e a then (s, (e, v)) ∷ (a, (b, w)) ∷ m else (a, (b, w)) ∷ place ⦃e = never⦄ s e v m)
unfolding place join
place-never s e v a b w m = ground arith

module _ {V : Type 0} ⦃e : Eq V⦄ where
  -- No value of the map is equal to v.
  abbrev pub Differs : V → Intervals V → Type 0
  Differs v [] = Unit
  Differs v ((a, (b, w)) ∷ m) = (e.beq v w ≡ false) × Differs v m

  Differs-find :
      (v : V) (it b : ℕ) (w : V) (m : Intervals V)
      → Differs v m
      → find it m ≡ some (b, w)
      → e.beq v w ≡ false
  unfolding find
  Differs-find v it b w [] d q = ground arith
  Differs-find v it b w ((a, (c, x)) ∷ m) d q = ground (arith, Differs-find v it b w m d.1)

  deref-cases :
      (it : ℕ) (v : V) (m : Intervals V)
      → Differs v m
      → ((x : Exception) × (deref it m ≡ throw x))
        ⊎ ((iv : ℕ × V) × (deref it m ≡ ok iv) × (e.beq v iv.1 ≡ false))
  unfolding deref
  deref-cases it v m d = go (find it m) refl
    where
      go :
          (o : Option (ℕ × V))
          → find it m ≡ o
          → ((x : Exception) × (deref it m ≡ throw x))
            ⊎ ((iv : ℕ × V) × (deref it m ≡ ok iv) × (e.beq v iv.1 ≡ false))
      go none q = inl (dangling_iterator, rw (deref, q) refl)
      go (some (b, w)) q = inr ((b, w), rw (deref, q) refl, Differs-find v it b w m d q)

  -- The interval before is not extended.
  extend_left-cases :
      (it : Option ℕ) (s end : ℕ) (v : V) (m : Intervals V)
      → Differs v m
      → ((x : Exception) × (extend_left it s end v m ≡ throw x)
          × (extend_left ⦃e = never⦄ it s end v m ≡ throw x))
        ⊎ ((j : Option ℕ) × (extend_left it s end v m ≡ ok (m, false, j))
            × (extend_left ⦃e = never⦄ it s end v m ≡ ok (m, false, j)))
  unfolding extend_left
  extend_left-cases none s end v m d = inr (begin m, refl, refl)
  extend_left-cases (some it) s end v m d = elim (deref-cases it v m d) [
    | inl (x, q) ↦ inl (x, rw q refl, rw q refl)
    | inr (iv, q, f) ↦ inr (next it m, rw (q, f) (ground arith), rw q (ground arith))
  ]

  finish-never :
      (it_prev it : Option ℕ) (s end : ℕ) (v : V) (m : Intervals V)
      → Differs v m
      → finish false it_prev it s end v m ≡ finish ⦃e = never⦄ false it_prev it s end v m
  unfolding finish extend_right
  finish-never it_prev none s end v m d = refl
  finish-never it_prev (some it) s end v m d = elim (deref-cases it v m d) [
    | inl (x, q) ↦ rw q refl
    | inr (iv, q, f) ↦ rw (q, f) (ground arith)
  ]

module _ {V : Type 0} ⦃e : Eq V⦄ (before : BeforeBegin V) where
  insert_impl-never :
      (s end : ℕ) (v : V) (m : Intervals V)
      → Differs v m
      → insert_impl before s end v m ≡ insert_impl ⦃e = never⦄ before s end v m
  unfolding insert_impl
  insert_impl-never s end v m d = go (find_it before s false m) refl
    where
      go :
          (r : Outcome (Option ℕ))
          → find_it before s false m ≡ r
          → insert_impl before s end v m ≡ insert_impl ⦃e = never⦄ before s end v m
      go (throw x) q = rw q refl
      go (ok it) q = elim (extend_left-cases it s end v m d) [
        | inl (x, l, n) ↦ rw (q, l, n) refl
        | inr (j, l, n) ↦
            rw (q, l, n) (ap (λ o. o >>= λ m'. ok (m', success)) (finish-never it j s end v m d))
      ]

  pub value_at-Clear :
      (k s end : ℕ) (m : Intervals V) → Clear s end m → s ≤ k → k ≤ end → value_at k m ≡ none
  unfolding value_at
  value_at-Clear k s end [] c l u = refl
  value_at-Clear k s end ((a, (b, v)) ∷ m) c l u = ground (arith, value_at-Clear k s end m c.1 l u)

  has_range-Clear :
      (s end : ℕ) (m : Intervals V) {r : Outcome Bool}
      → Clear s end m
      → Meets s end m r
      → r ≡ ok false
  has_range-Clear s end m c (disjoint d) = refl
  has_range-Clear s end m c (shared k v l u q) =
      let none_here = value_at-Clear k s end m c l u in absurd cc

  -- With end() as the result of going back from begin(), has(start, end) of a clear range answers
  -- false on a well-formed map.
  pub has_range-free :
      (s end : ℕ) (m : Intervals V)
      → ((n : Intervals V) → before n ≡ none)
      → Disjoint 0 m
      → Clear s end m
      → s ≤ end
      → has_range before s end m ≡ ok false
  has_range-free s end m none_before h c l =
      has_range-Clear s end m c (has_range-Meets before s end m none_before h l)

  -- With end() as the result of going back from begin(): insert of an interval [start, end] of
  -- words, start at most end, that is clear in a well-formed map, and of a value that is equal to no
  -- value of the map, succeeds. Each point of the interval then has the value, every other point
  -- is as before, and the map is well-formed.
  pub insert-apart :
      (s end : ℕ) (v : V) (m : Intervals V)
      → ((n : Intervals V) → before n ≡ none)
      → Disjoint 0 m
      → Clear s end m
      → s ≤ end
      → end < word
      → Differs v m
      → insert before s end v m ≡ ok (place ⦃e = never⦄ s end v m, success)
  unfolding insert
  insert-apart s end v m none_before h c l w d = rw (
    has_range-free s end m none_before h c l,
    insert_impl-never s end v m d,
    insert_impl-place ⦃e = never⦄ ⦃law = never_lawful V⦄ before 0 s end v m none_before h c l w,
  )
