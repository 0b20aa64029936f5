-- ===== src/ObjectInstanceStorage/Laws.antt =====
-- What the operations of ObjectInstanceStorage, include/storage/ObjectInstanceStorage.hpp, do to the
-- objects under its indices.
use direct_libstorage.Base.{
  ℕ, ◌+◌, ◌-◌, ◌<◌, ◌≡◌, refl, sym, ap, ◌∙◌, inl, inr, Bool-cases, subst, Option, none, some, [],
  ◌∷◌, Outcome, ok, ◌==◌, arith, Option-cases,
}
use direct_libstorage.Base.Words.{word, sub64_lem}
use direct_libstorage.StdMap.{find, deref}
use direct_libstorage.IntervalMap.{Intervals, BeforeBegin, find_interval}
use direct_libstorage.IntervalMap.Meaning.{Disjoint, value_at}
use direct_libstorage.IntervalMap.LookupLaws.{Finds, nothing, interval, find_interval-Finds}
use direct_libstorage.ObjectInstanceStorage.Range.{ObjectInstanceRange, range_eq}
use direct_libstorage.ObjectInstanceStorage.RangeLaws.{IsFull, object, get-object}
use direct_libstorage.ObjectInstanceStorage.{ObjectInstanceStorage, get}

module _ {T : Type 0} where
  -- The ranges have their place in the map as their start and size, and an object for each index.
  abbrev pub Ranges : Intervals (ObjectInstanceRange T) → Type 0
  Ranges [] = Unit
  Ranges ((a, (b, r)) ∷ m) = ((r.range_start ≡ a) × (r.size ≡ b + 1 - a) × IsFull r) × Ranges m

  pub record IsWellFormed (st : ObjectInstanceStorage T) : Type 0 where
    pub valid : Disjoint 0 st.instance_range
    pub ranges : Ranges st.instance_range

  -- The object that a range has for an index of the storage.
  abbrev pub ranged : ℕ → Option (ObjectInstanceRange T) → Option T
  ranged k none = none
  ranged k (some r) = object r (k - r.range_start)

  -- The object under an index, if there is one.
  unfoldable pub object_at : ℕ → ObjectInstanceStorage T → Option T
  object_at k st = elim (find k st.instance_map) [
    | some t ↦ some t
    | none ↦ ranged k (value_at k st.instance_range)
  ]

  -- A range is what the map says that it is.
  abbrev pub IsRange : ℕ → ℕ × ObjectInstanceRange T → Type 0
  IsRange a iv = (iv.1.range_start ≡ a) × (iv.1.size ≡ iv.0 + 1 - a) × IsFull iv.1

  Ranges-find :
      (a : ℕ) (iv : ℕ × ObjectInstanceRange T) (m : Intervals (ObjectInstanceRange T))
      → Ranges m
      → find a m ≡ some iv
      → IsRange a iv
  unfolding find
  Ranges-find a iv [] h q = ground arith
  Ranges-find a iv ((i, (c, s)) ∷ m) h q = elim (Bool-cases (i == a)) [
    | inl p ↦
        let e : i ≡ a = ground arith in
        let same : (c, s) ≡ iv = ground arith in
        subst (IsRange a) same (subst (λ x. IsRange x (c, s)) e h.0)
    | inr p ↦ Ranges-find a iv m h.1 (ground arith)
  ]

  Ranges-deref :
      (a : ℕ) (iv : ℕ × ObjectInstanceRange T) (m : Intervals (ObjectInstanceRange T))
      → Ranges m
      → deref a m ≡ ok iv
      → IsRange a iv
  unfolding deref
  Ranges-deref a iv m h q = Ranges-find a iv m h (ground arith)

  object_at-single :
      (k : ℕ) (t : T) (st : ObjectInstanceStorage T)
      → find k st.instance_map ≡ some t
      → object_at k st ≡ some t
  unfolding object_at
  object_at-single k t st q = rw (object_at, q) refl

  pub object_at-ranged :
      (k : ℕ) (st : ObjectInstanceStorage T)
      → find k st.instance_map ≡ none
      → object_at k st ≡ ranged k (value_at k st.instance_range)
  unfolding object_at
  object_at-ranged k st q = rw (object_at, q) refl

module _ {T : Type 0} (before : BeforeBegin (ObjectInstanceRange T)) where
  get-Finds :
      (k : ℕ) (st : ObjectInstanceStorage T) {r : Outcome (Option ℕ)}
      → IsWellFormed st
      → k < word
      → find k st.instance_map ≡ none
      → find_interval before k st.instance_range ≡ r
      → Finds k st.instance_range r
      → get before k st ≡ ok (object_at k st)
  unfolding get
  get-Finds k st h w q f (nothing e) = rw (get, q, f, object_at-ranged k st q, e) refl
  get-Finds k st h w q f (interval start end v d l u e) =
      let (starts, sized, full) = Ranges-deref start (end, v) st.instance_range h.ranges d in
      rw (get, q, f, d, object_at-ranged k st q, e, sub64_lem k start l w)
        (get-object (k - start) v full ∙ ap (λ n. ok (object v (k - n))) (sym starts))

  get-single :
      (k : ℕ) (t : T) (st : ObjectInstanceStorage T)
      → find k st.instance_map ≡ some t
      → get before k st ≡ ok (some t)
  unfolding get
  get-single k t st q = rw (get, q) refl

  -- With end() as the result of going back from begin(), get of an index, a word, on a well-formed
  -- storage succeeds and answers the object under the index, if there is one: a single one comes
  -- before one of a range.
  pub get_lem :
      (k : ℕ) (st : ObjectInstanceStorage T)
      → ((n : Intervals (ObjectInstanceRange T)) → before n ≡ none)
      → IsWellFormed st
      → k < word
      → get before k st ≡ ok (object_at k st)
  get_lem k st none_before h w = elim (Option-cases (find k st.instance_map)) [
    | inl q ↦
        get-Finds k st h w q refl
          (find_interval-Finds before k st.instance_range none_before h.valid)
    | inr (t, q) ↦ get-single k t st q ∙ ap ok (sym (object_at-single k t st q))
  ]
