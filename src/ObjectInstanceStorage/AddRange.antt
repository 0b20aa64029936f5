-- ===== src/ObjectInstanceStorage/AddRange.antt =====
-- add_range of ObjectInstanceStorage, include/storage/ObjectInstanceStorage.hpp: many objects at once.
use direct_libstorage.Base.{
  ℕ, zero, suc, ◌+◌, ◌-◌, ◌≤◌, ◌<◌, ◌≡◌, refl, sym, ap, ◌∙◌, inl, inr, Bool-cases, subst, Bool,
  true, false, ◌&&◌, Option, none, some, [], ◌∷◌, ok, success, ltb, leb, dec_lt, ◌==◌,
  if◌then◌else◌, arith,
}
use direct_libstorage.Base.Words.{word, add64, sub64, add64_lem, sub64_lem}
use direct_libstorage.StdMap.{Map, find, emplace}
use direct_libstorage.StdMap.Lookup.{find-emplace}
use direct_libstorage.IntervalMap.{Intervals, BeforeBegin, has_range}
use direct_libstorage.IntervalMap.Meaning.{Disjoint, Clear, value_at, place, join}
use direct_libstorage.IntervalMap.Points.{value_at-place, place-Disjoint}
use direct_libstorage.IntervalMap.Apart.{
  never, never_lawful, place-never, Differs, has_range-free, insert-apart,
}
use direct_libstorage.IntervalMap.Update.{insert}
use direct_libstorage.ObjectInstanceStorage.Range.{ObjectInstanceRange, new_range, range_eq}
use direct_libstorage.ObjectInstanceStorage.Range
use direct_libstorage.ObjectInstanceStorage.RangeLaws.{IsFull, fill_new}
use direct_libstorage.ObjectInstanceStorage.Laws.{
  Ranges, IsWellFormed, ranged, object_at, object_at-ranged,
}
use direct_libstorage.ObjectInstanceStorage.{ObjectInstanceStorage, emplace_from, add_range}

emplace_fresh :
    {A : Type 0} (k : ℕ) (a : A) (m : Map A) → find k m ≡ none → (emplace k a m).1 ≡ true
unfolding find emplace
emplace_fresh k a [] q = refl
emplace_fresh k a ((j, b) ∷ m) q = ground (arith, emplace_fresh k a m)

-- The loop that puts `count` objects into a std::map that has none of the indices.
emplace_from_lem :
    {T : Type 0} (f : ℕ → ℕ → T) (start i count : ℕ) (m : Map T)
    → ((j : ℕ) → i ≤ j → j < i + count → find j m ≡ none)
    → (m' : Map T) × (emplace_from f start i count m ≡ ok m')
      × ((j : ℕ)
          → find j m'
            ≡ (if leb i j && ltb j (i + count) then some (f start (j - start)) else find j m))
unfolding emplace_from
emplace_from_lem f start i zero m free = (m, refl, λ j. ground arith)
emplace_from_lem f start i (suc count) m free =
    let here = free i (omega arith) (omega arith) in
    let one = (emplace i (f start (i - start)) m).0 in
    let found : (j : ℕ) → find j one ≡ (if j == i then some (f start (i - start)) else find j m) =
      λ j. find-emplace j i (f start (i - start)) m here in
    let (m', run, all) =
      emplace_from_lem f start (suc i) count one
        (λ j l u. ground (arith, found j, free j (omega arith) (omega arith))) in
    (
      m',
      rw (emplace_fresh i (f start (i - start)) m here) run,
      λ j. elim (Bool-cases (j == i)) [
        | inl q ↦
            let e : j ≡ i = ground arith in
            let same = ap (λ n. some (f start (n - start))) e in
            ground (arith, all j, found j, same)
        | inr q ↦ ground (arith, all j, found j)
      ],
    )

add_range_size :
    (start end : ℕ) → start ≤ end → end + 1 < word → add64 (sub64 end start) 1 ≡ end + 1 - start
add_range_size start end l w =
    ap (λ n. add64 n 1) (sub64_lem end start l (omega arith))
    ∙ add64_lem (end - start) 1 (omega arith)
    ∙ omega arith

module _ {T : Type 0} where
  -- A range that starts at s is equal to none that does not meet [s, e].
  Ranges-Differs :
      (s e lo : ℕ) (r : ObjectInstanceRange T) (m : Intervals (ObjectInstanceRange T))
      → r.range_start ≡ s
      → s ≤ e
      → Disjoint lo m
      → Clear s e m
      → Ranges m
      → Differs r m
  Ranges-Differs s e lo r [] q l h c g = tt
  Ranges-Differs s e lo r ((a, (b, w)) ∷ m) q l h c g =
      (ground (arith, g.0.0, c.0), Ranges-Differs s e (suc b) r m q l h.3 c.1 g.1)

  Ranges-choice :
      (m n : Intervals (ObjectInstanceRange T)) (b : Bool)
      → Ranges m
      → Ranges n
      → Ranges (if b then m else n)
  Ranges-choice m n true h g = h
  Ranges-choice m n false h g = g

  Ranges-place :
      (s e : ℕ) (r : ObjectInstanceRange T) (m : Intervals (ObjectInstanceRange T))
      → r.range_start ≡ s
      → r.size ≡ e + 1 - s
      → IsFull r
      → Ranges m
      → Ranges (place ⦃e = never⦄ s e r m)
  unfolding place join
  Ranges-place s e r [] q l f g = ((q, l, f), tt)
  Ranges-place s e r ((a, (b, w)) ∷ m) q l f g = subst Ranges (sym (place-never s e r a b w m)) (
      Ranges-choice ((s, (e, r)) ∷ (a, (b, w)) ∷ m) ((a, (b, w)) ∷ place ⦃e = never⦄ s e r m)
        (ltb e a) ((q, l, f), g) (g.0, Ranges-place s e r m q l f g.1))

module _ {T : Type 0} (before : BeforeBegin (ObjectInstanceRange T)) where
  add_small :
      (f : ℕ → ℕ → T) (start end : ℕ) (st : ObjectInstanceStorage T)
      → has_range before start end st.instance_range ≡ ok false
      → start ≤ end
      → end + 1 < word
      → end + 1 - start < 8
      → ((k : ℕ) → start ≤ k → k ≤ end → find k st.instance_map ≡ none)
      → (m : Map T) × (add_range before f start end st ≡ ok (record st { instance_map = m }))
        × ((k : ℕ)
            → find k m ≡ (
                if leb start k && leb k end
                then some (f start (k - start))
                else find k st.instance_map))
  unfolding add_range
  add_small f start end st clear l w small free =
      let (m, run, all) =
        emplace_from_lem f start start (suc end - start) st.instance_map
          (λ j lo hi. free j lo (omega arith)) in
      (
        m,
        rw (clear, add_range_size start end l w) (ground (arith, run)),
        λ k. ground (arith, all k),
      )

  add_large :
      (f : ℕ → ℕ → T) (start end : ℕ) (r : ObjectInstanceRange T) (st : ObjectInstanceStorage T)
      → has_range before start end st.instance_range ≡ ok false
      → start ≤ end
      → end + 1 < word
      → 8 ≤ end + 1 - start
      → Range.add_range f 0 (sub64 (new_range {T = T} start end).size 1) (new_range start end)
        ≡ ok r
      → (m : Intervals (ObjectInstanceRange T))
      → insert before start end r st.instance_range ≡ ok (m, success)
      → add_range before f start end st ≡ ok (record st { instance_range = m })
  unfolding add_range new_range
  add_large f start end r st clear l w large fills m inserts =
      rw (clear, fills, inserts) (ground (arith, add_range_size start end l w))

  -- What add_range of [start, end] leaves: a well-formed storage that has the objects that the function
  -- makes under these indices, and under every other index what it had.
  abbrev pub Adds : (ℕ → ℕ → T) → ℕ → ℕ → ObjectInstanceStorage T → Type 0
  Adds f start end st =
      (st' : ObjectInstanceStorage T) × (add_range before f start end st ≡ ok st')
      × IsWellFormed st'
      × ((k : ℕ)
          → object_at k st'
            ≡ (if leb start k && leb k end then some (f start (k - start)) else object_at k st))

  Adds-small :
      (f : ℕ → ℕ → T) (start end : ℕ) (st : ObjectInstanceStorage T)
      → has_range before start end st.instance_range ≡ ok false
      → IsWellFormed st
      → start ≤ end
      → end + 1 < word
      → end + 1 - start < 8
      → ((k : ℕ) → start ≤ k → k ≤ end → find k st.instance_map ≡ none)
      → Adds f start end st
  unfolding object_at
  Adds-small f start end st clear h l w small free =
      let (m, run, all) = add_small f start end st clear l w small free in
      (
        record st { instance_map = m },
        run,
        record { valid = h.valid; ranges = h.ranges },
        λ k. elim (Bool-cases (leb start k && leb k end)) [
          | inl q ↦ rw (object_at, all k, q) refl
          | inr q ↦ rw (object_at, all k, q) refl
        ],
      )

  object_at-value :
      (k : ℕ) (m : Intervals (ObjectInstanceRange T)) (st : ObjectInstanceStorage T)
      → value_at k m ≡ value_at k st.instance_range
      → object_at k (record st { instance_range = m }) ≡ object_at k st
  unfolding object_at
  object_at-value k m st q =
      ap
        (λ o. elim (find k st.instance_map) as (λ x. Option T) [
          | some t ↦ some t
          | none ↦ ranged k o
        ])
        q

  Adds-large :
      (f : ℕ → ℕ → T) (start end : ℕ) (st : ObjectInstanceStorage T)
      → ((n : Intervals (ObjectInstanceRange T)) → before n ≡ none)
      → has_range before start end st.instance_range ≡ ok false
      → IsWellFormed st
      → Clear start end st.instance_range
      → start ≤ end
      → end + 1 < word
      → 8 ≤ end + 1 - start
      → ((k : ℕ) → start ≤ k → k ≤ end → find k st.instance_map ≡ none)
      → Adds f start end st
  unfolding object_at
  Adds-large f start end st none_before taken h c l w large free =
      let (r, fills, full, starts, sized, objects) = fill_new f start end (omega arith) w in
      let m = place ⦃e = never⦄ start end r st.instance_range in
      let inserts =
        insert-apart before start end r st.instance_range none_before h.valid c l (omega arith)
          (Ranges-Differs start end 0 r st.instance_range starts l h.valid c h.ranges) in
      let value : (k : ℕ)
          → value_at k m
            ≡ (if leb start k && leb k end then some r else value_at k st.instance_range) =
        λ k.
          value_at-place ⦃e = never⦄ ⦃law = never_lawful (ObjectInstanceRange T)⦄ k start end 0 r
            st.instance_range h.valid c l in
      (
        record st { instance_range = m },
        add_large f start end r st taken l w large fills m inserts,
        record {
          valid =
              place-Disjoint ⦃e = never⦄ ⦃law = never_lawful (ObjectInstanceRange T)⦄ start end 0 r
                st.instance_range h.valid c l (omega arith) (omega arith);
          ranges = Ranges-place start end r st.instance_range starts sized full h.ranges;
        },
        λ k. elim (Bool-cases (leb start k && leb k end)) [
          | inl q ↦
              object_at-ranged k (record st { instance_range = m })
                (free k (ground arith) (ground arith))
              ∙ ap (ranged k) (value k)
              ∙ rw (q, starts) (objects (k - start) ∙ ground arith)
          | inr q ↦ object_at-value k m st (value k ∙ rw q refl) ∙ rw q refl
        ],
      )

  -- With end() as the result of going back from begin(): add_range of indices [start, end], start at
  -- most end and end below the last word, on a well-formed storage in which no range meets them and
  -- none of them has a single object, succeeds. Each index then has the object that the function
  -- makes of the start and the offset, every other index has what it had, and the storage is
  -- well-formed; this holds for ranges below and above the threshold.
  pub add_range_lem :
      (f : ℕ → ℕ → T) (start end : ℕ) (st : ObjectInstanceStorage T)
      → ((n : Intervals (ObjectInstanceRange T)) → before n ≡ none)
      → IsWellFormed st
      → Clear start end st.instance_range
      → start ≤ end
      → end + 1 < word
      → ((k : ℕ) → start ≤ k → k ≤ end → find k st.instance_map ≡ none)
      → Adds f start end st
  add_range_lem f start end st none_before h c l w free =
      let taken = has_range-free before start end st.instance_range none_before h.valid c l in
      elim (dec_lt (end + 1 - start) 8) [
        | yes p ↦ Adds-small f start end st taken h l w p free
        | no p ↦ Adds-large f start end st none_before taken h c l w (omega arith) free
      ]
