-- ===== src/ObjectInstanceStorage/DelRange.antt =====
-- The loop of del_range of ObjectInstanceStorage, include/storage/ObjectInstanceStorage.hpp, comes to an
-- end.
use direct_libstorage.Base.{
  ℕ, zero, suc, ◌+◌, ◌-◌, ◌≤◌, ◌<◌, ◌≡◌, refl, subst, Bool, true, false, not, ◌&&◌, ◌||◌, Option,
  none, some, [], ◌∷◌, Outcome, ok, ◌>>=◌, ltb, leb, if◌then◌else◌, arith,
}
use direct_libstorage.Base.Words.{word, add64, add64_lem}
use direct_libstorage.StdMap.{find, upper_bound, deref, assign}
use direct_libstorage.IntervalMap.{Intervals, BeforeBegin, find_it, find_interval, step_back}
use direct_libstorage.ObjectInstanceStorage.Range.{
  ObjectInstanceRange, element, write_bit, grown, erase_from, del_from,
}
use direct_libstorage.ObjectInstanceStorage.Range
use direct_libstorage.ObjectInstanceStorage.{
  ObjectInstanceStorage, del_found, del_round, del_loop, del_range,
}
use direct_libstorage.ObjectInstanceStorage.RangeEnds.{
  Ends, Ends-ok, Ends-bind, bind_ok, ok_same, Ends-deref, Ends-del_range,
}

module _ {T : Type 0} where
  -- The intervals end below the last word.
  abbrev pub EndsBelow : Intervals (ObjectInstanceRange T) → Type 0
  EndsBelow [] = Unit
  EndsBelow ((a, (b, r)) ∷ m) = (b + 1 < word) × EndsBelow m

  EndsBelow-find :
      (a b : ℕ) (r : ObjectInstanceRange T) (m : Intervals (ObjectInstanceRange T))
      → EndsBelow m
      → find a m ≡ some (b, r)
      → b + 1 < word
  unfolding find
  EndsBelow-find a b r [] h q = ground arith
  EndsBelow-find a b r ((i, (c, s)) ∷ m) h q = ground (arith, EndsBelow-find a b r m h.1)

  EndsBelow-deref :
      (a : ℕ) (iv : ℕ × ObjectInstanceRange T) (m : Intervals (ObjectInstanceRange T))
      → EndsBelow m
      → deref a m ≡ ok iv
      → iv.0 + 1 < word
  unfolding deref
  EndsBelow-deref a (b, r) m h q = EndsBelow-find a b r m h (ground arith)

  EndsBelow-assign :
      (a b : ℕ) (r : ObjectInstanceRange T) (m : Intervals (ObjectInstanceRange T))
      → EndsBelow m
      → b + 1 < word
      → EndsBelow (assign a (b, r) m)
  unfolding assign
  EndsBelow-assign a b r [] h l = tt
  EndsBelow-assign a b r ((i, (c, s)) ∷ m) h l = ground (arith, EndsBelow-assign a b r m h.1 l)

module _ {T : Type 0} (before : BeforeBegin (ObjectInstanceRange T)) (moved : T → T) where
  Ends-find_interval :
      (k : ℕ) (m : Intervals (ObjectInstanceRange T)) → Ends (find_interval before k m)
  unfolding find_interval find_it
  Ends-find_interval k m = go (step_back before (upper_bound k m) m)
    where
      go :
          (o : Option ℕ)
          → Ends (elim o as (λ x. Outcome (Option ℕ)) [
            | none ↦ ok none
            | some iv_start ↦ do
              iv ← deref iv_start m
              ok (if not true || (leb iv_start k && leb k iv.0) then some iv_start else none)
          ])
      go none = Ends-ok none
      go (some a) = Ends-bind _ _ (Ends-deref a m) λ iv q. Ends-ok _

  -- The interval that is found ends at or after the index.
  find_interval-reaches :
      (k a : ℕ) (iv : ℕ × ObjectInstanceRange T) (m : Intervals (ObjectInstanceRange T))
      → find_interval before k m ≡ ok (some a)
      → deref a m ≡ ok iv
      → k ≤ iv.0
  unfolding find_interval find_it
  find_interval-reaches k a iv m q d = ground arith

  -- A round that starts at i comes to an index that is neither below i nor the last word.
  abbrev Moves : ℕ → ℕ × ObjectInstanceStorage T → Type 0
  Moves i at = (i ≤ at.0) × (at.0 + 1 < word) × EndsBelow at.1.instance_range

  del_found-Moves :
      (end i : ℕ) (it : Option ℕ) (st : ObjectInstanceStorage T)
      → find_interval before i st.instance_range ≡ ok it
      → EndsBelow st.instance_range
      → i + 1 < word
      → (at : ℕ × ObjectInstanceStorage T) → del_found before moved end i it st ≡ ok at
      → Moves i at
  unfolding del_found
  del_found-Moves end i none st f h w at q =
      let e : (i, st) ≡ at = cc in subst (Moves i) e (omega arith, w, h)
  del_found-Moves end i (some a) st f h w at q =
      let (iv, d, rest) = bind_ok (deref a st.instance_range) _ at q in
      let (v, del, made) = bind_ok (Range.del_range moved _ _ iv.1) _ at rest in
      let low = EndsBelow-deref a iv st.instance_range h d in
      let e = ok_same _ at made in
      subst (Moves i) e (
        find_interval-reaches i a iv st.instance_range f d,
        low,
        EndsBelow-assign a iv.0 v st.instance_range h low,
      )

  Ends-del_found :
      (end i : ℕ) (it : Option ℕ) (st : ObjectInstanceStorage T)
      → Ends (del_found before moved end i it st)
  unfolding del_found
  Ends-del_found end i none st = Ends-ok (i, st)
  Ends-del_found end i (some a) st =
      Ends-bind _ _ (Ends-deref a st.instance_range)
        λ iv q. Ends-bind _ _ (Ends-del_range moved _ _ iv.1) λ v p. Ends-ok _

  Ends-del_round :
      (end i : ℕ) (st : ObjectInstanceStorage T) → Ends (del_round before moved end i st)
  unfolding del_round
  Ends-del_round end i st =
      Ends-bind _ _ (Ends-find_interval i st.instance_range)
        λ it q. Ends-bind _ _ (Ends-del_found end i it st) λ at p. Ends-ok _

  del_round-Moves :
      (end i : ℕ) (st : ObjectInstanceStorage T) (at : ℕ × ObjectInstanceStorage T)
      → EndsBelow st.instance_range
      → i + 1 < word
      → del_round before moved end i st ≡ ok at
      → Moves i at
  unfolding del_round
  del_round-Moves end i st at h w q =
      let (it, f, rest) = bind_ok (find_interval before i st.instance_range) _ at q in
      let (found, run, made) = bind_ok (del_found before moved end i it st) _ at rest in
      subst (Moves i) (ok_same _ at made) (del_found-Moves end i it st f h w found run)

  Ends-choice :
      (b : Bool) (st : ObjectInstanceStorage T) (o : Outcome (ObjectInstanceStorage T))
      → (b ≡ false → Ends o)
      → Ends (if b then ok st else o)
  Ends-choice true st o h = Ends-ok st
  Ends-choice false st o h = h refl

  Ends-del_loop :
      (end fuel i : ℕ) (st : ObjectInstanceStorage T)
      → EndsBelow st.instance_range
      → i < word
      → end + 1 < word
      → 0 < fuel
      → suc (suc end) ≤ i + fuel
      → Ends (del_loop before moved end fuel i st)
  unfolding del_loop
  Ends-del_loop end zero i st h w u p l = absurd (omega arith)
  Ends-del_loop end (suc fuel) i st h w u p l = Ends-choice (ltb end i) st _ λ within.
      let low : i ≤ end = ground arith in
      Ends-bind _ _ (Ends-del_round end i st) λ at q.
        let (more, bound, rest) = del_round-Moves end i st at h (omega arith) q in
        let next : add64 at.0 1 ≡ at.0 + 1 = add64_lem at.0 1 bound in
        Ends-del_loop end fuel (add64 at.0 1) at.1 rest (omega (arith, next, bound)) u (omega arith)
          (omega (arith, next, more))

  -- Whatever an implementation makes of --m.begin(): del_range of indices up to `end`, below the last
  -- word, on a storage whose ranges end below the last word, comes to an end within the fuel that the
  -- definition gives it.
  pub del_range-Ends :
      (start end : ℕ) (st : ObjectInstanceStorage T)
      → EndsBelow st.instance_range
      → start ≤ end
      → end + 1 < word
      → Ends (del_range before moved start end st)
  unfolding del_range
  del_range-Ends start end st h l u =
      Ends-del_loop end (suc (suc end) - start) start st h (omega arith) u (omega arith)
        (omega arith)
