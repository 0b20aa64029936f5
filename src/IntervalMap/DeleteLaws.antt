-- ===== src/IntervalMap/DeleteLaws.antt =====
-- del computes the reference definition `cut`, on every well-formed map.
use direct_libstorage.Base.{
  ℕ, zero, suc, ◌+◌, ◌≤◌, ◌<◌, ◌≡◌, refl, sym, ap, ◌∙◌, false, Option, none, some, [], ◌∷◌, ◌++◌,
  ok, ◌>>=◌, arith, success, ltb, length, length-append, append_assoc, dec_lt, subst,
}
use direct_libstorage.StdMap.{Ascends, begin}
use direct_libstorage.StdMap.Split.{next-middle, Ascends-weaken, Place, locate}
use direct_libstorage.IntervalMap.{Intervals, BeforeBegin, Call}
use direct_libstorage.IntervalMap.Delete.{next_round, go_on, first_of_round, del_impl, del}
use direct_libstorage.IntervalMap.Meaning.{Disjoint, trim, cut}
use direct_libstorage.IntervalMap.CutLaws.{
  cut_one, cut_interval_lem, Disjoint-middle, go_on_lem, kept, cut_one-kept, cut-kept,
  kept-Disjoint, cut-trim, Disjoint-raise, cut-front,
}
use direct_libstorage.IntervalMap.FindLaws.{
  Disjoint-Ascends, deref-middle, find_it-after, find_it-below,
}

module _ {V : Type 0} (before : BeforeBegin V) where
  -- The rest of a round that works on the interval at j.
  round_lem :
      (fuel lo s e i : ℕ) (front : Intervals V) (j b : ℕ) (v : V) (back : Intervals V)
      → Disjoint lo (front ++ (j, (b, v)) ∷ back)
      → s ≤ e
      → first_of_round before s i (front ++ (j, (b, v)) ∷ back) ≡ ok (some j)
      → del_impl before (suc fuel) s e i (front ++ (j, (b, v)) ∷ back) ≡ (
          next_round e j b (begin back) (front ++ cut_one s e j b v back) >>= λ again.
          go_on
            (λ iv2 m. del_impl before fuel iv2 e (i + 1) m)
            again
            (front ++ cut_one s e j b v back))
  unfolding del_impl
  round_lem fuel lo s e i front j b v back h o first =
      let asc = Disjoint-Ascends lo _ h in
      let (low, order, bound, rest) = Disjoint-middle lo front j b v back h in
      let in_order : ltb b j ≡ false = ground arith in
      rw (
        first,
        deref-middle lo front j b v back asc,
        in_order,
        cut_interval_lem lo s e front j b v back asc order bound o
            (Disjoint-Ascends (suc b) back rest),
        next-middle lo front j (b, v) back asc,
      )

  first_of_round-after :
      (lo s i : ℕ) (front : Intervals V) (j b : ℕ) (v : V) (back : Intervals V)
      → Ascends lo (front ++ (j, (b, v)) ∷ back)
      → j ≤ s
      → Ascends (suc s) back
      → first_of_round before s i (front ++ (j, (b, v)) ∷ back) ≡ ok (some j)
  unfolding first_of_round
  first_of_round-after lo s i front j b v back h l u =
      rw (find_it-after before lo s front j b v back h l u)

  -- No round follows one whose interval ends behind e.
  stop_lem :
      (round : ℕ → Intervals V → Call V) (e j b : ℕ) (it : Option ℕ) (m : Intervals V)
      → e ≤ b
      → (next_round e j b it m >>= λ again. go_on round again m) ≡ ok (m, success)
  unfolding next_round go_on
  stop_lem round e j b none m h = refl
  stop_lem round e j b (some it) m h = ground arith

  cut_one-cut :
      (s e j b : ℕ) (v : V) (back : Intervals V)
      → s ≤ e
      → e < b
      → cut_one s e j b v back ≡ cut s e ((j, (b, v)) ∷ back)
  unfolding cut_one cut trim
  cut_one-cut s e j b v back o h = ground arith

  -- From the interval at j on, the rounds cut [s, e] out of the map.
  rounds_lem :
      (fuel lo s e i : ℕ) (front : Intervals V) (j b : ℕ) (v : V) (back : Intervals V)
      → Disjoint lo (front ++ (j, (b, v)) ∷ back)
      → s ≤ e
      → length back < fuel
      → first_of_round before s i (front ++ (j, (b, v)) ∷ back) ≡ ok (some j)
      → (b < s → Disjoint s back)
      → del_impl before fuel s e i (front ++ (j, (b, v)) ∷ back)
        ≡ ok (front ++ cut s e ((j, (b, v)) ∷ back), success)
  rounds_lem zero lo s e i front j b v back h o f first u = absurd (omega arith)
  rounds_lem (suc fuel) lo s e i front j b v back h o f first u =
      let (low, order, bound, rest) = Disjoint-middle lo front j b v back h in
      let whole = kept-Disjoint lo s front j b v back h in
      round_lem fuel lo s e i front j b v back h o first ∙ elim (dec_lt e b) [
        | yes p ↦ rw (cut_one-cut s e j b v back o p) (
            stop_lem (λ iv2 m. del_impl before fuel iv2 e (i + 1) m) e j b (begin back) _
              (omega arith))
        | no p ↦
            rw
              (
                cut_one-kept s e j b v back (omega arith),
                ← append_assoc front (kept s j b v) back,
                cut-kept s e j b v back order (omega arith) (λ l. cut-trim s e back (u l)),
                ← append_assoc front (kept s j b v) (trim e back),
              )
              (go_on_lem (λ iv2 m. del_impl before fuel iv2 e (i + 1) m) lo e j b
                (front ++ kept s j b v) back (Disjoint-Ascends lo _ whole)
                (Disjoint-Ascends (suc b) back rest) order (omega arith)
                (λ a c w r q l.
                  let whole' = subst (λ bk. Disjoint lo ((front ++ kept s j b v) ++ bk)) q whole in
                  let (low', order', bound', rest') =
                    Disjoint-middle lo (front ++ kept s j b v) a c w r whole' in
                  subst
                    (λ bk.
                      del_impl before fuel a e (i + 1) ((front ++ kept s j b v) ++ bk)
                      ≡ ok ((front ++ kept s j b v) ++ trim e bk, success))
                    (sym q)
                    (rounds_lem fuel lo a e (i + 1) (front ++ kept s j b v) a c w r whole' l
                        (omega (arith, ap length q))
                        (first_of_round-after lo a (i + 1) (front ++ kept s j b v) a c w r
                          (Disjoint-Ascends lo _ whole') (omega arith)
                          (Ascends-weaken (suc c) (suc a) r (omega arith)
                            (Disjoint-Ascends (suc c) r rest')))
                        (λ h. absurd (omega arith))
                      ∙ ap (λ x. ok ((front ++ kept s j b v) ++ x, success))
                          (cut-trim a e ((a, (c, w)) ∷ r) (omega arith, order', bound', rest')))))
      ]

  first_of_round-below :
      (s : ℕ) (m : Intervals V)
      → before m ≡ none
      → Ascends (suc s) m
      → first_of_round before s 0 m ≡ ok (begin m)
  unfolding first_of_round
  first_of_round-below s m none_before u = rw (find_it-below before s m none_before u)

  del-below :
      (lo s e : ℕ) (m : Intervals V)
      → before m ≡ none
      → Disjoint lo m
      → s ≤ e
      → Ascends (suc s) m
      → del before s e m ≡ ok (cut s e m, success)
  unfolding del begin
  del-below lo s e [] none_before h l u =
      unfold del_impl cut in rw (first_of_round-below s [] none_before u)
  del-below lo s e ((a, (b, v)) ∷ back) none_before h l u =
      rounds_lem (suc (suc (length back))) lo s e 0 [] a b v back h l (omega arith)
        (first_of_round-below s ((a, (b, v)) ∷ back) none_before u) (λ p. absurd (omega arith))

  del-after :
      (lo s e : ℕ) (front : Intervals V) (j b : ℕ) (v : V) (back : Intervals V)
      → Disjoint lo (front ++ (j, (b, v)) ∷ back)
      → s ≤ e
      → j ≤ s
      → Ascends (suc s) back
      → del before s e (front ++ (j, (b, v)) ∷ back)
        ≡ ok (cut s e (front ++ (j, (b, v)) ∷ back), success)
  unfolding del
  del-after lo s e front j b v back h l le u =
      rounds_lem (suc (length (front ++ (j, (b, v)) ∷ back))) lo s e 0 front j b v back h l
        (omega (arith, length-append {0} front ((j, (b, v)) ∷ back)))
        (first_of_round-after lo s 0 front j b v back (Disjoint-Ascends lo _ h) le u)
        (λ p.
          Disjoint-raise (suc b) s back (omega arith) u (Disjoint-middle lo front j b v back h).3)
      ∙ ap (λ x. ok (x, success)) (sym (cut-front lo s e front j b v back h le))

  -- With end() as the result of going back from begin(), del of [start, end], start at most end,
  -- succeeds on a well-formed map, and its map is what one walk over the list makes by cutting
  -- [start, end] out.
  pub del-cut :
      (lo start end : ℕ) (m : Intervals V)
      → ((n : Intervals V) → before n ≡ none)
      → Disjoint lo m
      → start ≤ end
      → del before start end m ≡ ok (cut start end m, success)
  del-cut lo start end m none_before h l = go (locate lo start m (Disjoint-Ascends lo m h))
    where
      go : Place start m → del before start end m ≡ ok (cut start end m, success)
      go (Place.below u) = del-below lo start end m (none_before m) h l u
      go (Place.after front j (b, v) back e le u) =
          subst (λ n. del before start end n ≡ ok (cut start end n, success)) (sym e)
            (del-after lo start end front j b v back (subst (Disjoint lo) e h) l le u)
