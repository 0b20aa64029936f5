-- ===== src/IntervalMap/InsertLaws.antt =====
-- insert_impl computes the reference definition `place`, on a well-formed map with room for the
-- interval.
use direct_libstorage.Base.{
  ℕ, suc, ◌≤◌, ◌<◌, ◌≡◌, refl, sym, subst, ◌⊎◌, Bool, true, false, ◌&&◌, none, some, [], ◌∷◌, ◌++◌,
  ok, arith, success, Eq, LawfulEq, ◌==◌, if◌then◌else◌,
}
use direct_libstorage.Base.Words.{word, add64, sub64}
use direct_libstorage.StdMap.{Ascends, begin, next, deref, assign, erase}
use direct_libstorage.StdMap
use direct_libstorage.StdMap.Split.{
  assign-middle, emplace-middle, emplace-after, next-middle, find-second, erase-second,
  Ascends-drop_second, Ascends-assign, Ascends-weaken, Place, locate,
}
use direct_libstorage.IntervalMap.{Intervals, BeforeBegin, emplace, rekey}
use direct_libstorage.IntervalMap.Insert.{
  extend_left, extend_right, merge_both, move_start, finish, insert_impl,
}
use direct_libstorage.IntervalMap.Meaning.{Disjoint, Clear, join, place}
use direct_libstorage.IntervalMap.CutLaws.{Disjoint-middle, Disjoint-grow}
use direct_libstorage.IntervalMap.FindLaws.{
  Disjoint-Ascends, deref-middle, find_it-after, find_it-below,
}

-- The iterator of the next interval touches the word after `end`.
touches_right : (a end : ℕ) → end < a → a < word → (a == add64 end 1) ≡ (a == suc end)
unfolding add64
touches_right a end h w = ground arith

touches_left : (b s : ℕ) → b < s → s < word → (b == sub64 s 1) ≡ (suc b == s)
unfolding sub64
touches_left b s h w = ground arith

module _ {V : Type 0} where
  deref-second :
      (lo : ℕ) (front : Intervals V) (j : ℕ) (x : ℕ × V) (k : ℕ) (y : ℕ × V) (back : Intervals V)
      → Ascends lo (front ++ (j, x) ∷ (k, y) ∷ back)
      → deref k (front ++ (j, x) ∷ (k, y) ∷ back) ≡ ok y
  unfolding deref
  deref-second lo front j x k y back h = ground (arith, find-second lo front j x k y back h)

  rekey-second :
      (lo : ℕ) (front : Intervals V) (j : ℕ) (x : ℕ × V) (k : ℕ) (y : ℕ × V) (back : Intervals V)
      (s : ℕ)
      → Ascends lo (front ++ (j, x) ∷ (k, y) ∷ back)
      → j < s
      → Ascends (suc s) back
      → rekey k s (front ++ (j, x) ∷ (k, y) ∷ back) ≡ ok (front ++ (j, x) ∷ (s, y) ∷ back)
  unfolding rekey
  rekey-second lo front j x k y back s h l u = ground (
    arith,
    deref-second lo front j x k y back h,
    erase-second lo front j x k y back h,
    emplace-after lo front j x s y back (Ascends-drop_second lo front j x k y back h) l u,
  )

  place-emplace :
      (lo : ℕ) (front : Intervals V) (j : ℕ) (x : ℕ × V) (back : Intervals V) (s end : ℕ) (v : V)
      → Ascends lo (front ++ (j, x) ∷ back)
      → j < s
      → Ascends (suc s) back
      → emplace s end v (front ++ (j, x) ∷ back) ≡ ok (front ++ (j, x) ∷ (s, (end, v)) ∷ back)
  unfolding emplace
  place-emplace lo front j x back s end v h l u =
      ground (arith, emplace-after lo front j x s (end, v) back h l u)

module _ {V : Type 0} ⦃e : Eq V⦄ ⦃law : LawfulEq V⦄ (before : BeforeBegin V) where
  extend_left-middle :
      (lo : ℕ) (front : Intervals V) (j b : ℕ) (u : V) (back : Intervals V) (s end : ℕ) (v : V)
      → Ascends lo (front ++ (j, (b, u)) ∷ back)
      → b < s
      → s < word
      → extend_left (some j) s end v (front ++ (j, (b, u)) ∷ back)
        ≡ ok (
          front ++ (j, (if suc b == s && e.beq v u then end else b, u)) ∷ back,
          suc b == s && e.beq v u,
          begin back,
        )
  unfolding extend_left
  extend_left-middle lo front j b u back s end v h l w = ground (
    arith,
    deref-middle lo front j b u back h,
    assign-middle lo front j (b, u) (end, u) back h,
    next-middle lo front j (b, u) back h,
    next-middle lo front j (end, u) back (Ascends-assign lo front j (b, u) (end, u) back h),
    touches_left b s l w,
  )

  -- The interval before is extended to `end`: the next one is taken in if it can be.
  extend_right-merged :
      (lo : ℕ) (front : Intervals V) (j : ℕ) (u : V) (back : Intervals V) (s end : ℕ)
      → Disjoint lo (front ++ (j, (end, u)) ∷ back)
      → extend_right true (some j) (begin back) s end u (front ++ (j, (end, u)) ∷ back)
        ≡ ok (front ++ join j end u back, true)
  unfolding extend_right join begin merge_both
  extend_right-merged lo front j u [] s end h = refl
  extend_right-merged lo front j u ((a, (c, x)) ∷ back) s end h =
      let asc = Disjoint-Ascends lo _ h in
      let (low, order, bound, rest) = Disjoint-middle lo front j end u ((a, (c, x)) ∷ back) h in
      ground (
        arith,
        touches_right a end,
        law.same u x,
        deref-second lo front j (end, u) a (c, x) back asc,
        deref-middle lo front j end u ((a, (c, x)) ∷ back) asc,
        assign-middle lo front j (end, u) (c, u) ((a, (c, x)) ∷ back) asc,
        erase-second lo front j (c, u) a (c, x) back
            (Ascends-assign lo front j (end, u) (c, u) ((a, (c, x)) ∷ back) asc),
      )

  finish-merged :
      (lo : ℕ) (front : Intervals V) (j : ℕ) (u : V) (back : Intervals V) (s end : ℕ)
      → Disjoint lo (front ++ (j, (end, u)) ∷ back)
      → finish true (some j) (begin back) s end u (front ++ (j, (end, u)) ∷ back)
        ≡ ok (front ++ join j end u back)
  unfolding finish
  finish-merged lo front j u back s end h = rw (extend_right-merged lo front j u back s end h)

  -- The interval before stays as it is.
  finish-after :
      (lo : ℕ) (front : Intervals V) (j b : ℕ) (u : V) (back : Intervals V) (s end : ℕ) (v : V)
      → Disjoint lo (front ++ (j, (b, u)) ∷ back)
      → b < s
      → s ≤ end
      → Ascends (suc end) back
      → finish false (some j) (begin back) s end v (front ++ (j, (b, u)) ∷ back)
        ≡ ok (front ++ (j, (b, u)) ∷ join s end v back)
  unfolding finish extend_right join begin move_start
  finish-after lo front j b u [] s end v h l o a =
      let (low, order, bound, rest) = Disjoint-middle lo front j b u [] h in
      place-emplace lo front j (b, u) [] s end v (Disjoint-Ascends lo _ h) (omega arith) tt
  finish-after lo front j b u ((i, (c, x)) ∷ back) s end v h l o a =
      let asc = Disjoint-Ascends lo _ h in
      let (low, order, bound, rest) = Disjoint-middle lo front j b u ((i, (c, x)) ∷ back) h in
      let above : Ascends (suc s) back = Ascends-weaken (suc i) (suc s) back (omega arith) a.1 in
      let room : Ascends (suc s) ((i, (c, x)) ∷ back) = (omega arith, a.1) in
      ground (
        arith,
        touches_right i end,
        deref-second lo front j (b, u) i (c, x) back asc,
        rekey-second lo front j (b, u) i (c, x) back s asc (omega arith) above,
        place-emplace lo front j (b, u) ((i, (c, x)) ∷ back) s end v asc (omega arith) room,
      )

  -- There is no interval before.
  finish-below :
      (back : Intervals V) (s end : ℕ) (v : V)
      → Disjoint (suc end) back
      → s ≤ end
      → finish false none (begin back) s end v back ≡ ok (join s end v back)
  unfolding finish extend_right join begin move_start emplace StdMap.emplace rekey deref erase
      StdMap.find
  finish-below [] s end v h l = refl
  finish-below ((i, (c, x)) ∷ back) s end v h l =
      let above : Ascends (suc s) back =
        Ascends-weaken (suc c) (suc s) back (omega arith) (Disjoint-Ascends (suc c) back h.3) in
      ground (arith, touches_right i end, emplace-middle [] s (c, x) back tt above)

  pub Clear-middle :
      (s end : ℕ) (front : Intervals V) (j b : ℕ) (u : V) (back : Intervals V)
      → Clear s end (front ++ (j, (b, u)) ∷ back)
      → (b < s) ⊎ (end < j)
  Clear-middle s end [] j b u back c = c.0
  Clear-middle s end ((i, (k, w)) ∷ front) j b u back c = Clear-middle s end front j b u back c.1

  Clear-back :
      (s end : ℕ) (front : Intervals V) (j b : ℕ) (u : V) (back : Intervals V)
      → Clear s end (front ++ (j, (b, u)) ∷ back)
      → Clear s end back
  Clear-back s end [] j b u back c = c.1
  Clear-back s end ((i, (k, w)) ∷ front) j b u back c = Clear-back s end front j b u back c.1

  -- What starts above s starts above end.
  Clear-raise :
      (lo s end : ℕ) (m : Intervals V)
      → Clear s end m
      → Disjoint lo m
      → Ascends (suc s) m
      → Disjoint (suc end) m
  Clear-raise lo s end [] c h u = tt
  Clear-raise lo s end ((a, (b, v)) ∷ m) c h u = (omega arith, h.1, h.2, h.3)

  place-join :
      (s end : ℕ) (v : V) (m : Intervals V)
      → Disjoint (suc end) m
      → place s end v m ≡ join s end v m
  unfolding place
  place-join s end v [] h = refl
  place-join s end v ((a, (b, w)) ∷ m) h = ground arith

  place-front :
      (lo s end : ℕ) (v : V) (front : Intervals V) (j b : ℕ) (u : V) (back : Intervals V)
      → Disjoint lo (front ++ (j, (b, u)) ∷ back)
      → j ≤ s
      → s ≤ end
      → b < s
      → place s end v (front ++ (j, (b, u)) ∷ back) ≡ front ++ place s end v ((j, (b, u)) ∷ back)
  unfolding place
  place-front lo s end v [] j b u back h l o q = refl
  place-front lo s end v ((i, (c, w)) ∷ front) j b u back h l o q = ground (
    arith,
    Disjoint-middle (suc c) front j b u back h.3,
    place-front (suc c) s end v front j b u back h.3 l o q,
  )

  place_first :
      (s end : ℕ) (v : V) (j b : ℕ) (u : V) (back : Intervals V)
      → j ≤ b
      → b < s
      → s ≤ end
      → Disjoint (suc end) back
      → place s end v ((j, (b, u)) ∷ back)
        ≡ (if suc b == s && e.beq v u then join j end u back else (j, (b, u)) ∷ join s end v back)
  unfolding place
  place_first s end v j b u back h l o a = ground (arith, place-join s end v back a)

  finish-either :
      (t : Bool) (lo : ℕ) (front : Intervals V) (j b : ℕ) (u : V) (back : Intervals V) (s end : ℕ)
      (v : V)
      → (t ≡ true → v ≡ u)
      → Disjoint lo (front ++ (j, (b, u)) ∷ back)
      → b < s
      → s ≤ end
      → end < word
      → Disjoint (suc end) back
      → finish t (some j) (begin back) s end v (front ++ (j, (if t then end else b, u)) ∷ back)
        ≡ ok (front ++ (if t then join j end u back else (j, (b, u)) ∷ join s end v back))
  finish-either true lo front j b u back s end v agree h q o w a = rw (agree refl) (
      finish-merged lo front j u back s end
        (Disjoint-grow lo front j b end u back h (omega arith) w a))
  finish-either false lo front j b u back s end v agree h q o w a =
      finish-after lo front j b u back s end v h q o (Disjoint-Ascends (suc end) back a)

  insert_impl-below :
      (lo s end : ℕ) (v : V) (m : Intervals V)
      → before m ≡ none
      → Disjoint lo m
      → Clear s end m
      → s ≤ end
      → Ascends (suc s) m
      → insert_impl before s end v m ≡ ok (place s end v m, success)
  unfolding insert_impl extend_left
  insert_impl-below lo s end v m none_before h c l u =
      let above = Clear-raise lo s end m c h u in
      rw (
        find_it-below before s m none_before u,
        place-join s end v m above,
        finish-below m s end v above l,
      )

  insert_impl-after :
      (lo s end : ℕ) (v : V) (front : Intervals V) (j b : ℕ) (u : V) (back : Intervals V)
      → Disjoint lo (front ++ (j, (b, u)) ∷ back)
      → Clear s end (front ++ (j, (b, u)) ∷ back)
      → s ≤ end
      → end < word
      → j ≤ s
      → Ascends (suc s) back
      → insert_impl before s end v (front ++ (j, (b, u)) ∷ back)
        ≡ ok (place s end v (front ++ (j, (b, u)) ∷ back), success)
  unfolding insert_impl
  insert_impl-after lo s end v front j b u back h c o w l a =
      let (low, order, bound, rest) = Disjoint-middle lo front j b u back h in
      let q : b < s = ground (arith, Clear-middle s end front j b u back c) in
      let above = Clear-raise (suc b) s end back (Clear-back s end front j b u back c) rest a in
      let asc = Disjoint-Ascends lo _ h in
      rw (
        find_it-after before lo s front j b u back asc l a,
        extend_left-middle lo front j b u back s end v asc q (omega arith),
        place-front lo s end v front j b u back h l o q,
        place_first s end v j b u back order q o above,
        finish-either (suc b == s && e.beq v u) lo front j b u back s end v agree h q o w above,
      )
    where
      agree : (suc b == s && e.beq v u) ≡ true → v ≡ u
      agree p = ground (arith, law.same v u)

  -- insert_impl puts the interval in its place, merged with the neighbours, and reports success.
  pub insert_impl-place :
      (lo start end : ℕ) (v : V) (m : Intervals V)
      → ((n : Intervals V) → before n ≡ none)
      → Disjoint lo m
      → Clear start end m
      → start ≤ end
      → end < word
      → insert_impl before start end v m ≡ ok (place start end v m, success)
  insert_impl-place lo start end v m none_before h c l w =
      go (locate lo start m (Disjoint-Ascends lo m h))
    where
      go : Place start m → insert_impl before start end v m ≡ ok (place start end v m, success)
      go (Place.below u) = insert_impl-below lo start end v m (none_before m) h c l u
      go (Place.after front j (b, u) back q le a) =
          subst (λ n. insert_impl before start end v n ≡ ok (place start end v n, success)) (sym q)
            (insert_impl-after lo start end v front j b u back (subst (Disjoint lo) q h)
              (subst (Clear start end) q c) l w le a)
