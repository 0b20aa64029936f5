-- ===== src/IntervalMap/Delete.antt =====
-- del_impl of include/storage/IntervalMap.hpp: cut [start, end] out of the map, one interval a round.
use direct_libstorage.Base.{
  ℕ, zero, suc, ◌+◌, false, not, ◌&&◌, ◌||◌, Option, none, some, Outcome, ok, throw, out_of_fuel,
  ◌>>=◌, ◌>>◌, assert_on, success, failure, ltb, leb, ◌==◌, if◌then◌else◌, length,
}
use direct_libstorage.Base.Words.{add64, sub64}
use direct_libstorage.StdMap.{begin, next, deref, assign, erase}
use direct_libstorage.IntervalMap.{Intervals, BeforeBegin, Call, is_empty, emplace, rekey, find_it}

module _ {ℓ} {V : Type ℓ} where
  -- One interval, [iv_start, iv_end] with value v at the iterator iv_start.
  unfoldable pub cut_interval : ℕ → ℕ → ℕ → ℕ → V → Intervals V → Outcome (Intervals V)
  cut_interval start end iv_start iv_end v m =
      if ltb iv_start start && leb start iv_end
      then (let m' = assign iv_start (sub64 start 1, v) m in
          if ltb end iv_end then emplace (add64 end 1) iv_end v m' else ok m')
      else if leb start iv_start && leb iv_start end
      then (if ltb end iv_end then rekey iv_start (add64 end 1) m else ok (erase iv_start m))
      else assert_on (not (ltb end iv_start || ltb iv_end start)) >> ok m

  -- The iterator of the round, none if the round has no interval to work on.
  unfoldable pub first_of_round : BeforeBegin V → ℕ → ℕ → Intervals V → Outcome (Option ℕ)
  first_of_round before start iteration m = do
    it ← find_it before start false m
    ok (elim it [ none ↦ (if iteration == 0 then begin m else none) | some i ↦ some i ])

  -- Whether another round follows, from the start of the next interval.
  unfoldable pub next_round : ℕ → ℕ → ℕ → Option ℕ → Intervals V → Outcome (Option ℕ)
  next_round end iv_start iv_end none m = ok none
  next_round end iv_start iv_end (some it_next) m =
      if ltb iv_end end
      then (do
        iv2 ← deref it_next m
        assert_on (leb it_next iv_start)
        ok (if leb it_next end then some it_next else none))
      else ok none

  -- The return of a round: the recursive call, or success.
  unfoldable pub go_on : (ℕ → Intervals V → Call V) → Option ℕ → Intervals V → Call V
  go_on round none m = ok (m, success)
  go_on round (some iv2_start) m = round iv2_start m

  unfoldable pub del_impl : BeforeBegin V → ℕ → ℕ → ℕ → ℕ → Intervals V → Call V
  del_impl before zero start end iteration m = throw out_of_fuel
  del_impl before (suc fuel) start end iteration m = do
    it ← first_of_round before start iteration m
    elim it [
      | none ↦ ok (m, if is_empty m then success else failure)
      | some iv_start ↦ do
        iv ← deref iv_start m
        assert_on (ltb iv.0 iv_start)
        m' ← cut_interval start end iv_start iv.0 iv.1 m
        again ← next_round end iv_start iv.0 (next iv_start m) m'
        go_on (λ iv2_start m''. del_impl before fuel iv2_start end (iteration + 1) m'') again m'
    ]

  -- Each round but the last removes the interval that it works on, or is the first.
  unfoldable pub del : BeforeBegin V → ℕ → ℕ → Intervals V → Call V
  unfolding del_impl
  del before start end m = del_impl before (suc (length m)) start end 0 m
