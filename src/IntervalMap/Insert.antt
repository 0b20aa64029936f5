-- ===== src/IntervalMap/Insert.antt =====
-- insert_impl of include/storage/IntervalMap.hpp: the new interval is joined to the neighbours that
-- it touches and that hold the same value.
use direct_libstorage.Base.{
  ℕ, Bool, true, false, ◌&&◌, Option, none, some, Outcome, ok, throw, dangling_iterator, ◌>>=◌,
  success, ◌==◌, if◌then◌else◌, Eq,
}
use direct_libstorage.Base.Words.{add64, sub64}
use direct_libstorage.StdMap.{begin, next, deref, assign, erase}
use direct_libstorage.IntervalMap.{Intervals, BeforeBegin, Call, emplace, rekey, find_it}

module _ {ℓ} {V : Type ℓ} ⦃e : Eq V⦄ where
  -- `[iv_start, iv_end]` ends right before `start`: it is extended to `end`. Returns the map, whether
  -- it was, and the iterator to go on with.
  unfoldable pub extend_left :
      Option ℕ → ℕ → ℕ → V → Intervals V → Outcome (Intervals V × Bool × Option ℕ)
  extend_left none start end v m = ok (m, false, begin m)
  extend_left (some it) start end v m = do
    iv ← deref it m
    let merged = iv.0 == sub64 start 1 && e.beq v iv.1
    let m' = if merged then assign it (end, iv.1) m else m
    ok (m', merged, next it m')

  -- it_prev takes over the end of the interval at `it`, which goes.
  unfoldable pub merge_both : Option ℕ → ℕ → ℕ → Intervals V → Outcome (Intervals V × Bool)
  merge_both none it iv_end m = throw dangling_iterator
  merge_both (some it_prev) it iv_end m = do
    prev_iv ← deref it_prev m
    ok (erase it (assign it_prev (iv_end, prev_iv.1) m), true)

  unfoldable pub move_start : ℕ → ℕ → Intervals V → Outcome (Intervals V × Bool)
  move_start it start m = do m' ← rekey it start m; ok (m', true)

  -- The interval at `it` starts right after `end`: it is joined to the left one, or extended.
  unfoldable pub extend_right :
      Bool → Option ℕ → Option ℕ → ℕ → ℕ → V → Intervals V → Outcome (Intervals V × Bool)
  extend_right merged it_prev none start end v m = ok (m, merged)
  extend_right merged it_prev (some it) start end v m = do
    iv ← deref it m
    (if it == add64 end 1 && e.beq v iv.1
        then if merged then merge_both it_prev it iv.0 m else move_start it start m
        else ok (m, merged))

  -- The next interval, and last a new one if nothing was extended.
  unfoldable pub finish :
      Bool → Option ℕ → Option ℕ → ℕ → ℕ → V → Intervals V → Outcome (Intervals V)
  finish merged it_prev it start end v m = do
    right ← extend_right merged it_prev it start end v m
    (if right.1 then ok right.0 else emplace start end v right.0)

  unfoldable pub insert_impl : BeforeBegin V → ℕ → ℕ → V → Intervals V → Call V
  insert_impl before start end v m = do
    it ← find_it before start false m
    left ← extend_left it start end v m
    m' ← finish left.1 it left.2 start end v left.0
    ok (m', success)
