-- ===== src/ObjectInstanceStorage/RangeEnds.antt =====
-- The functions that del_range of ObjectInstanceStorage, include/storage/ObjectInstanceStorage.hpp,
-- calls, and when they come to an end.
use direct_libstorage.Base.{
  ℕ, zero, suc, ◌-◌, ◌≡◌, ◌≢◌, refl, Bool, true, false, Outcome, ok, throw, out_of_fuel, ◌>>=◌,
  assert_on, ltb, leb, ◌==◌, if◌then◌else◌, arith, List,
}
use direct_libstorage.Base.Words.{sub64}
use direct_libstorage.StdMap.{Map, deref}
use direct_libstorage.ObjectInstanceStorage.Range.{
  ObjectInstanceRange, element, write_bit, grown, erase_from, del_from,
}
use direct_libstorage.ObjectInstanceStorage.Range

-- The code ends, in whichever way.
abbrev pub Ends : {A : Type 0} → Outcome A → Type 0
Ends o = o ≢ throw out_of_fuel

pub Ends-ok : {A : Type 0} (a : A) → Ends (ok a)
Ends-ok a q = cc

pub Ends-bind :
    {A B : Type 0} (o : Outcome A) (f : A → Outcome B)
    → Ends o
    → ((a : A) → o ≡ ok a → Ends (f a))
    → Ends (o >>= f)
Ends-bind (ok a) f h g = g a refl
Ends-bind (throw x) f h g = λ q. h cc

pub bind_ok :
    {A B : Type 0} (o : Outcome A) (f : A → Outcome B) (b : B)
    → (o >>= f) ≡ ok b
    → (a : A) × (o ≡ ok a) × (f a ≡ ok b)
bind_ok (ok a) f b q = (a, refl, q)
bind_ok (throw x) f b q = absurd cc

pub ok_same : {A : Type 0} (a b : A) → ok a ≡ ok b → a ≡ b
ok_same a b q = cc

pub Ends-assert_on : (b : Bool) → Ends (assert_on b)
Ends-assert_on true q = cc
Ends-assert_on false q = cc

pub Ends-deref : {A : Type 0} (k : ℕ) (m : Map A) → Ends (deref k m)
unfolding deref
Ends-deref k m q = ground arith

Ends-element : {T : Type 0} (xs : List T) (i : ℕ) → Ends (element xs i)
unfolding element
Ends-element xs i q = ground arith

Ends-write_bit : (bits : List Bool) (i : ℕ) (b : Bool) → Ends (write_bit bits i b)
unfolding write_bit
Ends-write_bit bits i b q = ground arith

Ends-erase_from : {T : Type 0} (start : ℕ) (xs : List T) → Ends (erase_from start xs)
unfolding erase_from
Ends-erase_from start xs q = ground arith

module _ {T : Type 0} (moved : T → T) where
  Ends-del_from : (i count : ℕ) (r : ObjectInstanceRange T) → Ends (del_from moved i count r)
  unfolding del_from
  Ends-del_from i zero r = Ends-ok r
  Ends-del_from i (suc count) r = Ends-bind _ _ (Ends-write_bit r.deleted i true) λ bits q.
      Ends-bind _ _ (Ends-element r.instance_vector i) λ t p. Ends-del_from (suc i) count _

  pub Ends-del_range :
      (start end : ℕ) (r : ObjectInstanceRange T) → Ends (Range.del_range moved start end r)
  unfolding Range.del_range
  Ends-del_range start end r = Ends-bind _ _ (Ends-assert_on (ltb end start)) λ x p.
      Ends-bind _ _ (Ends-assert_on (leb r.size end)) λ y q.
        Ends-bind _ _ (Ends-choice (end == sub64 r.size 1) start r)
          λ left s. Ends-del_from start (suc end - start) _
    where
      Ends-choice :
          (b : Bool) (start : ℕ) (r : ObjectInstanceRange T)
          → Ends (if b then erase_from start r.instance_vector else ok r.instance_vector)
      Ends-choice true start r = Ends-erase_from start r.instance_vector
      Ends-choice false start r = Ends-ok r.instance_vector
