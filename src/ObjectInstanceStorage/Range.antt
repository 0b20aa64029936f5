-- ===== src/ObjectInstanceStorage/Range.antt =====
-- ObjectInstanceRange of include/storage/ObjectInstanceStorage.hpp: the objects of consecutive indices.
-- An access to an element beyond the end of the std::deque is undefined in C++, and throws here.
use direct_libstorage.Base.{
  ℕ, zero, suc, ◌-◌, Bool, true, false, not, ◌&&◌, Option, none, some, List, [], ◌∷◌, ◌++◌, Outcome,
  ok, throw, segmentation_fault, ◌>>=◌, ◌>>◌, assert_on, ltb, leb, ◌==◌, if◌then◌else◌, Eq, length,
  take, replicate, get_elem?, set_elem,
}
use direct_libstorage.Base.Words.{add64, sub64}

pub record ObjectInstanceRange (T : Type 0) : Type 0 where
  pub range_start : ℕ
  pub size : ℕ
  pub instance_vector : List T
  pub deleted : List Bool

-- xs[i] of a std::deque.
unfoldable pub element : {T : Type 0} → List T → ℕ → Outcome T
element xs i = elim (get_elem? xs i) [ none ↦ throw segmentation_fault | some t ↦ ok t ]

-- deleted[i] = b of a std::vector<bool>.
unfoldable pub write_bit : List Bool → ℕ → Bool → Outcome (List Bool)
write_bit bits i b =
    if ltb i (length bits) then ok (set_elem bits i b) else throw segmentation_fault

-- deleted.resize(end + 1, false), if it is shorter.
unfoldable pub grown : ℕ → List Bool → List Bool
grown end deleted =
    if leb (length deleted) end
    then deleted ++ replicate (suc end - length deleted) false
    else deleted

module _ {T : Type 0} where
  -- operator==
  instance abbrev pub range_eq : Eq (ObjectInstanceRange T)
  range_eq = record { beq = λ r s. r.range_start == s.range_start && r.size == s.size }

  -- ObjectInstanceRange(range_start, range_end)
  unfoldable pub new_range : ℕ → ℕ → ObjectInstanceRange T
  new_range range_start range_end = record {
    range_start = range_start;
    size = add64 (sub64 range_end range_start) 1;
    instance_vector = [];
    deleted = [];
  }

  unfoldable pub has : ℕ → ObjectInstanceRange T → Bool
  has index r =
      ltb index r.size && (elim (get_elem? r.deleted index) [ none ↦ true | some gone ↦ not gone ])

  -- The loop of del_range over `count` indices from i on; `moved` is what an object is after it was
  -- moved from.
  unfoldable pub del_from :
      (T → T) → ℕ → ℕ → ObjectInstanceRange T → Outcome (ObjectInstanceRange T)
  del_from moved i zero r = ok r
  del_from moved i (suc count) r = do
    bits ← write_bit r.deleted i true
    t ← element r.instance_vector i
    let left = set_elem r.instance_vector i (moved t)
    del_from moved (suc i) count (record r { instance_vector = left; deleted = bits })

  -- instance_vector.erase(instance_vector.begin() + start, instance_vector.end())
  unfoldable pub erase_from : ℕ → List T → Outcome (List T)
  erase_from start xs =
      if leb start (length xs) then ok (take start xs) else throw segmentation_fault

  unfoldable pub del_range :
      (T → T) → ℕ → ℕ → ObjectInstanceRange T → Outcome (ObjectInstanceRange T)
  unfolding del_from erase_from grown
  del_range moved start end r = do
    assert_on (ltb end start)
    assert_on (leb r.size end)
    left ←
        (if end == sub64 r.size 1 then erase_from start r.instance_vector else ok r.instance_vector)
    del_from moved start (suc end - start)
        (record r { instance_vector = left; deleted = grown end r.deleted })

  unfoldable pub del : (T → T) → ℕ → ObjectInstanceRange T → Outcome (ObjectInstanceRange T)
  del moved index r = del_range moved index index r

  -- The loops of add_range that append objects, from the index i on; `deleted` has been resized so that
  -- its bit i is there.
  unfoldable pub append_from : (ℕ → ℕ → T) → ℕ → ℕ → ObjectInstanceRange T → ObjectInstanceRange T
  append_from f i zero r = r
  append_from f i (suc count) r = append_from f (suc i) count (record r {
    instance_vector = r.instance_vector ++ f r.range_start i ∷ [];
    deleted = set_elem r.deleted i false;
  })

  -- The last loop of add_range: it compares the old object with the new one, and undeletes it.
  unfoldable pub compare_from : ℕ → ℕ → ObjectInstanceRange T → Outcome (ObjectInstanceRange T)
  compare_from i zero r = ok r
  compare_from i (suc count) r = do
    t ← element r.instance_vector i
    bits ← write_bit r.deleted i false
    compare_from (suc i) count (record r { deleted = bits })

  unfoldable pub add_range :
      (ℕ → ℕ → T) → ℕ → ℕ → ObjectInstanceRange T → Outcome (ObjectInstanceRange T)
  unfolding append_from compare_from grown
  add_range f start end r = do
    assert_on (ltb end start)
    assert_on (leb r.size end)
    let r0 : ObjectInstanceRange T = record r { deleted = grown end r.deleted }
    let tmp_end = length r.instance_vector
    (if ltb tmp_end start
        then compare_from start (suc end - start) (append_from f tmp_end (start - tmp_end) r0)
        else if ltb tmp_end (sub64 end 1)
        then (let r1 = append_from f tmp_end (suc end - tmp_end) r0 in
            if tmp_end == 0 then ok r1 else compare_from start (tmp_end - start) r1)
        else compare_from start (suc end - start) r0)

  unfoldable pub add : ℕ → T → ObjectInstanceRange T → Outcome (ObjectInstanceRange T)
  add index t r = add_range (λ _ _. t) index index r

  unfoldable pub get : ℕ → ObjectInstanceRange T → Outcome (Option T)
  unfolding has
  get index r =
      if has index r then (do t ← element r.instance_vector index; ok (some t)) else ok none

  unfoldable pub clear : ObjectInstanceRange T → ObjectInstanceRange T
  clear r = record r { instance_vector = []; deleted = [] }
