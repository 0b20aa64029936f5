-- ===== src/ObjectInstanceStorage/RangeLaws.antt =====
-- What the operations of ObjectInstanceRange, include/storage/ObjectInstanceStorage.hpp, do to its
-- objects.
use direct_libstorage.Base.{
  ℕ, zero, suc, ◌+◌, ◌-◌, ◌≤◌, ◌<◌, ◌≡◌, ◌≢◌, refl, ap, ◌∙◌, Bool, true, false, Option, none, some,
  List, [], ◌∷◌, ◌++◌, ok, ltb, if◌then◌else◌, length, get_elem?, set_elem, arith, length-append,
  get_elem?-append, get_elem?-replicate, get_elem?-lt, get_elem?-ge,
}
use direct_libstorage.Base.Words.{word, add64, sub64, add64_lem, sub64_lem}
use direct_libstorage.ObjectInstanceStorage.Range.{
  ObjectInstanceRange, element, grown, new_range, has, append_from, add_range, get,
}

set-live :
    (xs : List Bool) (i : ℕ)
    → ((j : ℕ) → get_elem? xs j ≢ some true)
    → (j : ℕ) → get_elem? (set_elem xs i false) j ≢ some true
set-live [] i live j q = live j q
set-live (x ∷ xs) zero live zero q = ground arith
set-live (x ∷ xs) zero live (suc j) q = live (suc j) q
set-live (x ∷ xs) (suc i) live zero q = live zero q
set-live (x ∷ xs) (suc i) live (suc j) q = set-live xs i (λ k. live (suc k)) j q

grown-live : (e j : ℕ) → get_elem? (grown e []) j ≢ some true
unfolding grown
grown-live e j q = ground (arith, get_elem?-replicate (suc e - 0) false j)

new-nothing :
    (T : Type 0) (start end : ℕ) → length (new_range {T = T} start end).instance_vector ≡ 0
unfolding new_range
new-nothing T start end = refl

new-start : (T : Type 0) (start end : ℕ) → (new_range {T = T} start end).range_start ≡ start
unfolding new_range
new-start T start end = refl

new-size :
    (T : Type 0) (start end : ℕ)
    → start ≤ end
    → end + 1 < word
    → (new_range {T = T} start end).size ≡ end + 1 - start
unfolding new_range
new-size T start end l w =
    ap (λ n. add64 n 1) (sub64_lem end start l (omega arith))
    ∙ add64_lem (end - start) 1 (omega arith)
    ∙ omega arith

module _ {T : Type 0} where
  -- All indices have had an object.
  abbrev pub IsFull : ObjectInstanceRange T → Type 0
  IsFull r = length r.instance_vector ≡ r.size

  -- The object at an index, if it has one.
  unfoldable pub object : ObjectInstanceRange T → ℕ → Option T
  object r i = if has i r then get_elem? r.instance_vector i else none

  pub get-object : (i : ℕ) (r : ObjectInstanceRange T) → IsFull r → get i r ≡ ok (object r i)
  unfolding get object has element
  get-object i r full = ground (arith, get_elem?-lt r.instance_vector i)

  -- No index is deleted.
  abbrev pub IsLive : ObjectInstanceRange T → Type 0
  IsLive r = (j : ℕ) → get_elem? r.deleted j ≢ some true

  object-live :
      (r : ObjectInstanceRange T) (i : ℕ)
      → IsFull r
      → IsLive r
      → object r i ≡ get_elem? r.instance_vector i
  unfolding object has
  object-live r i full live = ground (arith, live i, get_elem?-ge r.instance_vector i)

  -- What the appending loop leaves, from the index of the first object that is missing.
  record Appends (f : ℕ → ℕ → T) (i count : ℕ) (r r' : ObjectInstanceRange T) : Type 0 where
    start : r'.range_start ≡ r.range_start
    size : r'.size ≡ r.size
    long : length r'.instance_vector ≡ i + count
    live : IsLive r → IsLive r'
    objects :
        (j : ℕ)
        → get_elem? r'.instance_vector j ≡ (
            if ltb j i
            then get_elem? r.instance_vector j
            else if ltb j (i + count)
            then some (f r.range_start j)
            else none)

  append_from-Appends :
      (f : ℕ → ℕ → T) (i count : ℕ) (r : ObjectInstanceRange T)
      → length r.instance_vector ≡ i
      → Appends f i count r (append_from f i count r)
  unfolding append_from
  append_from-Appends f i zero r l = record {
    start = refl;
    size = refl;
    long = omega arith;
    live = λ h. h;
    objects = λ j. ground (arith, get_elem?-ge r.instance_vector j);
  }
  append_from-Appends f i (suc count) r l =
      let one : ObjectInstanceRange T = record r {
        instance_vector = r.instance_vector ++ f r.range_start i ∷ [];
        deleted = set_elem r.deleted i false;
      } in
      let rest =
        append_from-Appends f (suc i) count one
          (length-append r.instance_vector (f r.range_start i ∷ []) ∙ omega arith) in
      record {
        start = rest.start;
        size = rest.size;
        long = rest.long ∙ omega arith;
        live = λ h. rest.live (set-live r.deleted i h);
        objects = λ j.
            ground (
              arith,
              rest.objects j,
              get_elem?-append r.instance_vector (f r.range_start i ∷ []) j,
            );
      }

  add_range-fresh :
      (f : ℕ → ℕ → T) (start end : ℕ)
      → start + 2 ≤ end
      → end + 1 < word
      → add_range f 0 (sub64 (new_range {T = T} start end).size 1) (new_range start end)
        ≡ ok (
            append_from f 0
              (end + 1 - start)
              (record (new_range start end) { deleted = grown (end - start) [] }))
  unfolding add_range new_range
  add_range-fresh f start end l w =
      let size = new-size T start end (omega arith) w in
      let last : sub64 (end + 1 - start) 1 ≡ end - start =
        sub64_lem (end + 1 - start) 1 (omega arith) (omega arith) ∙ omega arith in
      let before_last : sub64 (end - start) 1 ≡ end - start - 1 =
        sub64_lem (end - start) 1 (omega arith) (omega arith) in
      let count : suc (end - start) ≡ end + 1 - start = omega arith in
      rw (size, last, before_last, count) (ground arith)

  -- A new range [start, end] of at least three indices, in the address space, takes an object for
  -- each of them: the one that the function makes of the start and the index's offset.
  pub fill_new :
      (f : ℕ → ℕ → T) (start end : ℕ)
      → start + 2 ≤ end
      → end + 1 < word
      → (r : ObjectInstanceRange T) × (add_range f 0
            (sub64 (new_range {T = T} start end).size 1)
            (new_range start end)
          ≡ ok r)
        × IsFull r
        × (r.range_start ≡ start)
        × (r.size ≡ end + 1 - start)
        × ((j : ℕ) → object r j ≡ (if ltb j (end + 1 - start) then some (f start j) else none))
  fill_new f start end l w =
      let empty : ObjectInstanceRange T = record (new_range start end) {
        deleted = grown (end - start) [];
      } in
      let filled = append_from f 0 (end + 1 - start) empty in
      let made = append_from-Appends f 0 (end + 1 - start) empty (new-nothing T start end) in
      let sized : filled.size ≡ end + 1 - start =
        made.size ∙ new-size T start end (omega arith) w in
      let full : IsFull filled = made.long ∙ omega (arith, sized) in
      (
        filled,
        add_range-fresh f start end l w,
        full,
        made.start ∙ new-start T start end,
        sized,
        λ j.
            object-live filled j full (made.live (grown-live (end - start)))
            ∙ made.objects j
            ∙ ground (arith, new-start T start end),
      )
