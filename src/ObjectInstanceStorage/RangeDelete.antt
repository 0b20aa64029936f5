-- ===== src/ObjectInstanceStorage/RangeDelete.antt =====
-- del_range and add of ObjectInstanceRange, include/storage/ObjectInstanceStorage.hpp, on a range that
-- has an object for each index.
use direct_libstorage.Base.{
  ℕ, zero, suc, ◌+◌, ◌-◌, ◌≤◌, ◌<◌, ◌≡◌, refl, sym, ap, ◌∙◌, Bool-cases, inl, inr, Bool, true,
  false, ◌&&◌, none, some, List, ok, throw, segmentation_fault, ltb, leb, ◌==◌, if◌then◌else◌,
  length, take, replicate, get_elem?, set_elem, arith, length-append, length-set_elem,
  length-replicate, length-take, get_elem?-set_elem, get_elem?-append, get_elem?-replicate,
  get_elem?-lt, get_elem?-ge,
}
use direct_libstorage.Base.Words.{word, sub64, sub64_lem}
use direct_libstorage.ObjectInstanceStorage.Range.{
  ObjectInstanceRange, element, write_bit, grown, has, del_from, erase_from, del_range,
  compare_from, add_range, add,
}
use direct_libstorage.ObjectInstanceStorage.RangeLaws.{IsFull, object}

get_elem?-grown :
    (end j : ℕ) (bits : List Bool)
    → get_elem? (grown end bits) j
      ≡ (if ltb j (length bits) then get_elem? bits j else if leb j end then some false else none)
unfolding grown
get_elem?-grown end j bits = ground (
  arith,
  get_elem?-append bits (replicate (suc end - length bits) false) j,
  get_elem?-replicate (suc end - length bits) false (j - length bits),
  get_elem?-ge bits j,
)

length-grown : (end : ℕ) (bits : List Bool) → end < length (grown end bits)
unfolding grown
length-grown end bits = ground (
  arith,
  length-append bits (replicate (suc end - length bits) false),
  length-replicate (suc end - length bits) false,
)

element-some :
    {A : Type 0} (xs : List A) (i : ℕ) (a : A) → get_elem? xs i ≡ some a → element xs i ≡ ok a
unfolding element
element-some xs i a q = rw (element, q)

write_bit-ok :
    (bits : List Bool) (i : ℕ) (b : Bool)
    → i < length bits
    → write_bit bits i b ≡ ok (set_elem bits i b)
unfolding write_bit
write_bit-ok bits i b l = ground arith

module _ {T : Type 0} where
  -- What the loop of del_range leaves.
  record Deletes (i count : ℕ) (r r' : ObjectInstanceRange T) : Type 0 where
    start : r'.range_start ≡ r.range_start
    size : r'.size ≡ r.size
    long : length r'.instance_vector ≡ length r.instance_vector
    bits :
        (j : ℕ)
        → get_elem? r'.deleted j
          ≡ (if leb i j && ltb j (i + count) then some true else get_elem? r.deleted j)
    others :
        (j : ℕ)
        → (leb i j && ltb j (i + count)) ≡ false
        → get_elem? r'.instance_vector j ≡ get_elem? r.instance_vector j

  del_from-Deletes :
      (moved : T → T) (i count : ℕ) (r : ObjectInstanceRange T)
      → i + count ≤ length r.instance_vector
      → i + count ≤ length r.deleted
      → (r' : ObjectInstanceRange T) × (del_from moved i count r ≡ ok r') × Deletes i count r r'
  unfolding del_from
  del_from-Deletes moved i zero r l u = (
    r,
    refl,
    record {
      start = refl;
      size = refl;
      long = refl;
      bits = λ j. ground arith;
      others = λ j q. refl;
    },
  )
  del_from-Deletes moved i (suc count) r l u =
      let (t, there) = get_elem?-lt r.instance_vector i (omega arith) in
      let one : ObjectInstanceRange T = record r {
        instance_vector = set_elem r.instance_vector i (moved t);
        deleted = set_elem r.deleted i true;
      } in
      let (r', run, d) =
        del_from-Deletes moved (suc i) count one
          (omega (arith, length-set_elem r.instance_vector i (moved t)))
          (omega (arith, length-set_elem r.deleted i true)) in
      (
        r',
        rw (write_bit-ok r.deleted i true (omega arith), element-some r.instance_vector i t there)
            run,
        record {
          start = d.start;
          size = d.size;
          long = d.long ∙ length-set_elem r.instance_vector i (moved t);
          bits = λ j. ground (arith, d.bits j, get_elem?-set_elem r.deleted i j true);
          others =
              λ j q. ground (arith, d.others j, get_elem?-set_elem r.instance_vector i j (moved t));
        },
      )

  object-gone :
      (r : ObjectInstanceRange T) (j : ℕ) → get_elem? r.deleted j ≡ some true → object r j ≡ none
  unfolding object has
  object-gone r j q = ground arith

  object-kept :
      (r r' : ObjectInstanceRange T) (j end : ℕ)
      → r'.size ≡ r.size
      → get_elem? r'.deleted j ≡ get_elem? (grown end r.deleted) j
      → get_elem? r'.instance_vector j ≡ get_elem? r.instance_vector j
      → object r' j ≡ object r j
  unfolding object has
  object-kept r r' j end size bits elem =
      ground (arith, get_elem?-grown end j r.deleted, get_elem?-ge r.deleted j)

  -- On a range that has had an object for each index: del_range of indices that do not include the
  -- last one succeeds, no index of them has an object any more, and every other index has the
  -- object that it had.
  pub del_range_lem :
      (moved : T → T) (start end : ℕ) (r : ObjectInstanceRange T)
      → IsFull r
      → start ≤ end
      → end + 1 < r.size
      → r.size < word
      → (r' : ObjectInstanceRange T) × (del_range moved start end r ≡ ok r')
        × IsFull r'
        × (r'.range_start ≡ r.range_start)
        × (r'.size ≡ r.size)
        × ((j : ℕ) → object r' j ≡ (if leb start j && leb j end then none else object r j))
  unfolding del_range
  del_range_lem moved start end r full l u w =
      let one : ObjectInstanceRange T = record r { deleted = grown end r.deleted } in
      let (r', run, d) =
        del_from-Deletes moved start (suc end - start) one (omega (arith, full))
          (omega (arith, length-grown end r.deleted)) in
      let last : sub64 r.size 1 ≡ r.size - 1 = sub64_lem r.size 1 (omega arith) w in
      let objects : (j : ℕ)
          → object r' j ≡ (if leb start j && leb j end then none else object r j) =
        λ j. elim (Bool-cases (leb start j && ltb j (start + (suc end - start)))) [
          | inl q ↦ object-gone r' j (d.bits j ∙ ground arith) ∙ ground arith
          | inr q ↦
              object-kept r r' j end d.size (d.bits j ∙ ground arith) (d.others j q) ∙ ground arith
        ] in
      (r', rw last (ground (arith, run)), d.long ∙ full ∙ sym d.size, d.start, d.size, objects)

  -- del_range that includes the last index of a range, which has had an object for each index, reads
  -- an object that it has erased.
  del_range_last :
      (moved : T → T) (start : ℕ) (r : ObjectInstanceRange T)
      → IsFull r
      → start < r.size
      → r.size < word
      → del_range moved start (r.size - 1) r ≡ throw segmentation_fault
  unfolding del_range erase_from del_from element write_bit
  del_range_last moved start r full l w =
      let last : sub64 r.size 1 ≡ r.size - 1 = sub64_lem r.size 1 (omega arith) w in
      let count : suc (r.size - 1) - start ≡ suc (r.size - 1 - start) = omega arith in
      let gone : get_elem? (take start r.instance_vector) start ≡ none =
        get_elem?-ge (take start r.instance_vector) start
          (omega (arith, length-take start r.instance_vector (omega arith))) in
      rw (last, count) (ground (arith, gone, length-grown (r.size - 1) r.deleted))

  add_undeletes :
      (index : ℕ) (t : T) (r : ObjectInstanceRange T)
      → IsFull r
      → 0 < index
      → index < r.size
      → r.size < word
      → add index t r ≡ ok (record r { deleted = set_elem (grown index r.deleted) index false })
  unfolding add add_range compare_from
  add_undeletes index t r full p l w =
      let (old, there) = get_elem?-lt r.instance_vector index (omega (arith, full)) in
      let one : suc index - index ≡ 1 = omega arith in
      let before : sub64 index 1 ≡ index - 1 = sub64_lem index 1 p (omega arith) in
      rw
        (
          one,
          before,
          full,
          element-some r.instance_vector index old there,
          write_bit-ok (grown index r.deleted) index false (length-grown index r.deleted),
        )
        (ground arith)

  object-undeleted :
      (r : ObjectInstanceRange T) (j : ℕ)
      → get_elem? r.deleted j ≡ some false
      → j < r.size
      → object r j ≡ get_elem? r.instance_vector j
  unfolding object has
  object-undeleted r j q l = ground arith

  -- add of an object at an index behind the first of a range, which has had an object for each
  -- index: the index has the object that is in the range since it had one, and not the new one.
  pub add_keeps_old :
      (index : ℕ) (t : T) (r : ObjectInstanceRange T)
      → IsFull r
      → 0 < index
      → index < r.size
      → r.size < word
      → (r' : ObjectInstanceRange T) × (add index t r ≡ ok r')
        × (r'.instance_vector ≡ r.instance_vector)
        × ((j : ℕ)
            → object r' j ≡ (if j == index then get_elem? r.instance_vector index else object r j))
  add_keeps_old index t r full p l w =
      let bits = grown index r.deleted in
      let r' : ObjectInstanceRange T = record r { deleted = set_elem bits index false } in
      (
        r',
        add_undeletes index t r full p l w,
        refl,
        λ j. elim (Bool-cases (j == index)) [
          | inl q ↦
              let e : j ≡ index = ground arith in
              object-undeleted r' j
                (get_elem?-set_elem bits index j false (length-grown index r.deleted) ∙ rw q refl)
                (omega arith)
              ∙ ap (get_elem? r.instance_vector) e
              ∙ ground arith
          | inr q ↦
              object-kept r r' j index refl
                (get_elem?-set_elem bits index j false (length-grown index r.deleted) ∙ rw q refl)
                refl
              ∙ ground arith
        ],
      )
