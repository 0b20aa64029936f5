-- ===== src/FixedSizeObjectStorage/Laws.antt =====
-- What the operations of ObjectAllocationTracker, include/storage/FixedSizeObjectStorage.hpp, do to the
-- indices that are allocated.
use direct_libstorage.Base.{
  ℕ, suc, ◌+◌, ◌-◌, ◌<◌, ◌≡◌, ap, ◌∙◌, Bool, true, false, none, some, [], ◌∷◌, ok, ltb, leb, ◌==◌,
  if◌then◌else◌, length, replicate, get_elem?, set_elem, arith, get_elem?-set_elem,
  get_elem?-append, get_elem?-replicate, get_elem?-ge, length-set_elem, length-append,
  length-replicate,
}
use direct_libstorage.FixedSizeObjectStorage.{
  Tracker, resized, allocate, deallocate, each_from, for_each,
}

-- The index is allocated.
abbrev pub is_allocated : ℕ → Tracker → Bool
is_allocated j bits = elim (get_elem? bits j) [ none ↦ false | some bit ↦ bit ]

get_elem?-resized :
    (index j : ℕ) (bits : Tracker)
    → get_elem? (resized index bits) j
      ≡ (if ltb j (length bits) then get_elem? bits j else if leb j index then some false else none)
unfolding resized
get_elem?-resized index j bits = ground (
  arith,
  get_elem?-append bits (replicate (suc index - length bits) false) j,
  get_elem?-replicate (suc index - length bits) false (j - length bits),
  get_elem?-ge bits j,
)

length-resized : (index : ℕ) (bits : Tracker) → index < length (resized index bits)
unfolding resized
length-resized index bits = ground (
  arith,
  length-append bits (replicate (suc index - length bits) false),
  length-replicate (suc index - length bits) false,
)

-- allocate makes the index allocated, whatever the size of the tracker, and changes no other.
allocate_lem :
    (index j : ℕ) (bits : Tracker)
    → is_allocated j (allocate index bits) ≡ (if j == index then true else is_allocated j bits)
unfolding allocate
allocate_lem index j bits = ground (
  arith,
  get_elem?-set_elem (resized index bits) index j true (length-resized index bits),
  get_elem?-resized index j bits,
  get_elem?-ge bits j,
)

visit_allocated :
    (j i : ℕ) (bit : Bool) (bits : Tracker)
    → i < j
    → is_allocated (j - i) (bit ∷ bits) ≡ is_allocated (j - suc i) bits
visit_allocated j i bit bits l =
    let e : j - i ≡ suc (j - suc i) = omega arith in ap (λ k. is_allocated k (bit ∷ bits)) e

visit_first :
    (j i : ℕ) (bit : Bool) (bits : Tracker) → i ≡ j → is_allocated (j - i) (bit ∷ bits) ≡ bit
visit_first j i bit bits q =
    let e : j - i ≡ 0 = omega arith in ap (λ k. is_allocated k (bit ∷ bits)) e

visits_from :
    (j i n : ℕ) (bits : Tracker)
    → each_from (λ k m. if k == j then suc m else m) i bits n
      ≡ n + (if leb i j then (if is_allocated (j - i) bits then 1 else 0) else 0)
unfolding each_from
visits_from j i n [] = ground arith
visits_from j i n (bit ∷ bits) = ground (
  arith,
  visits_from j (suc i) (if bit then (if i == j then suc n else n) else n) bits,
  visit_allocated j i bit bits,
  visit_first j i bit bits,
)

-- for_each calls the function on each allocated index once, and on no other: counting the calls on an
-- index gives one if it is allocated, and nothing if it is not.
pub for_each_lem :
    (j n : ℕ) (bits : Tracker)
    → for_each (λ k m. if k == j then suc m else m) bits n
      ≡ n + (if is_allocated j bits then 1 else 0)
unfolding for_each
for_each_lem j n bits = visits_from j 0 n bits ∙ ground arith

-- deallocate below the size of the tracker succeeds, makes the index free and changes no other;
-- allocate before it makes room for every index.
deallocate-allocate :
    (index j : ℕ) (bits : Tracker)
    → (bits' : Tracker) × (deallocate index (allocate index bits) ≡ ok bits')
      × (is_allocated j bits' ≡ (if j == index then false else is_allocated j bits))
unfolding deallocate allocate
deallocate-allocate index j bits =
    let made = set_elem (resized index bits) index true in
    let long : index < length made =
      omega (arith, length-set_elem (resized index bits) index true, length-resized index bits) in
    (
      set_elem made index false,
      ground arith,
      ground (
        arith,
        get_elem?-set_elem made index j false long,
        get_elem?-set_elem (resized index bits) index j true (length-resized index bits),
        get_elem?-resized index j bits,
        get_elem?-ge bits j,
      ),
    )
