-- ===== src/StorageHelpers/Extents.antt =====
-- A SetOrderedBySize of free extents of a file, an offset under its length, as
-- include/storage/SimpleStorage.hpp uses it: what splice does to the bytes of the extents.
use direct_libstorage.Base.{
  ℕ, zero, suc, ◌+◌, ◌-◌, ◌≤◌, ◌<◌, ◌≡◌, refl, subst, ◌∙◌, Bool, true, false, ◌&&◌, Option, none,
  some, [], ◌∷◌, ◌++◌, ltb, leb, ◌==◌, if◌then◌else◌, arith,
}
use direct_libstorage.Base.Words.{word, word_max, add64, sub64, add64_lem, sub64_lem}
use direct_libstorage.StorageHelpers.{
  MultiMap, lower_bound, element, erase, insert, candidate, splice,
}
use direct_libstorage.StorageHelpers.Order.{
  IsSorted, Smaller, Fit, no_fit, best_fit, lower_bound-Fit, insert-IsSorted, candidate-none,
  candidate-some,
}

-- The advance_offset of VirtAddressMapping::alloc_offset: the rest of the extent, and its old offset.
abbrev pub advance_offset : ℕ → ℕ → ℕ × ℕ
advance_offset offset size = (add64 offset size, offset)

abbrev pub splice_offset : ℕ → MultiMap ℕ → (Bool × ℕ) × MultiMap ℕ
splice_offset size d = splice 0 advance_offset size word_max d

-- 1 if the extent holds the byte x.
abbrev pub holds : ℕ → ℕ → ℕ → ℕ
holds x offset size = if leb offset x && ltb x (offset + size) then 1 else 0

-- The number of extents that hold the byte x.
unfoldable pub covers : ℕ → MultiMap ℕ → ℕ
covers x [] = 0
covers x ((size, offset) ∷ d) = holds x offset size + covers x d

-- The extents lie in the address space.
abbrev pub InSpace : MultiMap ℕ → Type 0
InSpace [] = Unit
InSpace ((size, offset) ∷ d) = (offset + size < word) × InSpace d

covers-append :
    (x : ℕ) (front back : MultiMap ℕ) → covers x (front ++ back) ≡ covers x front + covers x back
unfolding covers
covers-append x [] back = omega arith
covers-append x ((k, t) ∷ front) back = omega (arith, covers-append x front back)

pub covers-insert :
    (x k t : ℕ) (d : MultiMap ℕ) → covers x (insert k t d) ≡ holds x t k + covers x d
unfolding covers insert
covers-insert x k t [] = refl
covers-insert x k t ((j, u) ∷ d) = ground (arith, covers-insert x k t d)

-- What splice answers for an extent of `size` bytes: nothing, if all extents are smaller, or the offset
-- of `size` bytes that the set held and does not hold any more, while it holds all others as before;
-- the extents that are left lie in the address space.
pub data Splices (size : ℕ) (d : MultiMap ℕ) : (Bool × ℕ) × MultiMap ℕ → Type 0 where
  misses : Smaller size d → Splices size d ((false, 0), d)
  takes :
      (offset : ℕ) (d' : MultiMap ℕ)
      → ((x : ℕ) → covers x d' + holds x offset size ≡ covers x d)
      → InSpace d'
      → Splices size d ((true, offset), d')

InSpace-middle :
    (front : MultiMap ℕ) (k t : ℕ) (back : MultiMap ℕ)
    → InSpace (front ++ (k, t) ∷ back)
    → t + k < word
InSpace-middle [] k t back h = h.0
InSpace-middle ((j, u) ∷ front) k t back h = InSpace-middle front k t back h.1

holds-split :
    (x t k size : ℕ) → size ≤ k → holds x (t + size) (k - size) + holds x t size ≡ holds x t k
holds-split x t k size h = ground arith

splice_miss :
    (size : ℕ) (d : MultiMap ℕ)
    → candidate size word_max d ≡ none
    → splice_offset size d ≡ ((false, 0), d)
unfolding splice
splice_miss size d q = ground arith

splice_take :
    (size : ℕ) (d : MultiMap ℕ) (k t : ℕ)
    → candidate size word_max d ≡ some (k, t)
    → splice_offset size d ≡ (
      (true, t),
      if k == size
          then erase (lower_bound size d) d
          else insert (sub64 k size) (add64 t size) (erase (lower_bound size d) d),
    )
unfolding splice
splice_take size d k t q = ground arith

covers_rest :
    (x k t size : ℕ) (d front back : MultiMap ℕ)
    → d ≡ front ++ (k, t) ∷ back
    → size ≤ k
    → covers x (if k == size then front ++ back else insert (k - size) (t + size) (front ++ back))
        + holds x t size
      ≡ covers x d
unfolding covers
covers_rest x k t size d front back e l =
    rw (e, covers-append x front ((k, t) ∷ back))
      (ground
        (arith, covers-insert x (k - size) (t + size) (front ++ back), covers-append x front back))

InSpace-erase :
    (front : MultiMap ℕ) (k t : ℕ) (back : MultiMap ℕ)
    → InSpace (front ++ (k, t) ∷ back)
    → InSpace (front ++ back)
InSpace-erase [] k t back h = h.1
InSpace-erase ((j, u) ∷ front) k t back h = (h.0, InSpace-erase front k t back h.1)

pub InSpace-insert : (k t : ℕ) (d : MultiMap ℕ) → t + k < word → InSpace d → InSpace (insert k t d)
unfolding insert
InSpace-insert k t [] l h = (l, tt)
InSpace-insert k t ((j, u) ∷ d) l h = ground (arith, InSpace-insert k t d l)

InSpace-rest :
    (k t size : ℕ) (front back : MultiMap ℕ)
    → InSpace (front ++ (k, t) ∷ back)
    → size ≤ k
    → InSpace (if k == size then front ++ back else insert (k - size) (t + size) (front ++ back))
InSpace-rest k t size front back h l = ground (
  arith,
  InSpace-middle front k t back h,
  InSpace-erase front k t back h,
  InSpace-insert (k - size) (t + size) (front ++ back),
)

Fit-Splices :
    (size : ℕ) (d : MultiMap ℕ) {r : Option (ℕ × ℕ)}
    → InSpace d
    → element (lower_bound size d) d ≡ r
    → Fit size d r
    → Splices size d (splice_offset size d)
Fit-Splices size d h q (no_fit s) =
    rw (splice_miss size d (candidate-none size word_max d q)) (misses s)
Fit-Splices size d h q (best_fit front k t back e s o b r) =
    let bound = InSpace-middle front k t back (subst InSpace e h) in
    rw
      (
        splice_take size d k t (candidate-some size word_max d k t q ∙ ground arith),
        r,
        sub64_lem k size o (omega arith),
        add64_lem t size (omega arith),
      )
      (takes t _ (λ x. covers_rest x k t size d front back e o)
        (InSpace-rest k t size front back (subst InSpace e h) o))

-- From a sorted set of extents in the address space, splice takes `size` bytes if some extent has
-- them: the bytes that it answers leave the set and all others stay as they were. Otherwise it
-- answers false and changes nothing.
pub splice-Splices :
    (size : ℕ) (d : MultiMap ℕ) → IsSorted 0 d → InSpace d → Splices size d (splice_offset size d)
splice-Splices size d s h = Fit-Splices size d h refl (lower_bound-Fit 0 size d s)

erase-IsSorted : (lo i : ℕ) (d : MultiMap ℕ) → IsSorted lo d → IsSorted lo (erase i d)
unfolding erase
erase-IsSorted lo i [] h = tt
erase-IsSorted lo zero ((k, t) ∷ []) h = tt
erase-IsSorted lo zero ((k, t) ∷ (j, u) ∷ d) h = (omega arith, h.1.1)
erase-IsSorted lo (suc i) ((k, t) ∷ d) h = (h.0, erase-IsSorted k i d h.1)

splice_offset-IsSorted :
    (size : ℕ) (d : MultiMap ℕ) (c : Option (ℕ × ℕ))
    → candidate size word_max d ≡ c
    → IsSorted 0 d
    → IsSorted 0 (splice_offset size d).1
splice_offset-IsSorted size d none q h = rw (splice_miss size d q) h
splice_offset-IsSorted size d (some (k, t)) q h =
    let rest = erase-IsSorted 0 (lower_bound size d) d h in
    rw (splice_take size d k t q) (
      ground (
        arith,
        rest,
        insert-IsSorted 0 (sub64 k size) (add64 t size) (erase (lower_bound size d) d),
      ))

-- splice of extents keeps a sorted set sorted.
pub splice-IsSorted :
    (size : ℕ) (d : MultiMap ℕ) → IsSorted 0 d → IsSorted 0 (splice_offset size d).1
splice-IsSorted size d h = splice_offset-IsSorted size d (candidate size word_max d) refl h
