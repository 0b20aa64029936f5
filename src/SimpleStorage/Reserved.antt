-- ===== src/SimpleStorage/Reserved.antt =====
-- The addresses that are reserved in a SimpleStorage, of include/storage/SimpleStorage.hpp, and what
-- makes room for a new one.
use direct_libstorage.Base.{
  ℕ, suc, ◌+◌, ◌-◌, ◌≤◌, ◌<◌, ◌≡◌, refl, inl, inr, ◌⊎◌, none, [], ◌∷◌, ◌++◌, true, length, arith,
  dec_lt, nat_eq,
}
use direct_libstorage.Base.Words.{word}
use direct_libstorage.IntervalMap.{Intervals}
use direct_libstorage.IntervalMap.Meaning.{Disjoint, Clear, value_at, join, place}
use direct_libstorage.IntervalMap.CutLaws.{Disjoint-middle}
use direct_libstorage.StorageUtils.Address.{StorageAddress}
use direct_libstorage.StorageUtils.RandomAddress.{get_random_address}
use direct_libstorage.VirtAddressMapping.{unmapped_offset}
use direct_libstorage.VirtAddressMapping.AllocLaws.{free}
use direct_libstorage.VirtAddressMapping.Used.{piece}
use direct_libstorage.VirtAddressMapping.Freed.{Whole, freed, freed_above}
use direct_libstorage.VirtAddressMapping.Sound.{IsSound}
use direct_libstorage.SimpleStorage.{SimpleStorage}

-- The mapping has the invariant, byte 0 of the file is not free, and the memory is open.
pub record IsReady (st : SimpleStorage) : Type 0 where
  pub sound : IsSound st.mapping
  pub header : free 0 st.mapping ≡ 0
  pub opened : st.rma.is_open ≡ true

-- The address is a whole interval, which has bytes of the memory behind the first one, or has none
-- yet and finds them behind the end of the file.
pub record IsLive (a : StorageAddress) (st : SimpleStorage) : Type 0 where
  pub ready : IsReady st
  pub front : Intervals ℕ
  pub back : Intervals ℕ
  pub off : ℕ
  pub held : st.mapping.intervals ≡ front ++ (a.addr, (a.addr + a.size - 1, off)) ∷ back
  pub nonempty : 0 < a.size
  pub bounded : a.addr + a.size < word
  pub backed :
      ((off ≡ unmapped_offset)
        × (st.mapping.max_offset + a.size < unmapped_offset)
        × (st.mapping.max_offset + a.size ≤ length st.rma.membase))
      ⊎ ((0 < off) × (off + a.size < unmapped_offset) × (off + a.size ≤ length st.rma.membase))

-- The next address that is made for `size` bytes.
abbrev pub next_address : (ℕ → ℕ) → ℕ → SimpleStorage → ℕ
next_address clz size st = (get_random_address clz size st.metadata.ra).0

-- No interval meets or touches the next address, and its bytes find place behind the end of the file.
pub record HasRoom (clz : ℕ → ℕ) (size : ℕ) (st : SimpleStorage) : Type 0 where
  pub ready : IsReady st
  pub apart :
      Clear (next_address clz size st - 1) (next_address clz size st + size) st.mapping.intervals
  pub positive : 0 < next_address clz size st
  pub bounded : next_address clz size st + size < word
  pub below : st.mapping.max_offset + size < unmapped_offset
  pub backed : st.mapping.max_offset + size ≤ length st.rma.membase

pub Clear-inside : (s e s' e' : ℕ) (m : Intervals ℕ) → Clear s e m → s ≤ s' → e' ≤ e → Clear s' e' m
Clear-inside s e s' e' [] c l u = tt
Clear-inside s e s' e' ((a, (b, v)) ∷ m) c l u = (ground arith, Clear-inside s e s' e' m c.1 l u)

pub Clear-none :
    (s e lo : ℕ) (m : Intervals ℕ)
    → Disjoint lo m
    → ((k : ℕ) → s ≤ k → k ≤ e → value_at k m ≡ none)
    → s ≤ e
    → Clear s e m
unfolding value_at
Clear-none s e lo [] h f l = tt
Clear-none s e lo ((a, (b, v)) ∷ m) h f l =
    (ground (arith, f s, f a), Clear-none s e (suc b) m h.3 (λ k p q. ground (arith, f k p q)) l)

-- What is put apart from all intervals stays an interval of its own.
pub place_apart :
    (s e v lo : ℕ) (m : Intervals ℕ)
    → Disjoint lo m
    → 0 < s
    → s ≤ e
    → Clear (s - 1) (e + 1) m
    → (front back : Intervals ℕ) × (place s e v m ≡ front ++ (s, (e, v)) ∷ back)
unfolding place join
place_apart s e v lo [] h p l c = ([], [], refl)
place_apart s e v lo ((a, (b, w)) ∷ m) h p l c = elim (dec_lt e a) [
  | yes q ↦ ([], (a, (b, w)) ∷ m, ground arith)
  | no q ↦
      let (front, back, made) = place_apart s e v (suc b) m h.3 p l c.1 in
      ((a, (b, w)) ∷ front, back, ground arith)
]

Whole-above : (s e lo : ℕ) (m : Intervals ℕ) → Disjoint lo m → e < lo → Whole s e m
Whole-above s e lo [] h l = tt
Whole-above s e lo ((a, (b, v)) ∷ m) h l =
    (inr (inr (inl (omega arith))), Whole-above s e (suc b) m h.3 (omega arith))

pub Whole-middle :
    (s e v lo : ℕ) (front back : Intervals ℕ)
    → Disjoint lo (front ++ (s, (e, v)) ∷ back)
    → Whole s e (front ++ (s, (e, v)) ∷ back)
Whole-middle s e v lo [] back h =
    (inr (inr (inr (omega arith, omega arith))), Whole-above s e (suc e) back h.3 (omega arith))
Whole-middle s e v lo ((a, (b, w)) ∷ front) back h =
    let (low, ordered, high, all) = Disjoint-middle (suc b) front s e v back h.3 in
    (inr (inl (omega arith)), Whole-middle s e v (suc b) front back h.3)

-- Deleting a whole interval frees its bytes only.
pub freed-middle :
    (x s e v lo : ℕ) (front back : Intervals ℕ)
    → Disjoint lo (front ++ (s, (e, v)) ∷ back)
    → freed x s e (front ++ (s, (e, v)) ∷ back) ≡ piece x s e v
unfolding freed
freed-middle x s e v lo [] back h = ground (arith, freed_above x s e (suc e) back h.3)
freed-middle x s e v lo ((a, (b, w)) ∷ front) back h =
    let (low, ordered, high, all) = Disjoint-middle (suc b) front s e v back h.3 in
    ground (arith, freed-middle x s e v (suc b) front back h.3)
