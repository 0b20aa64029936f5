-- ===== src/StorageUtils/RandomAddress.antt =====
-- RandomAddressRange of include/storage/StorageUtils.hpp, with its default BITS_OFFSET of 36, and
-- MostSignificantBitSet of include/storage/Utils.hpp.
use direct_libstorage.Base.{
  ℕ, ◌+◌, ◌-◌, ◌*◌, ◌%◌, ◌^◌, ◌≤◌, ◌<◌, ◌≡◌, ◌≢◌, List, [], ◌∷◌, length, ltb, ◌==◌, if◌then◌else◌,
  arith,
}
use direct_libstorage.Base.Words.{word, add64}

abbrev pub bits_offset : ℕ
bits_offset = 36

-- 1 << n on int, converted to uint64_t.
unfoldable pub shift_one : ℕ → ℕ
shift_one n = if n == 31 then word - 2 ^ 31 else 2 ^ n

-- `clz` is __builtin_clz, on the low 32 bits of the size. Returns the address and the new high_bits.
unfoldable pub get_random_address : (ℕ → ℕ) → ℕ → ℕ → ℕ × ℕ
unfolding shift_one
get_random_address clz size high_bits =
    let max_offset = clz (size % 2 ^ 32) in
    let high_bits' =
      if ltb bits_offset max_offset
      then add64 high_bits (shift_one (max_offset - bits_offset))
      else add64 high_bits 1 in
    ((high_bits' * 2 ^ bits_offset) % word, high_bits')

-- The addresses of a series of calls.
unfoldable pub random_addresses : (ℕ → ℕ) → List ℕ → ℕ → List ℕ
random_addresses clz [] high_bits = []
random_addresses clz (size ∷ sizes) high_bits =
    let (addr, high_bits') = get_random_address clz size high_bits in
    addr ∷ random_addresses clz sizes high_bits'

-- uint8_t MostSignificantBitSet(v), for a type of `bytes` bytes; `clzll` is __builtin_clzll.
unfoldable pub most_significant_bit_set : (ℕ → ℕ) → ℕ → ℕ → ℕ
most_significant_bit_set clzll bytes v =
    if v == 0 then 0 else (bytes + 512 - clzll v % 256 - 1) % 256

-- The addresses are `step` apart, the first one `step` above the start.
abbrev pub Spaced : ℕ → ℕ → List ℕ → Type 0
Spaced step start [] = Unit
Spaced step start (a ∷ rest) = (a ≡ start + step) × Spaced step a rest

get_random_address_lem :
    (clz : ℕ → ℕ) (size h : ℕ)
    → clz (size % 2 ^ 32) ≤ 32
    → h + 1 < 2 ^ 28
    → get_random_address clz size h ≡ ((h + 1) * 2 ^ 36, h + 1)
unfolding get_random_address add64
get_random_address_lem clz size h c b = ground arith

-- If leading zeros of 32 bits are at most 32, the addresses of a series of calls are 2^36 apart,
-- whatever sizes are asked for, until 2^28 addresses have been given out.
pub random_addresses-Spaced :
    (clz : ℕ → ℕ) (sizes : List ℕ) (h : ℕ)
    → ((n : ℕ) → clz n ≤ 32)
    → h + length sizes < 2 ^ 28
    → Spaced (2 ^ 36) (h * 2 ^ 36) (random_addresses clz sizes h)
unfolding random_addresses
random_addresses-Spaced clz [] h c b = tt
random_addresses-Spaced clz (size ∷ sizes) h c b =
    rw (get_random_address_lem clz size h (c (size % 2 ^ 32)) (omega arith))
      (omega arith, random_addresses-Spaced clz sizes (h + 1) c (omega arith))

-- Where `clzll v` is the number of leading zeros of v in 64 bits, so that 63 - clzll v is the index of
-- the highest bit of v, the result for a word v that is not zero is 200 above that index, as an
-- 8-bit number, and never the index itself.
most_significant_bit_set_off :
    (clzll : ℕ → ℕ) (v : ℕ)
    → v ≢ 0
    → clzll v ≤ 63
    → (most_significant_bit_set clzll 8 v ≡ (63 - clzll v + 200) % 256)
      × (most_significant_bit_set clzll 8 v ≢ 63 - clzll v)
unfolding most_significant_bit_set
most_significant_bit_set_off clzll v n c = (ground arith, ground arith)
