-- ===== src/VirtAddressMapping/Persist.antt =====
-- serializeImpl, deserializeImpl and getSizeImpl of IntervalMap, SetOrderedBySize and
-- VirtAddressMapping.
use direct_libstorage.Base.{
  ℕ, ◌+◌, ◌^◌, ◌<◌, ◌≡◌, false, ◌++◌, Outcome, ok, ltb, length, arith, ◌>>=◌, ◌>>◌, assert_on,
}
use direct_libstorage.Serialize.{Bytes, Codec, Order, left_to_right, number, pair, member}
use direct_libstorage.Serialize.Laws.{IsLawful, roundtrip, number-IsLawful, pair-IsLawful}
use direct_libstorage.Serialize.Sequence.{
  serialize_four, serialize_four_lem, length-enc_four, deserialize_four_lem, deserialize_four,
}
use direct_libstorage.Serialize.Containers.{
  map_codec, multimap_codec, map-IsLawful, multimap-IsLawful, member-IsLawful, IsStoredMap,
  IsStoredMultiMap,
}
use direct_libstorage.IntervalMap.{Intervals}
use direct_libstorage.StdMap.{Map}
use direct_libstorage.StorageHelpers.{MultiMap}
use direct_libstorage.VirtAddressMapping.{VirtAddressMapping}

-- IntervalMap<K, V>: its one member is the std::map m.
abbrev pub interval_map : {V : Type 0} → Codec V → Order → Codec (Intervals V)
interval_map c order = member (map_codec (pair (number 8) c order) order)

-- SetOrderedBySize<T>: its one member is the std::multimap data.
abbrev pub set_ordered_by_size : {T : Type 0} → Codec T → Order → Codec (MultiMap T)
set_ordered_by_size c order = member (multimap_codec c order)

abbrev intervals_codec : Order → Codec (Intervals ℕ)
intervals_codec order = interval_map (number 8) order

abbrev unmapped_codec : Order → Codec (Map ℕ)
unmapped_codec order = map_codec (number 8) order

abbrev empty_codec : Order → Codec (MultiMap ℕ)
empty_codec order = set_ordered_by_size (number 8) order

abbrev max_codec : Order → Codec (ℕ × ℕ)
max_codec order = pair (number 8) (number 8) order

-- The size and the writing do not depend on the order of evaluation.
unfoldable pub vam_size : VirtAddressMapping → ℕ
vam_size vam =
    (intervals_codec left_to_right).size vam.intervals
    + ((unmapped_codec left_to_right).size vam.unmapped
        + ((empty_codec left_to_right).size vam.empty
            + (max_codec left_to_right).size (vam.max_addr, vam.max_offset)))

unfoldable pub vam_s : VirtAddressMapping → Bytes → Outcome Bytes
unfolding vam_size
vam_s vam buf = do
  assert_on (ltb (length buf) (vam_size vam))
  serialize_four (intervals_codec left_to_right) (unmapped_codec left_to_right)
      (empty_codec left_to_right) (max_codec left_to_right) vam.intervals vam.unmapped vam.empty
      (vam.max_addr, vam.max_offset) buf

unfoldable pub vam_d : Order → Bytes → Outcome VirtAddressMapping
vam_d order bytes = do
  all ←
      deserialize_four (intervals_codec order) (unmapped_codec order) (empty_codec order)
        (max_codec order) order bytes
  ok (record {
    intervals = all.0;
    unmapped = all.1;
    empty = all.2;
    max_addr = all.3.0;
    max_offset = all.3.1;
  })

abbrev pub vam_codec : Order → Codec VirtAddressMapping
vam_codec order = record { size = vam_size; s = vam_s; d = vam_d order }

interval_map-IsLawful :
    IsLawful
      (intervals_codec left_to_right)
      (IsStoredMap (pair-IsLawful (number-IsLawful 8) (number-IsLawful 8)))
interval_map-IsLawful =
    member-IsLawful (map-IsLawful (pair-IsLawful (number-IsLawful 8) (number-IsLawful 8)))

abbrev unmapped-IsLawful : IsLawful (unmapped_codec left_to_right) (IsStoredMap (number-IsLawful 8))
unmapped-IsLawful = map-IsLawful (number-IsLawful 8)

set-IsLawful : IsLawful (empty_codec left_to_right) (IsStoredMultiMap (number-IsLawful 8))
set-IsLawful = member-IsLawful (multimap-IsLawful (number-IsLawful 8))

abbrev WordPair : ℕ × ℕ → Type 0
WordPair (a, b) = (a < 2 ^ 64) × (b < 2 ^ 64)

max-IsLawful : IsLawful (max_codec left_to_right) WordPair
max-IsLawful = pair-IsLawful (number-IsLawful 8) (number-IsLawful 8)

-- The keys of the three containers ascend, those of the multimap weakly, and all numbers and sizes
-- are words.
abbrev pub IsStored : VirtAddressMapping → Type 0
IsStored vam =
    IsStoredMap (pair-IsLawful (number-IsLawful 8) (number-IsLawful 8)) vam.intervals
    × IsStoredMap (number-IsLawful 8) vam.unmapped
    × IsStoredMultiMap (number-IsLawful 8) vam.empty
    × WordPair (vam.max_addr, vam.max_offset)

abbrev vam_enc : VirtAddressMapping → Bytes
vam_enc vam =
    interval_map-IsLawful.enc vam.intervals
    ++ (unmapped-IsLawful.enc vam.unmapped
        ++ (set-IsLawful.enc vam.empty ++ max-IsLawful.enc (vam.max_addr, vam.max_offset)))

vam_length : (vam : VirtAddressMapping) → IsStored vam → length (vam_enc vam) ≡ vam_size vam
unfolding vam_size
vam_length vam h =
    length-enc_four interval_map-IsLawful unmapped-IsLawful set-IsLawful max-IsLawful vam.intervals
      vam.unmapped vam.empty (vam.max_addr, vam.max_offset) h.0 h.1 h.2 h.3

vam_s_enc :
    (vam : VirtAddressMapping) (buf : Bytes)
    → IsStored vam
    → length buf ≡ vam_size vam
    → vam_s vam buf ≡ ok (vam_enc vam)
unfolding vam_s vam_size
vam_s_enc vam buf h n =
    let fits : ltb (length buf) (vam_size vam) ≡ false = ground arith in
    rw fits (
      serialize_four_lem interval_map-IsLawful unmapped-IsLawful set-IsLawful max-IsLawful
        vam.intervals vam.unmapped vam.empty (vam.max_addr, vam.max_offset) buf h.0 h.1 h.2 h.3 n)

vam_d_enc :
    (vam : VirtAddressMapping) (rest : Bytes)
    → IsStored vam
    → vam_d left_to_right (vam_enc vam ++ rest) ≡ ok vam
unfolding vam_d
vam_d_enc vam rest h = rw (
    deserialize_four_lem interval_map-IsLawful unmapped-IsLawful set-IsLawful max-IsLawful
      vam.intervals vam.unmapped vam.empty (vam.max_addr, vam.max_offset) rest h.0 h.1 h.2 h.3)

-- A mapping is read back as it was written, where the arguments of a call are evaluated from the left to
-- the right.
pub vam-IsLawful : IsLawful (vam_codec left_to_right) IsStored
vam-IsLawful = record {
  enc = vam_enc;
  length_enc = vam_length;
  s_enc = vam_s_enc;
  d_enc = vam_d_enc;
}

-- For a mapping whose intervals, unmapped ranges and extents are in the order of their keys and
-- whose numbers are words, serializeImpl to a buffer of the object's size succeeds, and
-- deserializeImpl reads the mapping back from the bytes, whatever follows them, where the compiler
-- evaluates the arguments of a call from the left to the right.
pub mapping_roundtrip :
    (vam : VirtAddressMapping) (buf rest : Bytes)
    → IsStored vam
    → length buf ≡ vam_size vam
    → (bytes : Bytes) × (vam_s vam buf ≡ ok bytes) × (vam_d left_to_right (bytes ++ rest) ≡ ok vam)
mapping_roundtrip vam buf rest h n =
    roundtrip (vam_codec left_to_right) IsStored vam-IsLawful vam buf rest h n
