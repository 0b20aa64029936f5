-- ===== src/Serialize/OrderLaws.antt =====
-- What the order of evaluation of the arguments of std::make_tuple, in DeserializeSequentially of
-- include/storage/SerializeImpl.hpp, makes of a std::pair that is read back.
use direct_libstorage.Base.{◌+◌, ◌≡◌, ◌++◌, ok, length, append_assoc}
use direct_libstorage.Serialize.{
  Bytes, Codec, Order, left_to_right, right_to_left, pair_s, pair_d, pair_size,
}
use direct_libstorage.Serialize.Laws.{IsLawful, pair_s_enc, pair_d_enc, deserialize_one_lem}

-- The pair, or its parts in the other order.
abbrev pub read_back : {T : Type 0} → Order → T × T → T × T
read_back left_to_right p = p
read_back right_to_left (a, b) = (b, a)

module _ {T : Type 0} {c : Codec T} {P : T → Type 0} (law : IsLawful c P) where
  pair_d_swaps :
      (a b : T) (rest : Bytes)
      → P a
      → P b
      → pair_d c c right_to_left ((law.enc a ++ law.enc b) ++ rest) ≡ ok (b, a)
  unfolding pair_d
  pair_d_swaps a b rest p q = rw (
    append_assoc (law.enc a) (law.enc b) rest,
    deserialize_one_lem law a (law.enc b ++ rest) p,
    deserialize_one_lem law b rest q,
  )

  -- A std::pair of two objects of one lawful type is written to a buffer of its size. Where the
  -- compiler evaluates the arguments of a call from the left to the right, the pair is read back from
  -- the bytes, whatever follows them; where it does so from the right to the left, the parts of the
  -- pair are read back in each other's place.
  pub pair_order_lem :
      (order : Order) (a b : T) (buf rest : Bytes)
      → P a
      → P b
      → length buf ≡ c.size a + c.size b
      → (bytes : Bytes) × (pair_s c c (a, b) buf ≡ ok bytes)
        × (pair_d c c order (bytes ++ rest) ≡ ok (read_back order (a, b)))
  unfolding pair_size
  pair_order_lem left_to_right a b buf rest p q n = (
    law.enc a ++ law.enc b,
    pair_s_enc law law (a, b) buf (p, q) n,
    pair_d_enc law law (a, b) rest (p, q),
  )
  pair_order_lem right_to_left a b buf rest p q n =
      (law.enc a ++ law.enc b, pair_s_enc law law (a, b) buf (p, q) n, pair_d_swaps a b rest p q)
