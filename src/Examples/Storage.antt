-- ===== src/Examples/Storage.antt =====
-- The theorems about buffers, addresses and tagged objects at concrete inputs.
use direct_libstorage.Base.{
  ◌+◌, ◌*◌, ◌^◌, ◌≡◌, refl, List, [], ◌∷◌, ◌++◌, ok, throw, logic_error, arith, replicate,
}
use direct_libstorage.Serialize.{Bytes, number}
use direct_libstorage.Serialize.Laws.{number-IsLawful}
use direct_libstorage.StorageUtils.Buffer.{
  StorageBuffer, IsValid, Consecutive, sum, advance_all, advance_all_lem,
}
use direct_libstorage.StorageUtils.RandomAddress.{Spaced, random_addresses, random_addresses-Spaced}
use direct_libstorage.DataStorage.{typed_size, typed_s, typed_d}
use direct_libstorage.DataStorage.Laws.{typed_roundtrip}

abbrev buffer : StorageBuffer
buffer = record { ptr = 4096; data_size = 4; data_allocated = 64 }

buffer-IsValid : IsValid buffer
buffer-IsValid = record { within = omega arith; addressed = omega arith }

advance_all_lem_example :
    (bufs : List StorageBuffer) × (advance_all (8 ∷ 16 ∷ []) buffer
      ≡ ok (bufs, record buffer { data_size = 4 + sum (8 ∷ 16 ∷ []) }))
    × Consecutive (4096 + 4) (8 ∷ 16 ∷ []) bufs
advance_all_lem_example = advance_all_lem (8 ∷ 16 ∷ []) buffer buffer-IsValid (omega arith)

random_addresses-Spaced_example :
    Spaced (2 ^ 36) (3 * 2 ^ 36) (random_addresses (λ n. 20) (100 ∷ 5000 ∷ []) 3)
random_addresses-Spaced_example =
    random_addresses-Spaced (λ n. 20) (100 ∷ 5000 ∷ []) 3 (λ n. omega arith) (omega arith)

typed_roundtrip_example :
    (bytes : Bytes) × (typed_s 5 (throw logic_error) (number 8) 77 (replicate 12 0) ≡ ok bytes)
    × (typed_d 5 (throw logic_error) (number 8) (bytes ++ 3 ∷ []) ≡ ok 77)
unfolding typed_size number
typed_roundtrip_example =
    typed_roundtrip 5 (throw logic_error) (number-IsLawful 8) 77 (replicate 12 0) (3 ∷ [])
      (omega arith) (omega arith) refl
