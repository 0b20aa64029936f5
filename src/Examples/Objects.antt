-- ===== src/Examples/Objects.antt =====
-- The theorems about SimpleObjectStorage and UniqueIDStorage at concrete inputs.
use direct_libstorage.Base.{
  ℕ, ◌≡◌, refl, true, false, none, some, [], ◌∷◌, ok, ◌==◌, if◌then◌else◌, arith, ◌++◌, replicate,
  length-replicate,
}
use direct_libstorage.Base.Words.{sub64}
use direct_libstorage.Serialize.{Bytes, left_to_right}
use direct_libstorage.StdMap.{find, erase}
use direct_libstorage.StorageHelpers.{add}
use direct_libstorage.StorageUtils.Address.{StorageAddress, null_address}
use direct_libstorage.SimpleObjectStorage.{SimpleObjectStorage, state_at, has, clear, count_erased}
use direct_libstorage.SimpleObjectStorage.Laws.{clear_lem}
use direct_libstorage.UniqueId.Persist.{unloaded, uid_roundtrip}
use direct_libstorage.UniqueId.{
  serialize, deserialize, get_size, UniqueIdStorage, new_storage, register_instance, get_instance,
}
use direct_libstorage.UniqueId.Laws.{unknown, register_get}

abbrev place : StorageAddress
place = record { addr = 64; size = 8 }

-- One object, at the index 1.
abbrev objects : SimpleObjectStorage ℕ Bytes
objects = record {
  storage = [];
  base = place;
  tail_addr = place;
  objects = [];
  states = false ∷ true ∷ [];
  addresses = (1, place) ∷ [];
  unused_addresses = [];
  count = 1;
}

clear_lem_example :
    (o' : SimpleObjectStorage ℕ Bytes) × (clear 10 1 objects ≡ ok o')
    × ((j : ℕ) → has j o' ≡ (if j == 1 then false else has j objects))
    × (o'.unused_addresses ≡ add 8 place [])
    × (o'.addresses ≡ erase 1 objects.addresses)
    × (o'.objects ≡ erase 1 objects.objects)
    × (o'.count ≡ sub64 1 (count_erased 1 objects.objects))
unfolding has state_at find
clear_lem_example = clear_lem 10 1 place objects (omega arith) refl refl

register_get_example :
    (u' : UniqueIdStorage ℕ) × (register_instance 3 77 new_storage ≡ ok u')
    × (get_instance (λ a id. ok 0) 3 u' ≡ ok (77, u'))
    × ((j : ℕ) → find j u'.m ≡ (if j == 3 then some (null_address, some 77) else find j []))
    × (u'.max_id ≡ 0)
unfolding find
register_get_example = register_get (λ a id. ok 0) 3 77 null_address new_storage (unknown refl)

abbrev unloaded_object : UniqueIdStorage ℕ
unloaded_object = record { m = (3, (place, none)) ∷ []; max_id = 3 }

uid_roundtrip_example :
    (bytes : Bytes) × (serialize unloaded_object (replicate (get_size unloaded_object) 0)
      ≡ ok bytes)
    × (deserialize left_to_right (bytes ++ 7 ∷ [])
        ≡ ok (record unloaded_object { m = unloaded unloaded_object.m }))
uid_roundtrip_example =
    uid_roundtrip unloaded_object (replicate (get_size unloaded_object) 0) (7 ∷ [])
      (record {
        entries = ((omega arith, (omega arith, omega arith)), tt);
        ordered = (omega arith, tt);
        counted = omega arith;
        last = omega arith;
      })
      (length-replicate (get_size unloaded_object) 0)
