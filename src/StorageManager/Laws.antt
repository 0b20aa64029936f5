-- ===== src/StorageManager/Laws.antt =====
-- What a StorageManager, include/storage/StorageManager.hpp, makes of a storage that had none before, and
-- the numbers that src/libstorage.cpp gives out.
use direct_libstorage.Base.{
  ℕ, ◌≤◌, ◌<◌, ◌≡◌, ◌≢◌, refl, ap, ◌∙◌, false, none, some, ok, ltb, ◌==◌, length, replicate,
  length-replicate, sym, arith,
}
use direct_libstorage.Serialize.{
  Codec, Order, left_to_right, right_to_left, number, deserialize_one, le_value,
}
use direct_libstorage.StorageUtils.Address.{StorageAddress}
use direct_libstorage.Store.{StorageOps, deserialize}
use direct_libstorage.Store.Laws.{IsStorage}
use direct_libstorage.DataStorage.{initialize_zero}
use direct_libstorage.UniqueId.{UniqueIdStorage, new_storage, get_size, size_from, deserialize_from}
use direct_libstorage.UniqueId
use direct_libstorage.StorageManager.{
  StorageManager, Metadata, magic_number, metadata_init, new_manager, init,
}

-- The bytes of a new storage of numbers are zero.
deserialize_zeros :
    (T : Type 0) (order : Order)
    → UniqueId.deserialize {T = T} order (replicate (get_size (new_storage {T = T})) 0)
      ≡ ok new_storage
unfolding UniqueId.deserialize deserialize_one deserialize_from get_size size_from number le_value
deserialize_zeros T left_to_right = refl
deserialize_zeros T right_to_left = refl

some_size : (T : Type 0) → 0 < get_size (new_storage {T = T})
unfolding get_size size_from number
some_size T = omega arith

module _ (T : Type 0) {S : Type 0} {ops : StorageOps S} {Live : StorageAddress → S → Type 0}
    {Room : ℕ → S → Type 0} (storage : IsStorage ops Live Room) (section : S → StorageAddress)
    (form : Codec Metadata) (order : Order) where
  -- In a storage that keeps what is filled in and has room for a storage of no numbers: where the static section reads as metadata that fits it
  -- and does not have the magic number, the constructor and init succeed, the manager has no numbers,
  -- and the metadata in memory still does not have the magic number.
  pub manager_fresh :
      (meta : Metadata) (s s1 : S)
      → deserialize ops form (section s) s ≡ ok (meta, s1)
      → meta.magic ≢ magic_number
      → form.size meta ≤ (section s).size
      → Room (get_size (new_storage {T = T})) s1
      → (manager manager' : StorageManager T S) × (new_manager T ops section form s ≡ ok manager)
        × (init T ops section form order manager ≡ ok manager')
        × (manager'.uid ≡ some new_storage)
        × (manager'.metadata.magic ≡ meta.magic)
  unfolding new_manager metadata_init init initialize_zero
  manager_fresh meta s s1 read fresh fits room =
      let size = get_size (new_storage {T = T}) in
      let (a, s2, got, exact, live) = storage.new size s1 (some_size T) room in
      let (s3, s4, zeroed, back) =
        storage.filled a (λ buf. ok (replicate (length buf) 0)) (replicate size 0) s2 live
          (length-replicate size 0 ∙ sym exact)
          (λ old l. ap (λ n. ok (replicate n 0)) (l ∙ exact)) in
      let small : ltb (section s).size (form.size meta) ≡ false = ground arith in
      let unknown : (meta.magic == magic_number) ≡ false = ground arith in
      let manager : StorageManager T S = record {
        storage = s3;
        metadata_addr = section s;
        metadata = record meta { uid = a };
        uid = none;
      } in
      (
        manager,
        record manager { storage = s4; uid = some new_storage },
        rw (read, small, unknown, got, zeroed) refl,
        rw (back, deserialize_zeros T order) refl,
        refl,
        refl,
      )
