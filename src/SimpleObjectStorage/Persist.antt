-- ===== src/SimpleObjectStorage/Persist.antt =====
-- serializeImpl, deserializeImpl and getSizeImpl of SimpleObjectStorage. The addresses are written in
-- the order of their keys, where std::unordered_map has an order of its own. The constructor that
-- deserializeImpl calls leaves tail_addr at its default.
use direct_libstorage.Base.{ℕ, ◌+◌, [], Outcome, ok, ◌>>=◌, length}
use direct_libstorage.Serialize.{Bytes, Order, left_to_right}
use direct_libstorage.Serialize.Containers.{address, map_codec}
use direct_libstorage.Serialize.Sequence.{serialize_four, deserialize_four}
use direct_libstorage.Serialize.Strings.{bits}
use direct_libstorage.StorageUtils.Address.{null_address}
use direct_libstorage.VirtAddressMapping.Persist.{set_ordered_by_size}
use direct_libstorage.SimpleObjectStorage.{SimpleObjectStorage}

module _ {T S : Type 0} where
  unfoldable pub object_storage_size : SimpleObjectStorage T S → ℕ
  object_storage_size o =
      address.size o.base
      + (bits.size o.states
          + ((map_codec address left_to_right).size o.addresses
              + (set_ordered_by_size address left_to_right).size o.unused_addresses))

  unfoldable pub object_storage_s : SimpleObjectStorage T S → Bytes → Outcome Bytes
  object_storage_s o buf =
      serialize_four address bits (map_codec address left_to_right)
        (set_ordered_by_size address left_to_right) o.base o.states o.addresses o.unused_addresses
        buf

  unfoldable pub object_storage_d : Order → Bytes → S → Outcome (SimpleObjectStorage T S)
  object_storage_d order bytes storage = do
    all ←
        deserialize_four address bits (map_codec address order) (set_ordered_by_size address order)
          order bytes
    ok (record {
      storage = storage;
      base = all.0;
      tail_addr = null_address;
      objects = [];
      states = all.1;
      addresses = all.2;
      unused_addresses = all.3;
      count = length all.2;
    })
