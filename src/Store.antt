-- ===== src/Store.antt =====
-- namespace sze of include/storage/Serialize.hpp: objects in a storage. A storage is a template
-- parameter there; its operations are the fields of StorageOps here.
pub mod Laws
use direct_libstorage.Base.{ℕ, Bool, true, false, Outcome, ok, ◌>>=◌, ltb, ◌==◌, if◌then◌else◌}
use direct_libstorage.Serialize.{Bytes, Codec}
use direct_libstorage.StorageUtils.Address.{StorageAddress, null_address}

-- concept CStorage. `fill` is writeb, the change that the caller makes to the bytes of the buffer,
-- and commit; `readb` returns the bytes at an address.
pub record StorageOps (S : Type 0) : Type 0 where
  pub get_random_address : ℕ → S → Outcome (StorageAddress × S)
  pub erase : StorageAddress → S → Outcome S
  pub fill : StorageAddress → (Bytes → Outcome Bytes) → S → Outcome S
  pub readb : StorageAddress → S → Outcome (Bytes × S)

module _ {S : Type 0} (ops : StorageOps S) {T : Type 0} (c : Codec T) where
  -- The address that serialize writes to: the given one, or a new one if the object does not fit.
  unfoldable pub place_for : T → StorageAddress → S → Outcome (StorageAddress × S)
  place_for obj address storage =
      if ltb address.size (c.size obj)
      then (do
        rest ← (if address.size == 0 then ok storage else ops.erase address storage)
        ops.get_random_address (c.size obj) rest)
      else ok (address, storage)

  -- serialize(obj, storage, address): the address is passed by reference.
  unfoldable pub serialize : T → StorageAddress → S → Outcome (StorageAddress × S)
  unfolding place_for
  serialize obj address storage = do
    place ← place_for obj address storage
    after ← ops.fill place.0 (c.s obj) place.1
    ok (place.0, after)

  -- serialize(obj, storage)
  unfoldable pub serialize_new : T → S → Outcome (StorageAddress × S)
  serialize_new obj storage = serialize obj null_address storage

  unfoldable pub deserialize : StorageAddress → S → Outcome (T × S)
  deserialize addr storage = do
    buffer ← ops.readb addr storage
    obj ← c.d buffer.0
    ok (obj, buffer.1)
