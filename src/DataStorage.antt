-- ===== src/DataStorage.antt =====
-- include/storage/DataStorage.hpp: objects with a tag, and objects with the address that they are
-- stored at. `make` stands for the constructor of T that deserializeImpl calls with the remaining
-- arguments.
pub mod Laws
use direct_libstorage.Base.{
  ℕ, ◌+◌, Bool, true, false, Outcome, ok, throw, invalid_argument, ◌>>=◌, ◌>>◌, ◌==◌, if◌then◌else◌,
  length, replicate,
}
use direct_libstorage.Serialize.{Bytes, Codec, serialize_one, deserialize_one, number}
use direct_libstorage.Serialize.Containers.{address}
use direct_libstorage.StorageUtils.Address.{StorageAddress}
use direct_libstorage.Store.{StorageOps}
use direct_libstorage.Store

-- make_magic
abbrev pub make_magic : ℕ
make_magic = 14610347

-- TypedObject::verify
unfoldable pub verify : ℕ → ℕ → Bool
verify storage_magic magic = storage_magic == magic

-- TypedObject(T &&t, uint32_t magic), which keeps t.
unfoldable pub typed_object : {T : Type 0} → ℕ → T → ℕ → Outcome T
unfolding verify
typed_object storage_magic t magic =
    if verify storage_magic magic then throw invalid_argument else ok t

module _ {T : Type 0} (storage_magic : ℕ) (make : Outcome T) (c : Codec T) where
  unfoldable pub typed_size : T → ℕ
  typed_size object = (number 4).size 0 + c.size object

  unfoldable pub typed_s : T → Bytes → Outcome Bytes
  typed_s object buf = do
    tag ← serialize_one (number 4) storage_magic buf 0
    body ← serialize_one c object tag.0 tag.1
    ok body.0

  -- Another tag leads to an object that is made from the arguments.
  unfoldable pub typed_d : Bytes → Outcome T
  unfolding verify
  typed_d bytes = do
    tag ← deserialize_one (number 4) bytes
    (if verify storage_magic tag.0 then (do body ← deserialize_one c tag.1; ok body.0) else make)

  abbrev pub typed : Codec T
  typed = record { size = typed_size; s = typed_s; d = typed_d }

pub record StoredObject (T : Type 0) : Type 0 where
  pub address : StorageAddress
  pub modified : Bool
  pub object : T

module _ {S : Type 0} (ops : StorageOps S) {T : Type 0} (c : Codec T) where
  -- StoredObject(address, storage, args...)
  unfoldable pub open_object : StorageAddress → S → Outcome (StoredObject T × S)
  open_object a storage = do
    loaded ← Store.deserialize ops c a storage
    ok (record { address = a; modified = false; object = loaded.0 }, loaded.1)

  -- StoredObject(t, storage)
  unfoldable pub new_object : ℕ → T → S → Outcome (StoredObject T × S)
  new_object default_alloc_size t storage = do
    place ← ops.get_random_address default_alloc_size storage
    ok (record { address = place.0; modified = true; object = t }, place.1)

  -- get(), and what the caller writes through the reference.
  unfoldable pub get_with : (T → T) → StoredObject T → StoredObject T
  get_with f so = record so { modified = true; object = f so.object }

  unfoldable pub sync : StoredObject T → S → Outcome (StoredObject T × S)
  sync so storage =
      if so.modified
      then (do
        written ← Store.serialize ops c so.object so.address storage
        ok (record so { modified = false; address = written.0 }, written.1))
      else ok (so, storage)

  unfoldable pub stored_s : StoredObject T → Bytes → Outcome Bytes
  stored_s so buf = do one ← serialize_one address so.address buf 0; ok one.0

  unfoldable pub stored_d : Bytes → S → Outcome (StoredObject T × S)
  unfolding open_object
  stored_d bytes storage = do one ← deserialize_one address bytes; open_object one.0 storage

  -- AutoStoredObject: serializeImpl writes the object, deserializeImpl makes a new stored object.
  unfoldable pub auto_s : StoredObject T → Bytes → Outcome Bytes
  auto_s so buf = do one ← serialize_one c so.object buf 0; ok one.0

  unfoldable pub auto_d : ℕ → Bytes → S → Outcome (StoredObject T × S)
  unfolding new_object
  auto_d default_alloc_size bytes storage = do
    one ← deserialize_one c bytes
    new_object default_alloc_size one.0 storage

-- initialize_zero: memset over the whole buffer.
unfoldable pub initialize_zero : {S : Type 0} → StorageOps S → StorageAddress → S → Outcome S
initialize_zero ops addr storage = ops.fill addr (λ buf. ok (replicate (length buf) 0)) storage
