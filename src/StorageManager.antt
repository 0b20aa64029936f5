-- ===== src/StorageManager.antt =====
-- class StorageManager of include/storage/StorageManager.hpp, and the functions of src/libstorage.cpp on
-- the global manager. The storage is an argument, as in Store; `section` is its get_static_section,
-- `form` the object representation of Metadata, which the compiler chooses.
pub mod Laws
pub mod Filename
use direct_libstorage.Base.{
  ℕ, Bool, true, false, not, Option, none, some, Outcome, ok, throw, logic_error,
  segmentation_fault, ◌>>=◌, ◌>>◌, assert_on, ltb, ◌==◌, if◌then◌else◌,
}
use direct_libstorage.Serialize.{Codec, Order}
use direct_libstorage.StorageUtils.Address.{StorageAddress}
use direct_libstorage.Store.{StorageOps, deserialize}
use direct_libstorage.DataStorage.{initialize_zero}
use direct_libstorage.UniqueId.{UniqueIdStorage, new_storage, get_size, generate_id, default_id}
use direct_libstorage.UniqueId

-- StorageManager::Metadata
pub record Metadata : Type 0 where
  pub magic : ℕ
  pub uid : StorageAddress

-- Metadata::MAGIC
abbrev pub magic_number : ℕ
magic_number = 232825595

-- `uid` is the object that the std::unique_ptr holds.
pub record StorageManager (T S : Type 0) : Type 0 where
  pub storage : S
  pub metadata_addr : StorageAddress
  pub metadata : Metadata
  pub uid : Option (UniqueIdStorage T)

module _ (T : Type 0) {S : Type 0} (ops : StorageOps S) (section : S → StorageAddress)
    (form : Codec Metadata) where
  -- Metadata::init
  unfoldable pub metadata_init : Metadata → S → Outcome (Metadata × S)
  metadata_init meta storage = if meta.magic == magic_number then ok (meta, storage) else (do
    new ← ops.get_random_address (get_size (new_storage {T = T})) storage
    zeroed ← initialize_zero ops new.0 new.1
    ok (record meta { uid = new.0 }, zeroed))

  -- StorageManager(storage)
  unfoldable pub new_manager : S → Outcome (StorageManager T S)
  unfolding metadata_init
  new_manager storage = do
    let metadata_addr = section storage
    read ← deserialize ops form metadata_addr storage
    assert_on (ltb metadata_addr.size (form.size read.0))
    made ← metadata_init read.0 read.1
    ok (record { storage = made.1; metadata_addr = metadata_addr; metadata = made.0; uid = none })

  -- StorageManager::init
  unfoldable pub init : Order → StorageManager T S → Outcome (StorageManager T S)
  init order manager = do
    buffer ← ops.readb manager.metadata.uid manager.storage
    ptr ← UniqueId.deserialize order buffer.0
    ok (record manager { storage = buffer.1; uid = some ptr })

-- g_storage_manager: the manager, if there is one.
unfoldable pub have_storage_manager : {T S : Type 0} → Option (StorageManager T S) → Bool
have_storage_manager none = false
have_storage_manager (some manager) = true

-- GetStorageManager
unfoldable pub get_storage_manager :
    {T S : Type 0} → Option (StorageManager T S) → Outcome (StorageManager T S)
get_storage_manager none = throw logic_error
get_storage_manager (some manager) = ok manager

-- GetGlobalUniqueIDStorage().generateID(), of a manager; *uid.get() of a null pointer is undefined in
-- C++, and throws here.
unfoldable pub generate_managed :
    {T S : Type 0} → StorageManager T S → Outcome (ℕ × StorageManager T S)
generate_managed manager = elim manager.uid [
  | none ↦ throw segmentation_fault
  | some u ↦ do new ← generate_id u; ok (new.0, record manager { uid = some new.1 })
]

-- GenerateGlobalUniqueID: the number, and the global manager after the call.
unfoldable pub generate_global_unique_id :
    {T S : Type 0} → Option (StorageManager T S) → Outcome (ℕ × Option (StorageManager T S))
unfolding generate_managed
generate_global_unique_id none = ok (default_id, none)
generate_global_unique_id (some manager) = do new ← generate_managed manager; ok (new.0, some new.1)
