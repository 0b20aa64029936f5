-- ===== src/SimpleStorage.antt =====
-- class SimpleStorage of include/storage/SimpleStorage.hpp: an address space in mapped memory. Arguments
-- are `before` and `clz`, as in IntervalMap and StorageUtils.RandomAddress, and `form`, the object
-- representation of FileMetadata, which the compiler chooses.
pub mod Laws
pub mod Memory
pub mod FirstWrite
pub mod Reserved
pub mod Filling
pub mod Implements
use direct_libstorage.Base.{
  ℕ, ◌+◌, ◌*◌, Bool, true, false, not, Outcome, ok, ◌>>=◌, ◌>>◌, assert_on, Result, ltb, ◌==◌,
  if◌then◌else◌, length, replicate,
}
use direct_libstorage.Base.Words.{add64}
use direct_libstorage.Serialize.{Bytes, Codec, Order}
use direct_libstorage.IntervalMap.{BeforeBegin}
use direct_libstorage.StorageUtils.Address.{StorageAddress}
use direct_libstorage.StorageUtils.RandomAddress
use direct_libstorage.RandomMemoryAccess.{RandomMemoryAccess}
use direct_libstorage.RandomMemoryAccess
use direct_libstorage.VirtAddressMapping.{
  VirtAddressMapping, new_mapping, lookup, alloc, alloc_unmapped,
}
use direct_libstorage.VirtAddressMapping
use direct_libstorage.VirtAddressMapping.Persist.{vam_size, vam_s, vam_d}

abbrev pub magic : ℕ
magic = 4264233159

abbrev pub default_size : ℕ
default_size = 1024 * 1024

abbrev pub extra_spare_space : ℕ
extra_spare_space = 1024

-- FileMetadata; `ra` is the high_bits of the RandomAddressRange.
pub record FileMetadata : Type 0 where
  pub magic_number : ℕ
  pub ra : ℕ
  pub va_offset : ℕ
  pub va_size : ℕ
  pub va_addr : ℕ
  pub static_addr : StorageAddress

pub record SimpleStorage : Type 0 where
  pub rma : RandomMemoryAccess
  pub metadata : FileMetadata
  pub mapping : VirtAddressMapping

module _ (before : BeforeBegin ℕ) where
  unfoldable pub expand_address :
      StorageAddress → ℕ → SimpleStorage → Outcome (StorageAddress × SimpleStorage)
  expand_address address size st = do
    new ← VirtAddressMapping.expand before address size st.mapping
    ok (
      record { addr = add64 address.addr address.size; size = size },
      record st { mapping = new.0 },
    )

  unfoldable pub write : StorageAddress → Bytes → SimpleStorage → Outcome SimpleStorage
  write addr buffer st = do
    at ← lookup before addr.addr addr.size false st.mapping
    assert_on (ltb at.0.1 (length buffer))
    assert_on (at.0.0 == 0)
    rma' ← RandomMemoryAccess.write at.0.0 buffer st.rma
    ok (record st { rma = rma'; mapping = at.1 })

  unfoldable pub erase : StorageAddress → SimpleStorage → Outcome (SimpleStorage × Result)
  erase addr st = do
    gone ← VirtAddressMapping.del before addr.addr addr.size st.mapping
    ok (record st { mapping = gone.0 }, gone.1)

  unfoldable pub read : StorageAddress → ℕ → SimpleStorage → Outcome (Bytes × SimpleStorage)
  read addr allocated st = do
    at ← lookup before addr.addr addr.size true st.mapping
    assert_on (ltb addr.size at.0.1)
    assert_on (ltb allocated addr.size)
    assert_on (at.0.0 == 0)
    bytes ← RandomMemoryAccess.read at.0.0 addr.size allocated st.rma
    ok (bytes, record st { mapping = at.1 })

  -- writeb, the change that the caller makes to the bytes of the buffer, and commit.
  unfoldable pub fill :
      StorageAddress → (Bytes → Outcome Bytes) → SimpleStorage → Outcome SimpleStorage
  fill addr f st = do
    at ← lookup before addr.addr addr.size false st.mapping
    assert_on (ltb at.0.1 addr.size)
    assert_on (at.0.0 == 0)
    rma' ← RandomMemoryAccess.fill at.0.0 addr.size f st.rma
    ok (record st { rma = rma'; mapping = at.1 })

  unfoldable pub readb : StorageAddress → SimpleStorage → Outcome (Bytes × SimpleStorage)
  readb addr st = do
    at ← lookup before addr.addr addr.size true st.mapping
    assert_on (ltb at.0.1 addr.size)
    assert_on (at.0.0 == 0)
    bytes ← RandomMemoryAccess.readb at.0.0 addr.size st.rma
    ok (bytes, record st { mapping = at.1 })

  module _ (clz : ℕ → ℕ) where
    unfoldable pub get_random_address : ℕ → SimpleStorage → Outcome (StorageAddress × SimpleStorage)
    get_random_address size st = do
      let (addr, ra') = RandomAddress.get_random_address clz size st.metadata.ra
      new ← alloc_unmapped before addr size st.mapping
      ok (
        record { addr = addr; size = size },
        record st { metadata = record (st.metadata) { ra = ra' }; mapping = new.0 },
      )

    module _ (form : Codec FileMetadata) where
      -- init_simple_storage for a file without the magic number.
      unfoldable pub init_new : ℕ → SimpleStorage → Outcome SimpleStorage
      unfolding get_random_address fill
      init_new static_size st = do
        let (va_addr', ra1) = RandomAddress.get_random_address clz default_size st.metadata.ra
        let meta_size = form.size st.metadata
        let (metadata_addr, ra2) = RandomAddress.get_random_address clz meta_size ra1
        first ← alloc before metadata_addr meta_size st.mapping
        assert_on (not (first.0 == 0))
        let meta = record (st.metadata) { magic_number = magic; va_addr = va_addr'; ra = ra2 }
        static ← get_random_address static_size (record st { metadata = meta; mapping = first.1 })
        let meta' = record (static.1.metadata) { static_addr = static.0 }
        fill static.0 (λ buf. ok (replicate (length buf) 0))
            (record (static.1) { metadata = meta' })

      -- init_simple_storage for a file that was closed before.
      unfoldable pub init_old : Order → ℕ → FileMetadata → SimpleStorage → Outcome SimpleStorage
      init_old order static_size fm st = do
        assert_on (ltb fm.static_addr.size static_size)
        vmap_buf ← RandomMemoryAccess.readb fm.va_offset fm.va_size st.rma
        mapping' ← vam_d order vmap_buf
        freed ← VirtAddressMapping.del before fm.va_addr fm.va_size mapping'
        ok (record st { metadata = fm; mapping = freed.0 })

      unfoldable pub init_simple_storage : Order → ℕ → SimpleStorage → Outcome SimpleStorage
      unfolding init_new init_old
      init_simple_storage order static_size st = do
        metadata_buf ← RandomMemoryAccess.readb 0 (form.size st.metadata) st.rma
        fm ← form.d metadata_buf
        (if fm.magic_number == magic
            then init_old order static_size fm st
            else init_new static_size st)

      -- ~SimpleStorage: the memory that stays.
      unfoldable pub destroy : SimpleStorage → Outcome RandomMemoryAccess
      destroy st = do
        let va_size' = add64 (vam_size st.mapping) extra_spare_space
        at ← alloc before st.metadata.va_addr va_size' st.mapping
        let meta = record (st.metadata) { va_size = va_size'; va_offset = at.0 }
        rma1 ← RandomMemoryAccess.fill at.0 va_size' (vam_s at.1) st.rma
        RandomMemoryAccess.fill 0 (form.size meta) (form.s meta) rma1
