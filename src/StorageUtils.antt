-- ===== src/StorageUtils.antt =====
-- include/storage/StorageUtils.hpp: addresses, views of raw memory, and the source of new addresses;
-- and the bit search of include/storage/Utils.hpp.
pub mod Address
pub mod Buffer
pub mod RandomAddress
