-- ===== src/Lib.antt =====
-- direct-libstorage: C++ templates that store objects in an address space which is mapped to a file
-- or to memory. The files of the development stand for the headers of include/storage.
--
-- The parts and how they interact, from the bottom up. Utils.hpp and StorageUtils.hpp
-- (Base.Outcomes, StorageUtils and its children Address, Buffer, RandomAddress): results,
-- assertions, address ranges, views of memory, the generator of addresses. IntervalMap.hpp
-- (IntervalMap: the data and the lookups; its children Insert, Delete and Update: insert_impl,
-- del_impl and the other operations): a map from intervals to values. StorageHelpers.hpp
-- (StorageHelpers): values ordered by size, used as the set of free extents of a file.
-- SimpleStorage.hpp (VirtAddressMapping, SimpleStorage): addresses are mapped to offsets of a file
-- by an interval map, offsets are taken from the free extents or from the end of the file, and reads
-- and writes go to RandomMemoryAccess.hpp (RandomMemoryAccess: the mapped bytes; its children
-- FileRma, MemoryRma and Persist: what the classes hold of the system, and how a FileRMA is stored).
-- SerializeImpl.hpp and SerializeSpecialization.hpp (Serialize and its children): objects to bytes
-- and back; the mapping is stored that way (VirtAddressMapping.Persist). Serialize.hpp (Store):
-- objects in a storage. DataStorage.hpp (DataStorage): tagged objects and objects with their
-- address. SimpleObjectStorage.hpp (SimpleObjectStorage): numbered objects in a storage.
-- UniqueID.hpp (UniqueId): objects by number. StorageManager.hpp and src/libstorage.cpp
-- (StorageManager, its child Filename): the manager of the global storage. ObjectInstanceStorage.hpp
-- (ObjectInstanceStorage, its child Range): objects in memory by index, singly or in ranges that an
-- interval map holds. FixedSizeObjectStorage.hpp (FixedSizeObjectStorage): which indices are
-- allocated. VirtualFileCatalog.hpp (VirtualFileCatalog): a map from several keys to a value, which
-- is stored.
--
-- A virtual address has the byte of the file that VirtAddressMapping.Reachable.byte_of says, and the
-- content that SimpleStorage.Memory.content says; VirtAddressMapping.Sound.IsSound is the invariant
-- that makes this a memory. ObjectInstanceStorage.Laws.object_at is the object under an index.
--
-- The function of a C++ method has the method's name in the spelling of this language; it takes the
-- object and returns it with the method's result. A class's fields are those of a record. ASSERT_ON
-- throws logic_error; an exception leaves a function as `throw`. StdMap is std::map as a sorted
-- list; the children of a module that are not named above hold lemmas, and Examples holds the
-- theorems at concrete inputs.
--
-- Numbers are 64-bit words: add64 and sub64 wrap around. Where C++ leaves the order of the
-- evaluation of arguments or the result of an operation open, the model has an argument: `order`, of
-- the type Serialize.Order, is that in which the arguments of std::make_tuple in
-- DeserializeSequentially read their objects, which differs between Clang and GCC; --m.begin(),
-- which find_it uses for a point below all keys, gives what the argument `before` says, and the
-- theorems that need it to be end() say so; an iterator without an element and an access outside of
-- mapped memory throw exceptions of their own. __builtin_clz, __builtin_clzll and the layout of
-- FileMetadata are arguments. The storage behind Store, DataStorage and SimpleObjectStorage is a
-- template parameter of the code and a record of operations here; what reading back needs of it is
-- the record Store.Laws.IsStorage, which SimpleStorage.Implements fills. The calls of the operating
-- system are the record RandomMemoryAccess.System.System, an argument of FileRma and MemoryRma;
-- their documented effect on what is open and mapped is RandomMemoryAccess.SystemLaws.IsSystem.
-- std::filesystem::absolute, the representation of StorageManager::Metadata, and what an object is
-- after it was moved from, are arguments too.
--
-- del_impl is recursive on fuel, the number of the intervals and one more: each round that goes on
-- has dealt with one interval of the map, so that this is enough, and the theorems about del and set
-- give their result without a condition on fuel. The loop of ObjectInstanceStorage::del_range is on
-- fuel, the number of the indices and one more; each round goes at least one index on. The other
-- loops are structural.
--
-- Not modelled: get of ObjectAddressStorage and ObjectStorageImpl of FixedSizeObjectStorage.hpp,
-- which do not compile or have no bodies; ObjectStorage.hpp and Storage.hpp, which only declare and
-- include; InitLibStorage, which makes directories and global objects; moving a MemoryRMA;
-- std::tuple as an object to serialize; logging, casts of views, and disabled code.
pub mod Base
pub mod StdMap
pub mod StorageUtils
pub mod StorageHelpers
pub mod VirtAddressMapping
pub mod Serialize
pub mod Store
pub mod DataStorage
pub mod SimpleObjectStorage
pub mod UniqueId
pub mod ObjectInstanceStorage
pub mod FixedSizeObjectStorage
pub mod RandomMemoryAccess
pub mod SimpleStorage
pub mod StorageManager
pub mod VirtualFileCatalog
pub mod Examples
pub mod IntervalMap
