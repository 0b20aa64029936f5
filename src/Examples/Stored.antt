-- ===== src/Examples/Stored.antt =====
-- The theorems about objects in a storage, of include/storage/Serialize.hpp, DataStorage.hpp and
-- StorageManager.hpp, and about the order of evaluation, at concrete inputs. The storage is a
-- SimpleStorage.
use direct_libstorage.Base.{
  ℕ, ◌+◌, ◌<◌, ◌^◌, ◌≡◌, refl, false, none, some, inl, inr, [], ◌∷◌, ◌++◌, ok, ◌>>=◌, arith,
  replicate, take, drop,
}
use direct_libstorage.Base.Words.{add64, sub64}
use direct_libstorage.Serialize.{
  Bytes, Codec, right_to_left, number, pair_s, pair_d, deserialize_one,
}
use direct_libstorage.Serialize.Containers.{address}
use direct_libstorage.Serialize.Laws.{number-IsLawful}
use direct_libstorage.Serialize.OrderLaws.{pair_order_lem}
use direct_libstorage.IntervalMap.{BeforeBegin, find_interval, find_it, step_back}
use direct_libstorage.StdMap.{find, upper_bound, prev, last_below, last, deref}
use direct_libstorage.StorageHelpers.Extents.{covers}
use direct_libstorage.StorageUtils.Address.{StorageAddress}
use direct_libstorage.StorageUtils.RandomAddress.{get_random_address}
use direct_libstorage.RandomMemoryAccess.{opened}
use direct_libstorage.RandomMemoryAccess
use direct_libstorage.Store.{serialize, deserialize}
use direct_libstorage.Store.Laws.{serialize-deserialize}
use direct_libstorage.DataStorage.{StoredObject, sync, get_with, open_object}
use direct_libstorage.DataStorage.Laws.{sync_lem}
use direct_libstorage.UniqueId.{new_storage, get_size, size_from}
use direct_libstorage.StorageManager.{Metadata, StorageManager, new_manager, init}
use direct_libstorage.StorageManager.Laws.{manager_fresh}
use direct_libstorage.VirtAddressMapping.{
  VirtAddressMapping, lookup, end_offset, size_from_start_end,
}
use direct_libstorage.VirtAddressMapping.Used.{piece, used}
use direct_libstorage.VirtAddressMapping.Sound.{IsSound}
use direct_libstorage.SimpleStorage.{SimpleStorage, readb}
use direct_libstorage.SimpleStorage.Reserved.{IsReady, IsLive, HasRoom}
use direct_libstorage.SimpleStorage.Implements.{simple_ops, simple_ops-IsStorage}

abbrev before_end : BeforeBegin ℕ
before_end n = none

-- A number of 32 bits with four bits has 28 leading zeros.
abbrev clz : ℕ → ℕ
clz n = 28

-- The addresses 0 to 3 have the first bytes of the file, 16 to 17 the next two, 48 to 71 the next 24.
abbrev mapped : VirtAddressMapping
mapped = record {
  intervals = (0, (3, 0)) ∷ (16, (17, 4)) ∷ (48, (71, 6)) ∷ [];
  unmapped = [];
  empty = [];
  max_addr = 72;
  max_offset = 30;
}

mapped-IsSound : IsSound mapped
unfolding covers used piece
mapped-IsSound = record {
  valid = (
    omega arith,
    omega arith,
    omega arith,
    (omega arith, omega arith, omega arith, (omega arith, omega arith, omega arith, tt)),
  );
  sorted = tt;
  in_space = tt;
  room = omega arith;
  once = λ x. ground arith;
}

abbrev static_section : StorageAddress
static_section = record { addr = 48; size = 24 }

abbrev storage : SimpleStorage
storage = record {
  rma = opened (replicate 64 0);
  metadata = record {
    magic_number = 0;
    ra = 0;
    va_offset = 0;
    va_size = 0;
    va_addr = 0;
    static_addr = static_section;
  };
  mapping = mapped;
}

storage-IsReady : IsReady storage
unfolding covers
storage-IsReady = record { sound = mapped-IsSound; header = ground arith; opened = refl }

abbrev small : StorageAddress
small = record { addr = 16; size = 2 }

small-IsLive : IsLive small storage
small-IsLive = record {
  ready = storage-IsReady;
  front = (0, (3, 0)) ∷ [];
  back = (48, (71, 6)) ∷ [];
  off = 4;
  held = refl;
  nonempty = omega arith;
  bounded = omega arith;
  backed = inr (omega arith, omega arith, omega arith);
}

storage-HasRoom : (n : ℕ) → n < 33 → HasRoom clz n storage
unfolding get_random_address add64
storage-HasRoom n l = record {
  ready = storage-IsReady;
  apart = (inl (omega arith), (inl (omega arith), (inl (omega arith), tt)));
  positive = omega arith;
  bounded = omega arith;
  below = omega arith;
  backed = omega arith;
}

serialize-deserialize_example :
    (b : StorageAddress) × (s' s'' : SimpleStorage) × (serialize
        (simple_ops before_end clz)
        (number 8)
        77
        small
        storage
      ≡ ok (b, s'))
    × (deserialize (simple_ops before_end clz) (number 8) b s' ≡ ok (77, s''))
unfolding number
serialize-deserialize_example =
    serialize-deserialize (simple_ops-IsStorage before_end clz (λ n. refl)) (number-IsLawful 8) 77
      small storage (omega arith) (omega arith) (omega arith) (λ p. small-IsLive)
      (storage-HasRoom 8 (omega arith))

abbrev stored : StoredObject ℕ
stored = record { address = small; modified = false; object = 76 }

sync_lem_example :
    (after : StoredObject ℕ) × (s' s'' : SimpleStorage) × (sync
        (simple_ops before_end clz)
        (number 8)
        (get_with (simple_ops before_end clz) (number 8) (λ n. n + 1) stored)
        storage
      ≡ ok (after, s'))
    × (after.modified ≡ false)
    × (after.object ≡ 77)
    × (open_object (simple_ops before_end clz) (number 8) after.address s' ≡ ok (after, s''))
unfolding number
sync_lem_example =
    sync_lem (simple_ops before_end clz) IsLive (HasRoom clz)
      (simple_ops-IsStorage before_end clz (λ n. refl)) (number 8) (λ v. v < 256 ^ 8)
      (number-IsLawful 8) (λ n. n + 1) stored storage (omega arith) (omega arith) (omega arith)
      (λ p. small-IsLive) (storage-HasRoom 8 (omega arith))

-- Four bytes, four of padding, and the address.
abbrev form : Codec Metadata
form = record {
  size = λ meta. 24;
  s = λ meta buf. (do
    magic ← (number 4).s meta.magic (take 8 buf)
    uid ← address.s meta.uid (drop 8 buf)
    ok (magic ++ uid));
  d = λ bytes. (do
    magic ← (number 4).d bytes
    uid ← address.d (drop 8 bytes)
    ok (record { magic = magic; uid = uid }));
}

abbrev zeros : Metadata
zeros = record { magic = 0; uid = record { addr = 0; size = 0 } }

section_reads :
    deserialize (simple_ops before_end clz) form static_section storage ≡ ok (zeros, storage)
unfolding deserialize readb lookup find_interval find_it step_back upper_bound prev last_below last
    deref find end_offset size_from_start_end RandomMemoryAccess.readb number pair_d deserialize_one
    add64 sub64
section_reads = refl

manager_fresh_example :
    (manager manager' : StorageManager ℕ SimpleStorage) × (new_manager ℕ
        (simple_ops before_end clz)
        (λ st. st.metadata.static_addr)
        form
        storage
      ≡ ok manager)
    × (init ℕ (simple_ops before_end clz) (λ st. st.metadata.static_addr) form right_to_left manager
        ≡ ok manager')
    × (manager'.uid ≡ some new_storage)
    × (manager'.metadata.magic ≡ 0)
unfolding get_size size_from number
manager_fresh_example =
    manager_fresh ℕ (simple_ops-IsStorage before_end clz (λ n. refl))
      (λ st. st.metadata.static_addr) form right_to_left zeros storage storage section_reads
      (ground arith) (omega arith) (storage-HasRoom 12 (omega arith))

pair_order_lem_example :
    (bytes : Bytes) × (pair_s (number 8) (number 8) (5, 6) (replicate 16 0) ≡ ok bytes)
    × (pair_d (number 8) (number 8) right_to_left (bytes ++ 7 ∷ []) ≡ ok (6, 5))
unfolding number
pair_order_lem_example =
    pair_order_lem (number-IsLawful 8) right_to_left 5 6 (replicate 16 0) (7 ∷ []) (omega arith)
      (omega arith) refl
