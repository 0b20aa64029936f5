-- ===== src/UniqueId.antt =====
-- include/storage/UniqueID.hpp and UniqueIDInterface.hpp: objects known by a number. A unique_ptr is an
-- Option; a pointer to an object is the object. `load` is deserialize_ptr of a storage, an argument,
-- since the storage and the object's type are template parameters.
pub mod Laws
pub mod Persist
use direct_libstorage.Base.{
  ℕ, zero, suc, ◌+◌, ◌-◌, ◌^◌, Bool, true, false, not, ◌||◌, ◌&&◌, Option, none, some, List, [],
  ◌∷◌, Outcome, ok, throw, logic_error, ◌>>=◌, ◌>>◌, assert_on, ltb, ◌==◌, if◌then◌else◌, length,
}
use direct_libstorage.Serialize.{
  Bytes, Codec, serialize_one, deserialize_one, number, pair, Order, left_to_right, right_to_left,
}
use direct_libstorage.Serialize.Containers.{address}
use direct_libstorage.StdMap.{Map, assign, find, emplace, erase}
use direct_libstorage.StorageUtils.Address.{StorageAddress, null_address, is_null}

-- UniqueIDInterface<IDName>::DEFAULT
abbrev pub default_id : ℕ
default_id = 0

-- std::numeric_limits<uint32_t>::max()
abbrev pub max_uint32 : ℕ
max_uint32 = 2 ^ 32 - 1

pub record UniqueIdStorage (T : Type 0) : Type 0 where
  pub m : Map (StorageAddress × Option T)
  pub max_id : ℕ

abbrev pub new_storage : {T : Type 0} → UniqueIdStorage T
new_storage = record { m = []; max_id = default_id }

-- An element that serializeImpl writes.
abbrev pub removed_uptr : Order → Codec (ℕ × StorageAddress)
removed_uptr order = pair (number 4) address order

module _ {T : Type 0} where
  -- registerInstance of the object t with the number id.
  unfoldable pub register_instance : ℕ → T → UniqueIdStorage T → Outcome (UniqueIdStorage T)
  register_instance id t u = elim (find id u.m) [
    | none ↦ ok (record u { m = (emplace id (null_address, some t) u.m).0 })
    | some (addr, none) ↦ ok (record u { m = assign id (addr, some t) u.m })
    | some (addr, some t_ptr) ↦ throw logic_error
  ]

  -- getInstance of the number id.
  unfoldable pub get_instance :
      (StorageAddress → ℕ → Outcome T) → ℕ → UniqueIdStorage T → Outcome (T × UniqueIdStorage T)
  get_instance load id u = elim (find id u.m) [
    | none ↦ throw logic_error
    | some (addr, some t) ↦ ok (t, u)
    | some (addr, none) ↦ do
      assert_on (is_null addr)
      t ← load addr id
      ok (t, record u { m = assign id (addr, some t) u.m })
  ]

  unfoldable pub register_instance_address :
      ℕ → StorageAddress → UniqueIdStorage T → Outcome (UniqueIdStorage T)
  register_instance_address id addr u = elim (find id u.m) [
    | none ↦ throw logic_error
    | some (old, t_ptr) ↦ ok (record u { m = assign id (addr, t_ptr) u.m })
  ]

  unfoldable pub delete_instance : ℕ → UniqueIdStorage T → UniqueIdStorage T
  delete_instance id u = record u { m = erase id u.m }

  unfoldable pub generate_id : UniqueIdStorage T → Outcome (ℕ × UniqueIdStorage T)
  generate_id u = do
    assert_on (u.max_id == max_uint32)
    ok (u.max_id + 1, record u { max_id = u.max_id + 1 })

  unfoldable pub remove_uptr : ℕ × (StorageAddress × Option T) → ℕ × StorageAddress
  remove_uptr (id, (addr, t_ptr)) = (id, addr)

  unfoldable pub size_from : Map (StorageAddress × Option T) → ℕ
  unfolding remove_uptr
  size_from [] = 0
  size_from (e ∷ m) = (removed_uptr left_to_right).size (remove_uptr e) + size_from m

  unfoldable pub get_size : UniqueIdStorage T → ℕ
  unfolding size_from
  get_size u = (number 4).size u.max_id + (number 8).size 0 + size_from u.m

  -- The loop of serializeImpl.
  unfoldable pub serialize_from : Map (StorageAddress × Option T) → Bytes → ℕ → Outcome (Bytes × ℕ)
  unfolding remove_uptr
  serialize_from [] buf off = ok (buf, off)
  serialize_from (e ∷ m) buf off = do
    first ← serialize_one (removed_uptr left_to_right) (remove_uptr e) buf off
    serialize_from m first.0 first.1

  unfoldable pub serialize : UniqueIdStorage T → Bytes → Outcome Bytes
  unfolding get_size serialize_from
  serialize u buf = do
    assert_on (ltb (length buf) (get_size u))
    one ← serialize_one (number 4) u.max_id buf 0
    two ← serialize_one (number 8) (length u.m) one.0 one.1
    all ← serialize_from u.m two.0 two.1
    ok all.0

  -- The loop of deserializeImpl.
  unfoldable pub deserialize_from :
      Order
      → ℕ
      → Bytes
      → Map (StorageAddress × Option T)
      → Outcome (Map (StorageAddress × Option T))
  deserialize_from order zero bytes m = ok m
  deserialize_from order (suc n) bytes m = do
    val ← deserialize_one (removed_uptr order) bytes
    deserialize_from order n val.1 (emplace val.0.0 (val.0.1, none) m).0

  unfoldable pub deserialize : Order → Bytes → Outcome (UniqueIdStorage T)
  unfolding deserialize_from
  deserialize left_to_right bytes = do
    one ← deserialize_one (number 4) bytes
    two ← deserialize_one (number 8) one.1
    m ← deserialize_from left_to_right two.0 two.1 []
    ok (record { m = m; max_id = one.0 })
  deserialize right_to_left bytes = do
    two ← deserialize_one (number 8) bytes
    one ← deserialize_one (number 4) two.1
    m ← deserialize_from right_to_left two.0 one.1 []
    ok (record { m = m; max_id = one.0 })

-- class UniqueIDPtr; the pointer is to an object of a known number.
pub record UniqueIdPtr (T : Type 0) : Type 0 where
  pub ptr : Option T
  pub uid : ℕ

module _ {T : Type 0} (get_unique_id : T → ℕ) where
  abbrev pub empty_ptr : UniqueIdPtr T
  empty_ptr = record { ptr = none; uid = default_id }

  -- UniqueIDPtr(T *ptr) and UniqueIDPtr(T &ptr)
  abbrev pub ptr_to : T → UniqueIdPtr T
  ptr_to t = record { ptr = some t; uid = get_unique_id t }

  -- UniqueIDPtr(UniqueIDInterface<IDName> &uid)
  abbrev pub ptr_of_id : ℕ → UniqueIdPtr T
  ptr_of_id id = record { ptr = none; uid = id }

  unfoldable pub is_init : UniqueIdPtr T → Bool
  is_init p = elim p.ptr [ none ↦ false | some t ↦ true ]

  unfoldable pub is_empty : UniqueIdPtr T → Bool
  unfolding is_init
  is_empty p = not (is_init p) && (p.uid == default_id)

  unfoldable pub get_id : UniqueIdPtr T → ℕ
  get_id p = elim p.ptr [ none ↦ p.uid | some t ↦ get_unique_id t ]

  -- init, whose dynamic_cast succeeds.
  unfoldable pub init :
      (StorageAddress → ℕ → Outcome T)
      → UniqueIdPtr T
      → UniqueIdStorage T
      → Outcome (UniqueIdPtr T × UniqueIdStorage T)
  unfolding is_init is_empty get_instance
  init load p u =
      if is_init p || is_empty p
      then ok (p, u)
      else (do got ← get_instance load p.uid u; ok (record p { ptr = some got.0 }, got.1))

  -- serializeImpl, of the object's number or of the pointer's own.
  unfoldable pub ptr_s : UniqueIdPtr T → Bytes → Outcome Bytes
  unfolding get_id
  ptr_s p buf = (number 4).s (get_id p) buf

  -- deserializeImpl without a storage.
  unfoldable pub ptr_d : Bytes → Outcome (UniqueIdPtr T)
  ptr_d bytes = do uid ← (number 4).d bytes; ok (ptr_of_id uid)
