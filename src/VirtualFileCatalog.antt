-- ===== src/VirtualFileCatalog.antt =====
-- include/storage/VirtualFileCatalog.hpp: a std::map from tuples of keys to values, and the catalog
-- around it. The tuple of the keys is one key K; `less` is its operator<, which the standard library
-- makes from those of the keys. `default` is Value{}.
pub mod Laws
use direct_libstorage.Base.{
  ℕ, zero, suc, ◌+◌, Bool, true, false, Option, none, some, List, [], ◌∷◌, Outcome, ok, ◌>>=◌,
  Result, success, if◌then◌else◌, length,
}
use direct_libstorage.Serialize.{
  Bytes, Codec, serialize_one, deserialize_one, serialize_each, deserialize_each, size_each, number,
  pair, Order,
}

module _ {K A : Type 0} (less : K → K → Bool) where
  -- m.emplace: a key that is there is left as it is.
  unfoldable pub emplace_key : K × A → List (K × A) → List (K × A)
  emplace_key e [] = e ∷ []
  emplace_key e (f ∷ m) =
      let rest = emplace_key e m in
      if less e.0 f.0 then e ∷ f ∷ m else if less f.0 e.0 then f ∷ rest else f ∷ m

  -- m.find
  unfoldable pub find_key : K → List (K × A) → Option A
  find_key k [] = none
  find_key k (f ∷ m) = if less k f.0 then none else if less f.0 k then find_key k m else some f.1

  -- m.erase
  unfoldable pub erase_key : K → List (K × A) → List (K × A)
  erase_key k [] = []
  erase_key k (f ∷ m) =
      let rest = erase_key k m in if less k f.0 then f ∷ m else if less f.0 k then f ∷ rest else m

  -- SimpleMultiLevelKeyMap::add
  unfoldable pub add_value : K → A → List (K × A) → List (K × A) × Result
  unfolding emplace_key
  add_value keys value m = (emplace_key (keys, value) m, success)

  -- SimpleMultiLevelKeyMap::get
  unfoldable pub get_value : A → K → List (K × A) → Bool × A
  unfolding find_key
  get_value default keys m = elim (find_key keys m) [
    | none ↦ (false, default)
    | some value ↦ (true, value)
  ]

  -- SimpleMultiLevelKeyMap::del
  unfoldable pub del_value : K → List (K × A) → List (K × A)
  unfolding erase_key
  del_value keys m = erase_key keys m

  -- VirtualFileCatalogImpl::has
  unfoldable pub has_value : K → List (K × A) → Bool
  has_value keys m = false

  module _ (ck : Codec K) (ca : Codec A) (order : Order) where
    -- SimpleMultiLevelKeyMap::getSizeImpl
    unfoldable pub key_map_size : List (K × A) → ℕ
    key_map_size m = (number 8).size (length m) + size_each (pair ck ca order) m

    -- SimpleMultiLevelKeyMap::serializeImpl, which leaves the check of the buffer to each element.
    unfoldable pub key_map_s : List (K × A) → Bytes → Outcome Bytes
    key_map_s m buf = do
      num ← serialize_one (number 8) (length m) buf 0
      all ← serialize_each (pair ck ca order) m num.0 num.1
      ok all.0

    -- SimpleMultiLevelKeyMap::deserializeImpl
    unfoldable pub key_map_d : Bytes → Outcome (List (K × A))
    unfolding emplace_key
    key_map_d bytes = do
      num ← deserialize_one (number 8) bytes
      all ← deserialize_each (pair ck ca order) emplace_key num.0 num.1 []
      ok all.0

    abbrev pub key_map : Codec (List (K × A))
    key_map = record { size = key_map_size; s = key_map_s; d = key_map_d }

    -- VirtualFileCatalogImpl; `name_size` is the size of the type's name, which getSizeImpl adds.
    unfoldable pub catalog_size : ℕ → List (K × A) → ℕ
    unfolding key_map_size
    catalog_size name_size m = key_map_size m + name_size

    unfoldable pub catalog_s : List (K × A) → Bytes → Outcome Bytes
    catalog_s m buf = do one ← serialize_one key_map m buf 0; ok one.0

    unfoldable pub catalog_d : Bytes → Outcome (List (K × A))
    catalog_d bytes = do one ← deserialize_one key_map bytes; ok one.0
