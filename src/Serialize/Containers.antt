-- ===== src/Serialize/Containers.antt =====
-- Serialization of the containers and structs that the classes of the library store:
-- std::map and std::multimap through the range specialization of
-- include/storage/SerializeSpecialization.hpp, and StorageAddress as a trivially copyable struct.
use direct_libstorage.Base.{
  ℕ, suc, ◌^◌, ◌≤◌, ◌<◌, ◌≡◌, refl, sym, ap, ◌∙◌, false, [], ◌∷◌, ◌++◌, ok, ltb, length,
  append_assoc, append-nil, arith, ◌>>=◌,
}
use direct_libstorage.Serialize.{
  Bytes, Codec, Order, left_to_right, number, pair, range, member, member_s, member_d,
}
use direct_libstorage.Serialize.Laws.{
  IsLawful, serialize_last_lem, deserialize_one_lem, number-IsLawful, pair-IsLawful,
}
use direct_libstorage.Serialize.RangeLaws.{Each, put_all, range-IsLawful}
use direct_libstorage.StdMap.{Map, Ascends}
use direct_libstorage.StdMap
use direct_libstorage.StdMap.Split.{KeysBelow, emplace-middle}
use direct_libstorage.StorageHelpers.{MultiMap, insert}
use direct_libstorage.StorageHelpers.Order.{IsSorted}
use direct_libstorage.StorageUtils.Address.{StorageAddress}

module _ {T : Type 0} {c : Codec T} {P : T → Type 0} (law : IsLawful c P) where
  member_s_enc :
      (t : T) (buf : Bytes) → P t → length buf ≡ c.size t → member_s c t buf ≡ ok (law.enc t)
  unfolding member_s
  member_s_enc t buf p n =
      let fits : ltb (length buf) (c.size t) ≡ false = ground arith in
      rw (fits, serialize_last_lem law t [] buf 0 p refl n)

  member_d_enc : (t : T) (rest : Bytes) → P t → member_d c (law.enc t ++ rest) ≡ ok t
  unfolding member_d
  member_d_enc t rest p = rw (deserialize_one_lem law t rest p)

  pub member-IsLawful : IsLawful (member c) P
  member-IsLawful = record {
    enc = law.enc;
    length_enc = law.length_enc;
    s_enc = member_s_enc;
    d_enc = member_d_enc;
  }

-- A struct whose object representation is that of the fields, one after the other.
abbrev pub along : {T U : Type 0} → (T → U) → (U → T) → Codec U → Codec T
along f g c = record {
  size = λ t. c.size (f t);
  s = λ t. c.s (f t);
  d = λ bytes. c.d bytes >>= λ u. ok (g u);
}

module _ {T U : Type 0} (f : T → U) (g : U → T) (back : (t : T) → g (f t) ≡ t) {c : Codec U}
    {P : U → Type 0} (law : IsLawful c P) where
  pub along-IsLawful : IsLawful (along f g c) (λ t. P (f t))
  along-IsLawful = record {
    enc = λ t. law.enc (f t);
    length_enc = λ t. law.length_enc (f t);
    s_enc = λ t. law.s_enc (f t);
    d_enc = λ t rest p. rw (law.d_enc (f t) rest p) (ap ok (back t));
  }

-- struct StorageAddress { uint64_t addr; size_t size; }, which is read as one object.
abbrev pub address : Codec StorageAddress
address =
    along (λ a. (a.addr, a.size)) (λ p. record { addr = p.0; size = p.1 })
      (pair (number 8) (number 8) left_to_right)

abbrev pub WordAddress : StorageAddress → Type 0
WordAddress a = (a.addr < 2 ^ 64) × (a.size < 2 ^ 64)

pub address-IsLawful : IsLawful address WordAddress
address-IsLawful =
    along-IsLawful (λ a. (a.addr, a.size)) (λ p. record { addr = p.0; size = p.1 }) (λ a. refl)
      (pair-IsLawful (number-IsLawful 8) (number-IsLawful 8))

module _ {A : Type 0} where
  -- m.emplace(std::move(u)) of a std::map.
  abbrev pub map_put : ℕ × A → Map A → Map A
  map_put (k, a) m = (StdMap.emplace k a m).0

  -- data.emplace(std::move(u)) of a std::multimap.
  abbrev pub multimap_put : ℕ × A → MultiMap A → MultiMap A
  multimap_put (k, a) d = insert k a d

-- std::map<uint64_t, A> and std::multimap<size_t, A>.
module _ {A : Type 0} (c : Codec A) where
  abbrev pub map_codec : Order → Codec (Map A)
  map_codec order = range (pair (number 8) c order) map_put

  abbrev pub multimap_codec : Order → Codec (MultiMap A)
  multimap_codec order = range (pair (number 8) c order) multimap_put

module _ {A : Type 0} where
  KeysBelow-weaken : (lo hi : ℕ) (front : Map A) → lo ≤ hi → KeysBelow lo front → KeysBelow hi front
  KeysBelow-weaken lo hi [] l b = tt
  KeysBelow-weaken lo hi ((j, a) ∷ front) l b = (omega arith, KeysBelow-weaken lo hi front l b.1)

  KeysBelow-append :
      (hi : ℕ) (front : Map A) (k : ℕ) (a : A)
      → KeysBelow hi front
      → k < hi
      → KeysBelow hi (front ++ (k, a) ∷ [])
  KeysBelow-append hi [] k a b l = (l, tt)
  KeysBelow-append hi ((j, c) ∷ front) k a b l = (b.0, KeysBelow-append hi front k a b.1 l)

  insert_last :
      (front : MultiMap A) (k : ℕ) (a : A)
      → KeysBelow (suc k) front
      → insert k a front ≡ front ++ (k, a) ∷ []
  unfolding insert
  insert_last [] k a b = refl
  insert_last ((j, c) ∷ front) k a b = ground (arith, insert_last front k a b.1)

  emplace_last :
      (front : Map A) (k : ℕ) (a : A)
      → KeysBelow k front
      → map_put (k, a) front ≡ front ++ (k, a) ∷ []
  emplace_last front k a b =
      ap (λ z. (StdMap.emplace k a z).0) (sym (append-nil front))
      ∙ ap (λ r. r.0) (emplace-middle front k a [] b tt)

module _ {A : Type 0} {c : Codec A} {P : A → Type 0} (law : IsLawful c P) where
  map_rebuilds :
      (front us : Map A) (lo : ℕ)
      → KeysBelow lo front
      → Ascends lo us
      → put_all (pair-IsLawful (number-IsLawful 8) law) map_put us front ≡ front ++ us
  map_rebuilds front [] lo b h = sym (append-nil front)
  map_rebuilds front ((k, a) ∷ us) lo b h =
      let below = KeysBelow-weaken lo k front h.0 b in
      let more =
        KeysBelow-append (suc k) front k a (KeysBelow-weaken lo (suc k) front (omega arith) b)
          (omega arith) in
      ap (put_all (pair-IsLawful (number-IsLawful 8) law) map_put us) (emplace_last front k a below)
      ∙ (map_rebuilds (front ++ (k, a) ∷ []) us (suc k) more h.1
          ∙ append_assoc front ((k, a) ∷ []) us)

  multimap_rebuilds :
      (front us : MultiMap A) (lo : ℕ)
      → KeysBelow (suc lo) front
      → IsSorted lo us
      → put_all (pair-IsLawful (number-IsLawful 8) law) multimap_put us front ≡ front ++ us
  multimap_rebuilds front [] lo b h = sym (append-nil front)
  multimap_rebuilds front ((k, a) ∷ us) lo b h =
      let below = KeysBelow-weaken (suc lo) (suc k) front (omega arith) b in
      let more = KeysBelow-append (suc k) front k a below (omega arith) in
      ap (put_all (pair-IsLawful (number-IsLawful 8) law) multimap_put us)
        (insert_last front k a below)
      ∙ (multimap_rebuilds (front ++ (k, a) ∷ []) us k more h.1
          ∙ append_assoc front ((k, a) ∷ []) us)

  -- A map is read back when its keys ascend, it holds lawful values, and its keys and its size are
  -- words.
  abbrev pub IsStoredMap : Map A → Type 0
  IsStoredMap us =
      Each (pair-IsLawful (number-IsLawful 8) law) us × Ascends 0 us × (length us < 2 ^ 64)

  pub map-IsLawful : IsLawful (map_codec c left_to_right) IsStoredMap
  map-IsLawful =
      range-IsLawful (pair-IsLawful (number-IsLawful 8) law) map_put (Ascends 0)
        (λ us h. map_rebuilds [] us 0 tt h)

  abbrev pub IsStoredMultiMap : MultiMap A → Type 0
  IsStoredMultiMap us =
      Each (pair-IsLawful (number-IsLawful 8) law) us × IsSorted 0 us × (length us < 2 ^ 64)

  pub multimap-IsLawful : IsLawful (multimap_codec c left_to_right) IsStoredMultiMap
  multimap-IsLawful =
      range-IsLawful (pair-IsLawful (number-IsLawful 8) law) multimap_put (IsSorted 0)
        (λ us h. multimap_rebuilds [] us 0 tt h)
