-- ===== src/UniqueId/Persist.antt =====
-- serializeImpl and deserializeImpl of UniqueIDStorage, include/storage/UniqueID.hpp: what is kept is
-- the numbers and the addresses.
use direct_libstorage.Base.{
  ℕ, suc, ◌+◌, ◌^◌, ◌<◌, ◌≡◌, refl, sym, ap, subst, ◌∙◌, false, Option, none, List, [], ◌∷◌, ◌++◌,
  Outcome, ok, throw, Bool, ◌≤◌, ◌>>=◌, ltb, length, take, drop, arith, length-append, length-take,
  length-drop, take-append-drop, append_assoc, append-nil,
}
use direct_libstorage.Serialize.{
  Bytes, left_to_right, serialize_one, serialize_each, size_each, number,
}
use direct_libstorage.Serialize.Laws.{
  IsLawful, Both, serialize_one_lem, deserialize_one_lem, number-IsLawful, pair-IsLawful,
}
use direct_libstorage.Serialize.RangeLaws.{Each, each_enc, serialize_each_lem}
use direct_libstorage.Serialize.Containers.{address-IsLawful}
use direct_libstorage.StdMap.{Map, Ascends, emplace}
use direct_libstorage.StdMap.Split.{KeysBelow, emplace-middle}
use direct_libstorage.StorageUtils.Address.{StorageAddress}
use direct_libstorage.UniqueId.{
  UniqueIdStorage, removed_uptr, remove_uptr, get_size, size_from, serialize_from, serialize,
  deserialize_from, deserialize,
}

abbrev uptr-IsLawful :
    IsLawful (removed_uptr left_to_right) (Both (number-IsLawful 4) address-IsLawful)
uptr-IsLawful = pair-IsLawful (number-IsLawful 4) address-IsLawful

module _ {T : Type 0} where
  -- The elements that are written.
  abbrev removed : Map (StorageAddress × Option T) → List (ℕ × StorageAddress)
  removed [] = []
  removed ((id, (addr, t_ptr)) ∷ m) = (id, addr) ∷ removed m

  -- The map without the objects.
  abbrev pub unloaded : Map (StorageAddress × Option T) → Map (StorageAddress × Option T)
  unloaded [] = []
  unloaded ((id, (addr, t_ptr)) ∷ m) = (id, (addr, none)) ∷ unloaded m

  size_from-each :
      (m : Map (StorageAddress × Option T))
      → size_from m ≡ size_each (removed_uptr left_to_right) (removed m)
  unfolding size_from size_each remove_uptr
  size_from-each [] = refl
  size_from-each ((id, (addr, t_ptr)) ∷ m) =
      ap (λ n. (removed_uptr left_to_right).size (id, addr) + n) (size_from-each m)

  serialize_from-each :
      (m : Map (StorageAddress × Option T)) (buf : Bytes) (off : ℕ)
      → serialize_from m buf off ≡ serialize_each (removed_uptr left_to_right) (removed m) buf off
  unfolding serialize_from serialize_each remove_uptr
  serialize_from-each [] buf off = refl
  serialize_from-each ((id, (addr, t_ptr)) ∷ m) buf off =
      go (serialize_one (removed_uptr left_to_right) (id, addr) buf off) (serialize_from-each m)
    where
      go :
          (o : Outcome (Bytes × ℕ))
          → ((bytes : Bytes) (n : ℕ)
              → serialize_from m bytes n
                ≡ serialize_each (removed_uptr left_to_right) (removed m) bytes n)
          → (o >>= λ first. serialize_from m first.0 first.1) ≡ (
              o >>= λ first.
              serialize_each (removed_uptr left_to_right) (removed m) first.0 first.1)
      go (ok (bytes, n)) rest = rest bytes n
      go (throw x) rest = refl

  KeysBelow-snoc :
      (lo k : ℕ) (a : StorageAddress × Option T) (m : Map (StorageAddress × Option T))
      → KeysBelow lo m
      → lo ≤ k
      → KeysBelow k m × KeysBelow (suc k) (m ++ (k, a) ∷ [])
  KeysBelow-snoc lo k a [] h l = (tt, (omega arith, tt))
  KeysBelow-snoc lo k a ((j, b) ∷ m) h l =
      let (low, all) = KeysBelow-snoc lo k a m h.1 l in ((omega arith, low), (omega arith, all))

  -- The loop of deserializeImpl on the bytes of the elements, which come behind those in the map.
  deserialize_from_lem :
      (lo : ℕ) (front m : Map (StorageAddress × Option T)) (rest : Bytes)
      → Each uptr-IsLawful (removed m)
      → KeysBelow lo front
      → Ascends lo m
      → deserialize_from left_to_right (length m) (each_enc uptr-IsLawful (removed m) ++ rest) front
        ≡ ok (front ++ unloaded m)
  unfolding deserialize_from
  deserialize_from_lem lo front [] rest h k u = ap ok (sym (append-nil front))
  deserialize_from_lem lo front ((id, (addr, t_ptr)) ∷ m) rest h k u =
      let (low, all) = KeysBelow-snoc lo id (addr, none) front k u.0 in
      let grown : (emplace id (addr, none) front).0 ≡ front ++ (id, (addr, none)) ∷ [] =
        ap (λ (x : Map (StorageAddress × Option T)). (emplace id (addr, none) x).0)
          (sym (append-nil front))
        ∙ ap (λ (x : Map (StorageAddress × Option T) × Bool). x.0)
            (emplace-middle front id (addr, none) [] low tt) in
      rw
        (
          append_assoc (uptr-IsLawful.enc (id, addr)) (each_enc uptr-IsLawful (removed m)) rest,
          deserialize_one_lem uptr-IsLawful (id, addr) (each_enc uptr-IsLawful (removed m) ++ rest)
              h.0,
          grown,
          deserialize_from_lem (suc id) (front ++ (id, (addr, none)) ∷ []) m rest h.1 all u.1,
          append_assoc front ((id, (addr, none)) ∷ []) (unloaded m),
        )
        refl

  length-removed : (m : Map (StorageAddress × Option T)) → length (removed m) ≡ length m
  length-removed [] = refl
  length-removed ((id, (addr, t_ptr)) ∷ m) = ap suc (length-removed m)

  -- The numbers are in order and fit 32 bits, and the addresses and the count are words.
  pub record IsStored (u : UniqueIdStorage T) : Type 0 where
    pub entries : Each uptr-IsLawful (removed u.m)
    pub ordered : Ascends 0 u.m
    pub counted : length u.m < 2 ^ 64
    pub last : u.max_id < 2 ^ 32

  abbrev uid_enc : UniqueIdStorage T → Bytes
  uid_enc u =
      (number-IsLawful 4).enc u.max_id
      ++ ((number-IsLawful 8).enc (length u.m) ++ each_enc uptr-IsLawful (removed u.m))

  uid_d_enc :
      (u : UniqueIdStorage T) (rest : Bytes)
      → IsStored u
      → deserialize left_to_right (uid_enc u ++ rest) ≡ ok (record u { m = unloaded u.m })
  unfolding deserialize
  uid_d_enc u rest h =
      let id = (number-IsLawful 4).enc u.max_id in
      let count = (number-IsLawful 8).enc (length u.m) in
      let all = each_enc uptr-IsLawful (removed u.m) in
      rw
        (
          append_assoc id (count ++ all) rest,
          append_assoc count all rest,
          deserialize_one_lem (number-IsLawful 4) u.max_id (count ++ (all ++ rest)) h.last,
          deserialize_one_lem (number-IsLawful 8) (length u.m) (all ++ rest) h.counted,
          deserialize_from_lem 0 [] u.m rest h.entries tt h.ordered,
        )
        refl

  uid_writes :
      (u : UniqueIdStorage T) (x y z : Bytes)
      → IsStored u
      → length x ≡ 4
      → length y ≡ 8
      → length z ≡ size_each (removed_uptr left_to_right) (removed u.m)
      → serialize u (x ++ (y ++ z)) ≡ ok (uid_enc u)
  unfolding serialize get_size number
  uid_writes u x y z h hx hy hz =
      let id = (number-IsLawful 4).enc u.max_id in
      let count = (number-IsLawful 8).enc (length u.m) in
      let all = each_enc uptr-IsLawful (removed u.m) in
      let id_length : length id ≡ 4 = (number-IsLawful 4).length_enc u.max_id h.last in
      let count_length : length count ≡ 8 = (number-IsLawful 8).length_enc (length u.m) h.counted in
      let total : length (x ++ (y ++ z)) ≡ get_size u =
        omega (arith, length-append x (y ++ z), length-append y z, size_from-each u.m) in
      let fits : ltb (length (x ++ (y ++ z))) (get_size u) ≡ false = ground arith in
      let (end, run) =
        serialize_each_lem uptr-IsLawful (removed u.m) (id ++ count) z 12 h.entries
          (omega (arith, length-append id count)) hz in
      let shape : id ++ (count ++ z) ≡ (id ++ count) ++ z = sym (append_assoc id count z) in
      rw
        (
          fits,
          serialize_one_lem (number-IsLawful 4) u.max_id [] x (y ++ z) 0 h.last refl hx,
          serialize_one_lem (number-IsLawful 8) (length u.m) id y z 4 h.counted id_length hy,
          shape,
          serialize_from-each u.m ((id ++ count) ++ z) 12,
          run,
        )
        (ap ok (append_assoc id count all))

  -- For a storage whose numbers are in order and fit 32 bits, and whose addresses are words:
  -- serializeImpl to a buffer of the object's size succeeds, and deserializeImpl reads back from the
  -- bytes, whatever follows them, the last number and under every number its address, without the
  -- object, where the compiler evaluates the arguments of a call from the left to the right.
  pub uid_roundtrip :
      (u : UniqueIdStorage T) (buf rest : Bytes)
      → IsStored u
      → length buf ≡ get_size u
      → (bytes : Bytes) × (serialize u buf ≡ ok bytes)
        × (deserialize left_to_right (bytes ++ rest) ≡ ok (record u { m = unloaded u.m }))
  unfolding get_size number
  uid_roundtrip u buf rest h n =
      let x = take 4 buf in
      let y = take 8 (drop 4 buf) in
      let z = drop 8 (drop 4 buf) in
      let size : length buf ≡ 12 + size_each (removed_uptr left_to_right) (removed u.m) =
        omega (arith, n, size_from-each u.m) in
      let whole : x ++ (y ++ z) ≡ buf =
        ap (λ w. x ++ w) (take-append-drop 8 (drop 4 buf)) ∙ take-append-drop 4 buf in
      (
        uid_enc u,
        subst (λ w. serialize u w ≡ ok (uid_enc u)) whole
            (uid_writes u x y z h (length-take 4 buf (omega arith))
              (length-take 8 (drop 4 buf) (omega (arith, length-drop 4 buf)))
              (omega (arith, length-drop 8 (drop 4 buf), length-drop 4 buf))),
        uid_d_enc u rest h,
      )
