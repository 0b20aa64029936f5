-- ===== src/DataStorage/Laws.antt =====
-- Tagged objects and stored objects are read back.
use direct_libstorage.Base.{
  ℕ, ◌≤◌, ◌<◌, ◌≡◌, ◌≢◌, refl, ◌∙◌, true, false, Outcome, ok, throw, if◌then◌else◌, length, ◌++◌,
  [], take, drop, subst, append_assoc, arith, ◌>>=◌, take-append-drop, length-append, length-take,
  length-drop, ◌^◌, invalid_argument,
}
use direct_libstorage.Serialize.{Bytes, Codec, number, deserialize_one}
use direct_libstorage.Serialize.Laws.{
  IsLawful, number-IsLawful, serialize_one_lem, serialize_last_lem, deserialize_one_lem,
}
use direct_libstorage.StorageUtils.Address.{StorageAddress}
use direct_libstorage.Store.{StorageOps}
use direct_libstorage.Store.Laws.{IsStorage, serialize-deserialize}
use direct_libstorage.DataStorage.{
  verify, typed_object, typed_s, typed_d, typed_size, StoredObject, open_object, get_with, sync,
}

module _ {T : Type 0} (magic : ℕ) (make : Outcome T) {c : Codec T} {P : T → Type 0}
    (law : IsLawful c P) where
  abbrev typed_enc : T → Bytes
  typed_enc t = (number-IsLawful 4).enc magic ++ law.enc t

  typed_length : (t : T) → P t → magic < 2 ^ 32 → length (typed_enc t) ≡ typed_size magic make c t
  unfolding typed_size number
  typed_length t p m = omega (
    arith,
    length-append ((number-IsLawful 4).enc magic) (law.enc t),
    law.length_enc t p,
    (number-IsLawful 4).length_enc magic m,
  )

  typed_writes :
      (t : T) (x y : Bytes)
      → P t
      → magic < 2 ^ 32
      → length x ≡ 4
      → length y ≡ c.size t
      → typed_s magic make c t (x ++ y) ≡ ok (typed_enc t)
  unfolding typed_s number
  typed_writes t x y p m hx hy = rw (
    serialize_one_lem (number-IsLawful 4) magic [] x y 0 m refl hx,
    serialize_last_lem law t ((number-IsLawful 4).enc magic) y 4 p
        ((number-IsLawful 4).length_enc magic m) hy,
  )

  typed_s_enc :
      (t : T) (buf : Bytes)
      → P t
      → magic < 2 ^ 32
      → length buf ≡ typed_size magic make c t
      → typed_s magic make c t buf ≡ ok (typed_enc t)
  unfolding typed_size number
  typed_s_enc t buf p m n =
      subst (λ z. typed_s magic make c t z ≡ ok (typed_enc t)) (take-append-drop 4 buf)
        (typed_writes t (take 4 buf) (drop 4 buf) p m (length-take 4 buf (omega arith))
          (omega (arith, length-drop 4 buf)))

  -- The tag is read first.
  typed_d_enc :
      (own : ℕ) (other : Outcome T) (d : Codec T) (t : T) (rest : Bytes)
      → magic < 2 ^ 32
      → typed_d own other d (typed_enc t ++ rest) ≡ (
          if verify own magic
          then (deserialize_one d (law.enc t ++ rest) >>= λ body. ok body.0)
          else other)
  unfolding typed_d
  typed_d_enc own other d t rest m = rw (
    append_assoc ((number-IsLawful 4).enc magic) (law.enc t) rest,
    deserialize_one_lem (number-IsLawful 4) magic (law.enc t ++ rest) m,
  )

  -- An object of a lawful type under a tag of 32 bits: serializeImpl to a buffer of its size
  -- succeeds, and deserializeImpl for the same tag reads the object back, whatever follows the
  -- bytes.
  pub typed_roundtrip :
      (t : T) (buf rest : Bytes)
      → P t
      → magic < 2 ^ 32
      → length buf ≡ typed_size magic make c t
      → (bytes : Bytes) × (typed_s magic make c t buf ≡ ok bytes)
        × (typed_d magic make c (bytes ++ rest) ≡ ok t)
  unfolding verify
  typed_roundtrip t buf rest p m n =
      let own : verify magic magic ≡ true = ground arith in
      (
        typed_enc t,
        typed_s_enc t buf p m n,
        typed_d_enc magic make c t rest m ∙ rw (own, deserialize_one_lem law t rest p),
      )

-- An object is written under a tag of 32 bits to a buffer of its size. deserializeImpl for a tag
-- that differs gives the object that is made from the arguments.
typed_other :
    {T : Type 0} (magic other : ℕ) (make : Outcome T) (c d : Codec T) (P : T → Type 0)
    (law : IsLawful d P) (t : T) (buf rest : Bytes)
    → P t
    → other < 2 ^ 32
    → other ≢ magic
    → length buf ≡ typed_size other make d t
    → (bytes : Bytes) × (typed_s other make d t buf ≡ ok bytes)
      × (typed_d magic make c (bytes ++ rest) ≡ make)
unfolding verify
typed_other magic other make c d P law t buf rest p o ne n =
    let foreign : verify magic other ≡ false = ground arith in
    (
      typed_enc other make law t,
      typed_s_enc other make law t buf p o n,
      typed_d_enc other make law magic make c t rest o ∙ rw foreign,
    )

-- The constructor that takes a tag throws for the type's own tag, and takes an object with a tag
-- that differs.
typed_object_inverted :
    {T : Type 0} (magic other : ℕ) (t : T)
    → other ≢ magic
    → (typed_object magic t magic ≡ throw invalid_argument) × (typed_object magic t other ≡ ok t)
unfolding typed_object verify
typed_object_inverted magic other t ne = (ground arith, ground arith)

-- In a storage that keeps what is filled in and has room for the object, a stored object is changed
-- to one that is not smaller than its address, and synchronized. It is then what opening its address gives, and is
-- not marked as modified.
pub sync_lem :
    {S : Type 0} (ops : StorageOps S) (Live : StorageAddress → S → Type 0) (Room : ℕ → S → Type 0)
    (storage : IsStorage ops Live Room) {T : Type 0} (c : Codec T) (P : T → Type 0)
    (law : IsLawful c P) (f : T → T) (so : StoredObject T) (s : S)
    → P (f so.object)
    → 0 < c.size (f so.object)
    → so.address.size ≤ c.size (f so.object)
    → (0 < so.address.size → Live so.address s)
    → Room (c.size (f so.object)) s
    → (after : StoredObject T) × (s' s'' : S) × (sync ops c (get_with ops c f so) s
        ≡ ok (after, s'))
      × (after.modified ≡ false)
      × (after.object ≡ f so.object)
      × (open_object ops c after.address s' ≡ ok (after, s''))
unfolding sync get_with open_object
sync_lem ops Live Room storage c P law f so s p pos le live room =
    let (b, s1, s2, wrote, read) =
      serialize-deserialize storage law (f so.object) so.address s p pos le live room in
    (
      record { address = b; modified = false; object = f so.object },
      s1,
      s2,
      rw wrote,
      refl,
      refl,
      rw read,
    )
