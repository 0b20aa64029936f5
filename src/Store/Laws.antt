-- ===== src/Store/Laws.antt =====
-- What a storage has to do for objects to be read back from it.
use direct_libstorage.Base.{
  ℕ, ◌≤◌, ◌<◌, ◌≡◌, sym, ◌∙◌, true, false, Outcome, ok, ltb, ◌==◌, length, [], append-nil, subst,
  arith, dec_lt,
}
use direct_libstorage.Serialize.{Bytes, Codec}
use direct_libstorage.Serialize.Laws.{IsLawful}
use direct_libstorage.StorageUtils.Address.{StorageAddress}
use direct_libstorage.Store.{StorageOps, place_for, serialize, deserialize}

-- `Live` are the addresses that are reserved in a state, `Room` the sizes for which there is a new
-- address; what the operations do with them.
pub record IsStorage {S : Type 0} (ops : StorageOps S) (Live : StorageAddress → S → Type 0)
    (Room : ℕ → S → Type 0) : Type 0 where
  pub new :
      (n : ℕ) (s : S)
      → 0 < n
      → Room n s
      → (a : StorageAddress) × (s' : S) × (ops.get_random_address n s ≡ ok (a, s'))
        × (a.size ≡ n)
        × Live a s'
  pub erased :
      (a : StorageAddress) (n : ℕ) (s : S)
      → Live a s
      → Room n s
      → (s' : S) × (ops.erase a s ≡ ok s') × Room n s'
  pub filled :
      (a : StorageAddress) (f : Bytes → Outcome Bytes) (bytes : Bytes) (s : S)
      → Live a s
      → length bytes ≡ a.size
      → ((old : Bytes) → length old ≡ a.size → f old ≡ ok bytes)
      → (s' s'' : S) × (ops.fill a f s ≡ ok s') × (ops.readb a s' ≡ ok (bytes, s''))

module _ {S : Type 0} {ops : StorageOps S} {Live : StorageAddress → S → Type 0}
    {Room : ℕ → S → Type 0} (storage : IsStorage ops Live Room) {T : Type 0} {c : Codec T}
    {P : T → Type 0} (law : IsLawful c P) where
  place_for_lem :
      (t : T) (a : StorageAddress) (s : S)
      → 0 < c.size t
      → a.size ≤ c.size t
      → (0 < a.size → Live a s)
      → Room (c.size t) s
      → (b : StorageAddress) × (s' : S) × (place_for ops c t a s ≡ ok (b, s'))
        × (b.size ≡ c.size t)
        × Live b s'
  unfolding place_for
  place_for_lem t a s pos le live room = elim (dec_lt a.size (c.size t)) [
    | no n ↦
        let fits : ltb a.size (c.size t) ≡ false = ground arith in
        (a, s, rw fits, omega arith, live (omega arith))
    | yes l ↦
        let small : ltb a.size (c.size t) ≡ true = ground arith in
        elim (dec_lt 0 a.size) [
          | no z ↦
              let fresh : (a.size == 0) ≡ true = ground arith in
              let (b, s1, got, exact, alive) = storage.new (c.size t) s pos room in
              (b, s1, rw (small, fresh, got), exact, alive)
          | yes u ↦
              let used : (a.size == 0) ≡ false = ground arith in
              let (s0, gone, room0) = storage.erased a (c.size t) s (live u) room in
              let (b, s1, got, exact, alive) = storage.new (c.size t) s0 pos room0 in
              (b, s1, rw (small, used, gone, got), exact, alive)
        ]
  ]

  -- In a storage that keeps what is filled in and has room for the object, an object that is not
  -- empty is written, to an address that is not larger than it and is live if it is not empty; it is
  -- read back from the address that the call returns.
  pub serialize-deserialize :
      (t : T) (a : StorageAddress) (s : S)
      → P t
      → 0 < c.size t
      → a.size ≤ c.size t
      → (0 < a.size → Live a s)
      → Room (c.size t) s
      → (b : StorageAddress) × (s' s'' : S) × (serialize ops c t a s ≡ ok (b, s'))
        × (deserialize ops c b s' ≡ ok (t, s''))
  unfolding serialize deserialize
  serialize-deserialize t a s p pos le live room =
      let (b, s1, placed, exact, alive) = place_for_lem t a s pos le live room in
      let (s2, s3, wrote, read) =
        storage.filled b (c.s t) (law.enc t) s1 alive (law.length_enc t p ∙ sym exact)
          (λ old n. law.s_enc t old p (n ∙ exact)) in
      let back : c.d (law.enc t) ≡ ok t =
        subst (λ z. c.d z ≡ ok t) (append-nil (law.enc t)) (law.d_enc t [] p) in
      (b, s2, s3, rw (placed, wrote), rw (read, back))
