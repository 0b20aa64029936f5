-- ===== src/UniqueId/Laws.antt =====
-- What the operations of a UniqueIDStorage do to the objects that it knows.
use direct_libstorage.Base.{
  ℕ, zero, suc, ◌+◌, ◌≤◌, ◌≡◌, refl, ap, ◌∙◌, false, none, some, List, [], ◌∷◌, Outcome, ok, ◌>>=◌,
  ◌==◌, if◌then◌else◌, arith,
}
use direct_libstorage.StdMap.{find, assign, emplace}
use direct_libstorage.StdMap.Lookup.{find-emplace, find-assign}
use direct_libstorage.StorageUtils.Address.{StorageAddress, null_address, is_null}
use direct_libstorage.UniqueId.{
  UniqueIdStorage, register_instance, get_instance, generate_id, max_uint32,
}

-- The numbers from i on.
abbrev numbers : ℕ → ℕ → List ℕ
numbers i zero = []
numbers i (suc n) = i ∷ numbers (suc i) n

at_itself : {A : Type 0} (id : ℕ) (x y : A) → (if id == id then x else y) ≡ x
at_itself id x y = ground arith

module _ {T : Type 0} where
  -- What the storage may hold under a number when an object is registered: nothing, or an address
  -- without an object.
  pub data IsFree (id : ℕ) (u : UniqueIdStorage T) : StorageAddress → Type 0 where
    unknown : find id u.m ≡ none → IsFree id u null_address
    unloaded : (addr : StorageAddress) → find id u.m ≡ some (addr, none) → IsFree id u addr

  get_found :
      (load : StorageAddress → ℕ → Outcome T) (id : ℕ) (addr : StorageAddress) (t : T)
      (u : UniqueIdStorage T)
      → find id u.m ≡ some (addr, some t)
      → get_instance load id u ≡ ok (t, u)
  unfolding get_instance
  get_found load id addr t u h = rw (get_instance, h)

  -- Registering an object under a number with no object succeeds: getInstance gives the object,
  -- whatever a load would give, the number keeps its address, and nothing else changes.
  pub register_get :
      (load : StorageAddress → ℕ → Outcome T) (id : ℕ) (t : T) (addr : StorageAddress)
      (u : UniqueIdStorage T)
      → IsFree id u addr
      → (u' : UniqueIdStorage T) × (register_instance id t u ≡ ok u')
        × (get_instance load id u' ≡ ok (t, u'))
        × ((j : ℕ) → find j u'.m ≡ (if j == id then some (addr, some t) else find j u.m))
        × (u'.max_id ≡ u.max_id)
  unfolding register_instance
  register_get load id t addr u (unknown h) =
      let u' = record u { m = (emplace id (null_address, some t) u.m).0 } in
      let found = λ (j : ℕ). find-emplace j id (null_address, some t) u.m h in
      (
        u',
        rw (register_instance, h),
        get_found load id null_address t u' (found id ∙ at_itself id _ _),
        found,
        refl,
      )
  register_get load id t addr u (unloaded a h) =
      let u' = record u { m = assign id (a, some t) u.m } in
      let found = λ (j : ℕ). find-assign j id (a, some t) (a, none) u.m h in
      (
        u',
        rw (register_instance, h),
        get_found load id a t u' (found id ∙ at_itself id _ _),
        found,
        refl,
      )

  -- For a number with an address and no object, getInstance gives what the load from the address
  -- gives, and a second call gives it again, whatever a load would give then.
  get_once :
      (load again : StorageAddress → ℕ → Outcome T) (id : ℕ) (addr : StorageAddress) (t : T)
      (u : UniqueIdStorage T)
      → find id u.m ≡ some (addr, none)
      → is_null addr ≡ false
      → load addr id ≡ ok t
      → (u' : UniqueIdStorage T) × (get_instance load id u ≡ ok (t, u'))
        × (get_instance again id u' ≡ ok (t, u'))
  unfolding get_instance
  get_once load again id addr t u h known loaded =
      let u' = record u { m = assign id (addr, some t) u.m } in
      let found = find-assign id id (addr, some t) (addr, none) u.m h in
      (
        u',
        rw (get_instance, h, known, loaded),
        get_found again id addr t u' (found ∙ at_itself id _ _),
      )

  -- n calls of generateID.
  abbrev generate_ids : ℕ → UniqueIdStorage T → Outcome (List ℕ × UniqueIdStorage T)
  generate_ids zero u = ok ([], u)
  generate_ids (suc n) u = do
    one ← generate_id u
    rest ← generate_ids n one.1
    ok (one.0 ∷ rest.0, rest.1)

  -- As long as 32 bits hold them, n calls of generateID give the n numbers that follow max_id.
  generate_ids_lem :
      (n : ℕ) (u : UniqueIdStorage T)
      → u.max_id + n ≤ max_uint32
      → generate_ids n u ≡ ok (numbers (suc u.max_id) n, record u { max_id = u.max_id + n })
  unfolding generate_id
  generate_ids_lem zero u h = ap (λ z. ok ([], record u { max_id = z })) (omega arith)
  generate_ids_lem (suc n) u h =
      let below : (u.max_id == max_uint32) ≡ false = ground arith in
      let rest = generate_ids_lem n (record u { max_id = u.max_id + 1 }) (omega arith) in
      rw (below, rest)
        (ap (λ z. ok (z ∷ numbers (suc z) n, record u { max_id = u.max_id + 1 + n })) (omega arith)
          ∙ ap (λ z. ok (suc u.max_id ∷ numbers (suc (suc u.max_id)) n, record u { max_id = z }))
              (omega arith))
