-- ===== src/VirtualFileCatalog/Laws.antt =====
-- What the map of keys gives after add.
use direct_libstorage.Base.{
  ◌≡◌, Bool, true, false, Bool-cases, inl, inr, Option, none, some, List, [], ◌∷◌,
}
use direct_libstorage.VirtualFileCatalog.{emplace_key, find_key, add_value, get_value}

module _ {K A : Type 0} (less : K → K → Bool) where
  -- The value that was there before, or else the new one.
  abbrev pub kept : Option A → A → A
  kept none value = value
  kept (some old) value = old

  find_key-emplace_key :
      (k : K) (value : A) (m : List (K × A))
      → less k k ≡ false
      → find_key less k (emplace_key less (k, value) m) ≡ some (kept (find_key less k m) value)
  unfolding find_key emplace_key
  find_key-emplace_key k value [] h = rw h
  find_key-emplace_key k value ((j, a) ∷ m) h =
      let rest = find_key-emplace_key k value m h in
      elim (Bool-cases (less k j)) [
        | inl p ↦ rw (p, h)
        | inr p ↦ elim (Bool-cases (less j k)) [
          | inl q ↦ rw (p, q, p, q, rest)
          | inr q ↦ rw (p, q, p, q)
        ]
      ]

  -- If the key is not less than itself, get after add answers the value that the key had before,
  -- if it had one, and the new one otherwise.
  pub get_value-add_value :
      (default value : A) (k : K) (m : List (K × A))
      → less k k ≡ false
      → get_value less default k (add_value less k value m).0
        ≡ (true, kept (find_key less k m) value)
  unfolding get_value add_value
  get_value-add_value default value k m h = rw (get_value, find_key-emplace_key k value m h)
