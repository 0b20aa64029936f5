-- ===== src/Examples/Catalog.antt =====
-- The theorems about strings and about include/storage/VirtualFileCatalog.hpp at concrete inputs.
use direct_libstorage.Base.{ℕ, ◌≡◌, refl, true, [], ◌∷◌, ◌++◌, ok, arith, ltb}
use direct_libstorage.Serialize.{Bytes}
use direct_libstorage.Serialize.Strings.{string_s, string_d, string_size}
use direct_libstorage.Serialize.StringLaws.{string_roundtrip}
use direct_libstorage.VirtualFileCatalog.{add_value, get_value, find_key}
use direct_libstorage.VirtualFileCatalog.Laws.{kept, get_value-add_value}

string_roundtrip_example :
    (bytes : Bytes) × (string_s (104 ∷ 105 ∷ []) (0 ∷ 0 ∷ 0 ∷ []) ≡ ok bytes)
    × (string_d (bytes ++ 9 ∷ []) ≡ ok (104 ∷ 105 ∷ []))
unfolding string_size
string_roundtrip_example =
    string_roundtrip (104 ∷ 105 ∷ []) (0 ∷ 0 ∷ 0 ∷ []) (9 ∷ []) (omega arith, (omega arith, tt))
      refl

get_value-add_value_example :
    get_value {A = ℕ} ltb 0 7 (add_value ltb 7 70 ((5, 50) ∷ [])).0
    ≡ (true, kept ltb (find_key ltb 7 ((5, 50) ∷ [])) 70)
get_value-add_value_example = get_value-add_value ltb 0 70 7 ((5, 50) ∷ []) refl
