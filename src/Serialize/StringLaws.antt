-- ===== src/Serialize/StringLaws.antt =====
-- A string without zero characters is read back.
use direct_libstorage.Base.{
  ℕ, zero, suc, ◌+◌, ◌-◌, ◌≤◌, ◌<◌, ◌≡◌, refl, ap, false, [], ◌∷◌, ◌++◌, ok, ltb, ◌==◌, length,
  arith, length-append, append_assoc,
}
use direct_libstorage.Serialize.{Bytes, Codec}
use direct_libstorage.Serialize.Laws.{IsLawful}
use direct_libstorage.Serialize.Strings.{strncpy, strn, string_size, string_s, string_d}

-- No character is zero.
abbrev pub IsText : Bytes → Type 0
IsText [] = Unit
IsText (c ∷ str) = (0 < c) × IsText str

strncpy_lem : (str : Bytes) → IsText str → strncpy str (length str + 1) ≡ str ++ 0 ∷ []
unfolding strncpy
strncpy_lem [] h = refl
strncpy_lem (c ∷ str) h =
    let nonzero : (c == 0) ≡ false = ground (arith, h.0) in
    let next : length (c ∷ str) + 1 ≡ suc (length str + 1) = omega arith in
    rw (next, nonzero, strncpy_lem str h.1)

strn_lem : (str rest : Bytes) (n : ℕ) → IsText str → length str ≤ n → strn (str ++ 0 ∷ rest) n ≡ str
unfolding strn
strn_lem [] rest zero h l = refl
strn_lem [] rest (suc n) h l = refl
strn_lem (c ∷ str) rest zero h l = absurd (omega arith)
strn_lem (c ∷ str) rest (suc n) h l =
    let nonzero : (c == 0) ≡ false = ground (arith, h.0) in
    rw (nonzero, strn_lem str rest n h.1 (omega arith))

-- std::string
abbrev pub string : Codec Bytes
string = record { size = string_size; s = string_s; d = string_d }

pub string-IsLawful : IsLawful string IsText
unfolding string_s string_size string_d
string-IsLawful = record {
  enc = λ str. str ++ 0 ∷ [];
  length_enc = λ str h. length-append str (0 ∷ []);
  s_enc = λ str buf h n.
      let fits : ltb (length buf) (length str + 1) ≡ false = ground arith in
      rw (fits, n) (ap ok (strncpy_lem str h));
  d_enc = λ str rest h. rw (append_assoc str (0 ∷ []) rest) (
      ap ok (
        strn_lem str rest (length (str ++ 0 ∷ rest) - 1) h
          (omega (arith, length-append str (0 ∷ rest)))));
}

-- A string without zero characters is read back from the bytes that serializeImpl writes to a buffer of
-- its size, whatever follows them.
pub string_roundtrip :
    (str buf rest : Bytes)
    → IsText str
    → length buf ≡ string_size str
    → (bytes : Bytes) × (string_s str buf ≡ ok bytes) × (string_d (bytes ++ rest) ≡ ok str)
string_roundtrip str buf rest h n =
    (string-IsLawful.enc str, string-IsLawful.s_enc str buf h n, string-IsLawful.d_enc str rest h)
