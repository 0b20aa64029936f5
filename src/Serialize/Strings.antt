-- ===== src/Serialize/Strings.antt =====
-- std::string and std::vector<bool> of include/storage/SerializeSpecialization.hpp. A string is the list
-- of its characters; strncpy and strnlen are those of the C library, written out.
use direct_libstorage.Base.{
  ℕ, zero, suc, ◌+◌, ◌-◌, ◌*◌, ◌/◌, ◌%◌, Bool, List, [], ◌∷◌, ◌++◌, Outcome, ok, ◌>>=◌, ◌>>◌,
  assert_on, ltb, ◌==◌, if◌then◌else◌, length, take, drop, replicate,
}
use direct_libstorage.Serialize.{Bytes, Codec, serialize_one, deserialize_one, number}

-- The bytes that strncpy(s, str, n) writes: the characters before the first zero, and zeros.
unfoldable pub strncpy : Bytes → ℕ → Bytes
strncpy str zero = []
strncpy [] (suc n) = 0 ∷ strncpy [] n
strncpy (c ∷ str) (suc n) = if c == 0 then replicate (suc n) 0 else c ∷ strncpy str n

-- The characters before the first zero, at most n: those that strnlen counts.
unfoldable pub strn : Bytes → ℕ → Bytes
strn s zero = []
strn [] (suc n) = []
strn (c ∷ s) (suc n) = let rest = strn s n in if c == 0 then [] else c ∷ rest

unfoldable pub string_size : Bytes → ℕ
string_size str = length str + 1

unfoldable pub string_s : Bytes → Bytes → Outcome Bytes
unfolding string_size strncpy
string_s str buf = do assert_on (ltb (length buf) (string_size str)); ok (strncpy str (length buf))

-- The view has a byte at least.
unfoldable pub string_d : Bytes → Outcome Bytes
unfolding strn
string_d bytes = ok (strn bytes (length bytes - 1))

-- size rounded up to a multiple of 64.
unfoldable pub stored_bits : ℕ → ℕ
stored_bits size = if size % 64 == 0 then size else size + 64 - size % 64

unfoldable pub bits_size : List Bool → ℕ
bits_size obj =
    (number 8).size 0
    + (number 8).size 0 * (length obj / 64 + (if length obj % 64 == 0 then 0 else 1))

-- The word that the loop over j makes of the first bits.
unfoldable pub word_of : List Bool → ℕ
word_of [] = 0
word_of (b ∷ bs) = (if b then 1 else 0) + 2 * word_of bs

-- The n lowest bits of a word.
unfoldable pub bits_of : ℕ → ℕ → List Bool
bits_of zero chunk = []
bits_of (suc n) chunk = (chunk % 2 == 1) ∷ bits_of n (chunk / 2)

-- The loop over the words in serializeImpl; `rounds` is their number.
unfoldable pub words_from : ℕ → List Bool → Bytes → ℕ → Outcome (Bytes × ℕ)
unfolding word_of
words_from zero obj buf off = ok (buf, off)
words_from (suc rounds) obj buf off = do
  one ← serialize_one (number 8) (word_of (take 64 obj)) buf off
  words_from rounds (drop 64 obj) one.0 one.1

unfoldable pub bits_s : List Bool → Bytes → Outcome Bytes
unfolding bits_size stored_bits words_from
bits_s obj buf = do
  assert_on (ltb (length buf) (bits_size obj))
  count ← serialize_one (number 8) (stored_bits (length obj)) buf 0
  all ← words_from (stored_bits (length obj) / 64) obj count.0 count.1
  ok all.0

-- The loop over the words in getObj, of a size that is a multiple of 64.
unfoldable pub bits_from : ℕ → Bytes → Outcome (List Bool)
unfolding bits_of
bits_from zero bytes = ok []
bits_from (suc rounds) bytes = do
  chunk ← deserialize_one (number 8) bytes
  rest ← bits_from rounds chunk.1
  ok (bits_of 64 chunk.0 ++ rest)

unfoldable pub bits_d : Bytes → Outcome (List Bool)
unfolding bits_from
bits_d bytes = do size ← deserialize_one (number 8) bytes; bits_from (size.0 / 64) size.1

-- std::vector<bool>
abbrev pub bits : Codec (List Bool)
bits = record { size = bits_size; s = bits_s; d = bits_d }
