-- ===== src/RandomMemoryAccess/Persist.antt =====
-- serializeImpl and deserializeImpl of FileRMA, include/storage/RandomMemoryAccess.hpp, and its move
-- constructor. What is kept of a FileRMA is MAX_FILESIZE_OFFSET, a template argument, and the file's name;
-- deserializeImpl opens the file again.
use direct_libstorage.Base.{
  ℕ, ◌+◌, ◌^◌, ◌<◌, ◌≡◌, refl, sym, ap, ◌∙◌, true, false, not, [], ◌++◌, Outcome, ok, ◌>>=◌, ◌>>◌,
  assert_on, ltb, ◌==◌, length, take, drop, arith, take-append-drop, length-take, length-drop,
  length-append, append_assoc, append-nil,
}
use direct_libstorage.Serialize.{Bytes, serialize_one, deserialize_one, number}
use direct_libstorage.Serialize.Laws.{serialize_one_lem, deserialize_one_lem, number-IsLawful}
use direct_libstorage.Serialize.Strings.{string_size, string_d}
use direct_libstorage.Serialize.StringLaws.{IsText, string, string-IsLawful}
use direct_libstorage.RandomMemoryAccess.System.{System}
use direct_libstorage.RandomMemoryAccess.FileRma.{FileRma, new_rma}

-- FileRMA(FileRMA &&other): the new object, and `other`.
unfoldable pub moved_rma : FileRma → FileRma × FileRma
moved_rma other = (other, record other { is_open = false })

module _ (max_filesize_offset : ℕ) where
  unfoldable pub rma_size : FileRma → ℕ
  rma_size r = (number 8).size max_filesize_offset + string_size r.filename

  unfoldable pub rma_s : FileRma → Bytes → Outcome Bytes
  unfolding rma_size
  rma_s r buf = do
    assert_on (ltb (length buf) (rma_size r))
    first ← serialize_one (number 8) max_filesize_offset buf 0
    second ← serialize_one string r.filename first.0 first.1
    ok second.0

  rma_writes :
      (r : FileRma) (x y : Bytes)
      → IsText r.filename
      → max_filesize_offset < 2 ^ 64
      → length x ≡ 8
      → length y ≡ string_size r.filename
      → rma_s r (x ++ (y ++ []))
        ≡ ok ((number-IsLawful 8).enc max_filesize_offset ++ string-IsLawful.enc r.filename)
  unfolding rma_size rma_s number
  rma_writes r x y h m hx hy =
      let id = (number-IsLawful 8).enc max_filesize_offset in
      let name = string-IsLawful.enc r.filename in
      let id_length : length id ≡ 8 = (number-IsLawful 8).length_enc max_filesize_offset m in
      let fits : ltb (length (x ++ (y ++ []))) (8 + string_size r.filename) ≡ false =
        ground (arith, length-append x (y ++ []), length-append y []) in
      rw
        (
          fits,
          serialize_one_lem (number-IsLawful 8) max_filesize_offset [] x (y ++ []) 0 m refl hx,
          serialize_one_lem string-IsLawful r.filename id y [] 8 h id_length hy,
        )
        (ap (λ z. ok (id ++ z)) (append-nil name))

  module _ {S : Type 0} (system : System S) where
    unfoldable pub rma_d : Bytes → S → Outcome (FileRma × S)
    rma_d bytes s = do
      first ← deserialize_one (number 8) bytes
      assert_on (not (first.0 == max_filesize_offset))
      filename ← string_d first.1
      ok (new_rma system filename s)

    -- For a file name without zero characters: serializeImpl to a buffer of the object's size succeeds,
    -- and deserializeImpl of the bytes, whatever follows them, is the constructor with the file's name.
    pub rma_roundtrip :
        (r : FileRma) (buf rest : Bytes) (s : S)
        → IsText r.filename
        → max_filesize_offset < 2 ^ 64
        → length buf ≡ rma_size r
        → (bytes : Bytes) × (rma_s r buf ≡ ok bytes)
          × (rma_d (bytes ++ rest) s ≡ ok (new_rma system r.filename s))
    unfolding rma_size rma_s rma_d number
    rma_roundtrip r buf rest s h m n =
        let id = (number-IsLawful 8).enc max_filesize_offset in
        let name = string-IsLawful.enc r.filename in
        let same : (max_filesize_offset == max_filesize_offset) ≡ true = ground arith in
        let parts : take 8 buf ++ (drop 8 buf ++ []) ≡ buf =
          ap (λ z. take 8 buf ++ z) (append-nil (drop 8 buf)) ∙ take-append-drop 8 buf in
        (
          id ++ name,
          ap (rma_s r) (sym parts)
              ∙ rma_writes r (take 8 buf) (drop 8 buf) h m (omega (arith, length-take 8 buf))
                  (omega (arith, length-drop 8 buf)),
          rw
              (
                append_assoc id name rest,
                deserialize_one_lem (number-IsLawful 8) max_filesize_offset (name ++ rest) m,
                same,
                string-IsLawful.d_enc r.filename rest h,
              )
              refl,
        )
