-- ===== src/Serialize/RangeLaws.antt =====
-- A range of objects is read back as it was written: std::map and the like of
-- include/storage/SerializeSpecialization.hpp.
use direct_libstorage.Base.{
  ℕ, ◌+◌, ◌^◌, ◌<◌, ◌≡◌, refl, ap, subst, ◌∙◌, false, List, [], ◌∷◌, ◌++◌, ok, ltb, length, take,
  drop, length-append, length-take, length-drop, take-append-drop, append_assoc, arith,
}
use direct_libstorage.Serialize.{
  Bytes, Codec, serialize_each, deserialize_each, size_each, number, range, range_size, range_s,
  range_d,
}
use direct_libstorage.Serialize.Laws.{
  IsLawful, serialize_one_lem, deserialize_one_lem, number-IsLawful,
}

module _ {U : Type 0} {c : Codec U} {P : U → Type 0} (law : IsLawful c P) where
  abbrev pub Each : List U → Type 0
  Each [] = Unit
  Each (u ∷ us) = P u × Each us

  abbrev pub each_enc : List U → Bytes
  each_enc [] = []
  each_enc (u ∷ us) = law.enc u ++ each_enc us

  pub length-each_enc : (us : List U) → Each us → length (each_enc us) ≡ size_each c us
  unfolding size_each
  length-each_enc [] h = refl
  length-each_enc (u ∷ us) h =
      omega (
        arith,
        length-append (law.enc u) (each_enc us),
        law.length_enc u h.0,
        length-each_enc us h.1,
      )

  pub serialize_each_lem :
      (us : List U) (written room : Bytes) (off : ℕ)
      → Each us
      → length written ≡ off
      → length room ≡ size_each c us
      → (end : ℕ) × (serialize_each c us (written ++ room) off ≡ ok (written ++ each_enc us, end))
  unfolding serialize_each size_each
  serialize_each_lem [] written [] off h o n = (off, refl)
  serialize_each_lem [] written (x ∷ room) off h o n = absurd (omega arith)
  serialize_each_lem (u ∷ us) written room off h o n =
      let x = take (c.size u) room in
      let y = drop (c.size u) room in
      let (end, run) =
        serialize_each_lem us (written ++ law.enc u) y (off + c.size u) h.1
          (omega (arith, length-append written (law.enc u), law.length_enc u h.0))
          (omega (arith, length-drop (c.size u) room)) in
      (
        end,
        subst
            (λ z.
              serialize_each c (u ∷ us) (written ++ z) off
              ≡ ok (written ++ (law.enc u ++ each_enc us), end))
            (take-append-drop (c.size u) room)
            (rw
              (
                serialize_one_lem law u written x y off h.0 o
                    (length-take (c.size u) room (omega arith)),
                ← append_assoc written (law.enc u) y,
              )
              (run ∙ ap (λ z. ok (z, end)) (append_assoc written (law.enc u) (each_enc us)))),
      )

  -- The elements that the loop of getObj puts into the range, one after the other.
  abbrev pub put_all : (U → List U → List U) → List U → List U → List U
  put_all put [] r = r
  put_all put (u ∷ us) r = put_all put us (put u r)

  deserialize_each_lem :
      (put : U → List U → List U) (us r : List U) (rest : Bytes)
      → Each us
      → deserialize_each c put (length us) (each_enc us ++ rest) r ≡ ok (put_all put us r, rest)
  unfolding deserialize_each
  deserialize_each_lem put [] r rest h = refl
  deserialize_each_lem put (u ∷ us) r rest h = rw (
    append_assoc (law.enc u) (each_enc us) rest,
    deserialize_one_lem law u (each_enc us ++ rest) h.0,
    deserialize_each_lem put us (put u r) rest h.1,
  )

module _ {U : Type 0} {c : Codec U} {P : U → Type 0} (law : IsLawful c P)
    (put : U → List U → List U) (Q : List U → Type 0)
    (rebuilds : (us : List U) → Q us → put_all law put us [] ≡ us) where
  -- The elements are lawful, the range is one that the loop rebuilds, and its length is a word.
  abbrev pub IsRange : List U → Type 0
  IsRange us = Each law us × Q us × (length us < 2 ^ 64)

  abbrev range_enc : List U → Bytes
  range_enc us = (number-IsLawful 8).enc (length us) ++ each_enc law us

  range_length : (us : List U) → IsRange us → length (range_enc us) ≡ range_size c put us
  unfolding range_size
  range_length us h = omega (
    arith,
    length-append ((number-IsLawful 8).enc (length us)) (each_enc law us),
    (number-IsLawful 8).length_enc (length us) h.2,
    length-each_enc law us h.0,
  )

  range_writes :
      (us : List U) (x y : Bytes)
      → IsRange us
      → length x ≡ (number 8).size (length us)
      → length y ≡ size_each c us
      → range_s c put us (x ++ y) ≡ ok (range_enc us)
  unfolding range_s range_size
  range_writes us x y h hx hy =
      let count = (number-IsLawful 8).enc (length us) in
      let fits : ltb (length (x ++ y)) ((number 8).size (length us) + size_each c us) ≡ false =
        ground (arith, length-append x y) in
      let (end, run) =
        serialize_each_lem law us count y (0 + (number 8).size (length us)) h.0
          (omega (arith, (number-IsLawful 8).length_enc (length us) h.2)) hy in
      rw (fits, serialize_one_lem (number-IsLawful 8) (length us) [] x y 0 h.2 refl hx, run)

  range_s_enc :
      (us : List U) (buf : Bytes)
      → IsRange us
      → length buf ≡ range_size c put us
      → range_s c put us buf ≡ ok (range_enc us)
  unfolding range_size
  range_s_enc us buf h n =
      let k = (number 8).size (length us) in
      subst (λ z. range_s c put us z ≡ ok (range_enc us)) (take-append-drop k buf)
        (range_writes us (take k buf) (drop k buf) h (length-take k buf (omega arith))
          (omega (arith, length-drop k buf)))

  range_d_enc :
      (us : List U) (rest : Bytes) → IsRange us → range_d c put (range_enc us ++ rest) ≡ ok us
  unfolding range_d
  range_d_enc us rest h = rw (
    append_assoc ((number-IsLawful 8).enc (length us)) (each_enc law us) rest,
    deserialize_one_lem (number-IsLawful 8) (length us) (each_enc law us ++ rest) h.2,
    deserialize_each_lem law put us [] rest h.0,
    rebuilds us h.1,
  )

  -- A range is lawful if its elements are and the loop of getObj rebuilds it from them.
  pub range-IsLawful : IsLawful (range c put) IsRange
  range-IsLawful = record {
    enc = range_enc;
    length_enc = range_length;
    s_enc = range_s_enc;
    d_enc = range_d_enc;
  }
