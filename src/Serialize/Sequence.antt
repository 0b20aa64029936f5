-- ===== src/Serialize/Sequence.antt =====
-- Four members that are written one after the other, as SerializeSequentially of
-- include/storage/SerializeImpl.hpp writes its arguments, and read back by DeserializeSequentially.
use direct_libstorage.Base.{
  ◌+◌, ◌≡◌, refl, [], ◌++◌, Outcome, ok, length, take, drop, append_assoc, arith, ap, ◌∙◌, ◌>>=◌,
  subst, take-append-drop, length-append, length-take, length-drop,
}
use direct_libstorage.Serialize.{
  Bytes, Codec, Order, left_to_right, right_to_left, serialize_one, deserialize_one,
}
use direct_libstorage.Serialize.Laws.{
  IsLawful, serialize_one_lem, serialize_last_lem, deserialize_one_lem,
}

module _ {A B C D : Type 0} (a : Codec A) (b : Codec B) (c : Codec C) (d : Codec D) where
  abbrev pub serialize_four : A → B → C → D → Bytes → Outcome Bytes
  serialize_four x y z w buf = do
    one ← serialize_one a x buf 0
    two ← serialize_one b y one.0 one.1
    three ← serialize_one c z two.0 two.1
    four ← serialize_one d w three.0 three.1
    ok four.0

  abbrev pub deserialize_four : Order → Bytes → Outcome (A × B × C × D)
  deserialize_four left_to_right bytes = do
    one ← deserialize_one a bytes
    two ← deserialize_one b one.1
    three ← deserialize_one c two.1
    four ← deserialize_one d three.1
    ok (one.0, two.0, three.0, four.0)
  deserialize_four right_to_left bytes = do
    four ← deserialize_one d bytes
    three ← deserialize_one c four.1
    two ← deserialize_one b three.1
    one ← deserialize_one a two.1
    ok (one.0, two.0, three.0, four.0)

module _ {A B C D : Type 0} {a : Codec A} {b : Codec B} {c : Codec C} {d : Codec D} {P : A → Type 0}
    {Q : B → Type 0} {R : C → Type 0} {S : D → Type 0} (first : IsLawful a P)
    (second : IsLawful b Q) (third : IsLawful c R) (fourth : IsLawful d S) where
  abbrev pub enc_four : A → B → C → D → Bytes
  enc_four x y z w = first.enc x ++ (second.enc y ++ (third.enc z ++ fourth.enc w))

  serialize_four_parts :
      (x : A) (y : B) (z : C) (w : D) (k l m n : Bytes)
      → P x
      → Q y
      → R z
      → S w
      → length k ≡ a.size x
      → length l ≡ b.size y
      → length m ≡ c.size z
      → length n ≡ d.size w
      → serialize_four a b c d x y z w (k ++ (l ++ (m ++ n))) ≡ ok (enc_four x y z w)
  serialize_four_parts x y z w k l m n p q r s hk hl hm hn =
      rw
        (
          serialize_one_lem first x [] k (l ++ (m ++ n)) 0 p refl hk,
          serialize_one_lem second y (first.enc x) l (m ++ n) (0 + a.size x) q
              (omega (arith, first.length_enc x p)) hl,
          ← append_assoc (first.enc x) (second.enc y) (m ++ n),
          serialize_one_lem third z (first.enc x ++ second.enc y) m n (0 + a.size x + b.size y) r
              (omega (
                arith,
                length-append (first.enc x) (second.enc y),
                first.length_enc x p,
                second.length_enc y q,
              ))
              hm,
          ← append_assoc (first.enc x ++ second.enc y) (third.enc z) n,
          serialize_last_lem fourth w ((first.enc x ++ second.enc y) ++ third.enc z) n
              (0 + a.size x + b.size y + c.size z) s
              (omega (
                arith,
                length-append (first.enc x) (second.enc y),
                length-append (first.enc x ++ second.enc y) (third.enc z),
                first.length_enc x p,
                second.length_enc y q,
                third.length_enc z r,
              ))
              hn,
        )
        (ap ok (
          append_assoc (first.enc x ++ second.enc y) (third.enc z) (fourth.enc w)
          ∙ append_assoc (first.enc x) (second.enc y) (third.enc z ++ fourth.enc w)))

  pub serialize_four_lem :
      (x : A) (y : B) (z : C) (w : D) (buf : Bytes)
      → P x
      → Q y
      → R z
      → S w
      → length buf ≡ a.size x + (b.size y + (c.size z + d.size w))
      → serialize_four a b c d x y z w buf ≡ ok (enc_four x y z w)
  serialize_four_lem x y z w buf p q r s h =
      let one = drop (a.size x) buf in
      let two = drop (b.size y) one in
      let first_size = length-drop (a.size x) buf in
      let second_size = length-drop (b.size y) one in
      let third_size = length-drop (c.size z) two in
      let cut : take (a.size x) buf
            ++ (take (b.size y) one ++ (take (c.size z) two ++ drop (c.size z) two))
          ≡ buf =
        rw (take-append-drop (c.size z) two, take-append-drop (b.size y) one)
          (take-append-drop (a.size x) buf) in
      subst (λ v. serialize_four a b c d x y z w v ≡ ok (enc_four x y z w)) cut
        (serialize_four_parts x y z w (take (a.size x) buf) (take (b.size y) one)
          (take (c.size z) two) (drop (c.size z) two) p q r s
          (length-take (a.size x) buf (omega arith)) (length-take (b.size y) one (omega arith))
          (length-take (c.size z) two (omega arith)) (omega arith))

  pub length-enc_four :
      (x : A) (y : B) (z : C) (w : D)
      → P x
      → Q y
      → R z
      → S w
      → length (enc_four x y z w) ≡ a.size x + (b.size y + (c.size z + d.size w))
  length-enc_four x y z w p q r s = omega (
    arith,
    length-append (first.enc x) (second.enc y ++ (third.enc z ++ fourth.enc w)),
    length-append (second.enc y) (third.enc z ++ fourth.enc w),
    length-append (third.enc z) (fourth.enc w),
    first.length_enc x p,
    second.length_enc y q,
    third.length_enc z r,
    fourth.length_enc w s,
  )

  pub deserialize_four_lem :
      (x : A) (y : B) (z : C) (w : D) (rest : Bytes)
      → P x
      → Q y
      → R z
      → S w
      → deserialize_four a b c d left_to_right (enc_four x y z w ++ rest) ≡ ok (x, y, z, w)
  deserialize_four_lem x y z w rest p q r s = rw (
    append_assoc (first.enc x) (second.enc y ++ (third.enc z ++ fourth.enc w)) rest,
    append_assoc (second.enc y) (third.enc z ++ fourth.enc w) rest,
    append_assoc (third.enc z) (fourth.enc w) rest,
    deserialize_one_lem first x (second.enc y ++ (third.enc z ++ (fourth.enc w ++ rest))) p,
    deserialize_one_lem second y (third.enc z ++ (fourth.enc w ++ rest)) q,
    deserialize_one_lem third z (fourth.enc w ++ rest) r,
    deserialize_one_lem fourth w rest s,
  )
