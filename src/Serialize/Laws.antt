-- ===== src/Serialize/Laws.antt =====
-- The law of a serializable type, that its bytes read back as the object, and that the combinators
-- of include/storage/SerializeImpl.hpp and SerializeSpecialization.hpp keep it.
use direct_libstorage.Base.{
  ℕ, zero, suc, ◌+◌, ◌/◌, ◌^◌, ◌<◌, ◌≡◌, refl, ap, subst, ◌∙◌, false, [], ◌++◌, ok, ltb, length,
  take, drop, length-append, length-take, length-drop, take-append-drop, take-append, drop-append,
  append_assoc, append-nil, arith,
}
use native.Mathlib.Nat.{pow-suc}
use direct_libstorage.Serialize.{
  Bytes, Codec, left_to_right, serialize_one, deserialize_one, le_bytes, le_value, number, pair,
  pair_size, pair_s, pair_d,
}

-- The objects that satisfy P have bytes `enc`, as many as their size says; serializing them to a
-- buffer of just that size fills it with these bytes; and deserializing the bytes, whatever follows
-- them, gives the object back.
pub record IsLawful {T : Type 0} (c : Codec T) (P : T → Type 0) : Type 0 where
  pub enc : T → Bytes
  pub length_enc : (t : T) → P t → length (enc t) ≡ c.size t
  pub s_enc : (t : T) (buf : Bytes) → P t → length buf ≡ c.size t → c.s t buf ≡ ok (enc t)
  pub d_enc : (t : T) (rest : Bytes) → P t → c.d (enc t ++ rest) ≡ ok t

module _ {T : Type 0} {c : Codec T} {P : T → Type 0} (law : IsLawful c P) where
  -- One object goes to its place in the middle of a buffer.
  pub serialize_one_lem :
      (t : T) (written room rest : Bytes) (off : ℕ)
      → P t
      → length written ≡ off
      → length room ≡ c.size t
      → serialize_one c t (written ++ (room ++ rest)) off
        ≡ ok (written ++ (law.enc t ++ rest), off + c.size t)
  unfolding serialize_one
  serialize_one_lem t written room rest off p o n =
      let fits : ltb (length (written ++ (room ++ rest))) (off + c.size t) ≡ false =
        ground (arith, length-append written (room ++ rest), length-append room rest) in
      let tail : drop (off + c.size t) (written ++ (room ++ rest)) ≡ rest =
        rw (← append_assoc written room rest) (
          drop-append (off + c.size t) (written ++ room) rest
            (omega (arith, length-append written room))) in
      rw (
        fits,
        tail,
        drop-append off written (room ++ rest) o,
        take-append (c.size t) room rest n,
        take-append off written (room ++ rest) o,
        law.s_enc t room p n,
      )

  -- The object is the last in the buffer.
  pub serialize_last_lem :
      (t : T) (written room : Bytes) (off : ℕ)
      → P t
      → length written ≡ off
      → length room ≡ c.size t
      → serialize_one c t (written ++ room) off ≡ ok (written ++ law.enc t, off + c.size t)
  serialize_last_lem t written room off p o n =
      subst (λ z. serialize_one c t (written ++ z) off ≡ ok (written ++ law.enc t, off + c.size t))
        (append-nil room)
        (serialize_one_lem t written room [] off p o n
          ∙ ap (λ z. ok (written ++ z, off + c.size t)) (append-nil (law.enc t)))

  pub deserialize_one_lem :
      (t : T) (rest : Bytes) → P t → deserialize_one c (law.enc t ++ rest) ≡ ok (t, rest)
  unfolding deserialize_one
  deserialize_one_lem t rest p =
      let fits : ltb (length (law.enc t ++ rest)) (c.size t) ≡ false =
        ground (arith, length-append (law.enc t) rest, law.length_enc t p) in
      rw (law.d_enc t rest p, fits, drop-append (c.size t) (law.enc t) rest (law.length_enc t p))

module _ {F S : Type 0} {f : Codec F} {g : Codec S} {P : F → Type 0} {Q : S → Type 0}
    (first : IsLawful f P) (second : IsLawful g Q) where
  abbrev pub Both : F × S → Type 0
  Both (a, b) = P a × Q b

  abbrev pair_enc : F × S → Bytes
  pair_enc (a, b) = first.enc a ++ second.enc b

  length-pair_enc : (t : F × S) → Both t → length (pair_enc t) ≡ (pair f g left_to_right).size t
  unfolding pair_size
  length-pair_enc (a, b) h = omega (
    arith,
    length-append (first.enc a) (second.enc b),
    first.length_enc a h.0,
    second.length_enc b h.1,
  )

  pair_writes :
      (a : F) (b : S) (x y : Bytes)
      → P a
      → Q b
      → length x ≡ f.size a
      → length y ≡ g.size b
      → pair_s f g (a, b) (x ++ y) ≡ ok (first.enc a ++ second.enc b)
  unfolding pair_s pair_size
  pair_writes a b x y p q hx hy =
      let fits : ltb (length (x ++ y)) (f.size a + g.size b) ≡ false =
        ground (arith, length-append x y) in
      rw (
        fits,
        serialize_one_lem first a [] x y 0 p refl hx,
        serialize_last_lem second b (first.enc a) y (0 + f.size a) q
            (omega (arith, first.length_enc a p)) hy,
      )

  pub pair_s_enc :
      (t : F × S) (buf : Bytes)
      → Both t
      → length buf ≡ (pair f g left_to_right).size t
      → pair_s f g t buf ≡ ok (pair_enc t)
  unfolding pair_size
  pair_s_enc (a, b) buf h n =
      subst (λ z. pair_s f g (a, b) z ≡ ok (pair_enc (a, b))) (take-append-drop (f.size a) buf)
        (pair_writes a b (take (f.size a) buf) (drop (f.size a) buf) h.0 h.1
          (length-take (f.size a) buf (omega arith)) (omega (arith, length-drop (f.size a) buf)))

  pub pair_d_enc :
      (t : F × S) (rest : Bytes) → Both t → pair_d f g left_to_right (pair_enc t ++ rest) ≡ ok t
  unfolding pair_d
  pair_d_enc (a, b) rest h = rw (
    append_assoc (first.enc a) (second.enc b) rest,
    deserialize_one_lem first a (second.enc b ++ rest) h.0,
    deserialize_one_lem second b rest h.1,
  )

  -- A pair is lawful if its parts are, where its parts are read from the left to the right.
  pub pair-IsLawful : IsLawful (pair f g left_to_right) Both
  pair-IsLawful = record {
    enc = pair_enc;
    length_enc = length-pair_enc;
    s_enc = pair_s_enc;
    d_enc = pair_d_enc;
  }

-- Numbers of `width` bytes.
length-le_bytes : (n v : ℕ) → length (le_bytes n v) ≡ n
unfolding le_bytes
length-le_bytes zero v = refl
length-le_bytes (suc n) v = ap suc (length-le_bytes n (v / 256))

le_value-le_bytes : (n v : ℕ) → v < 256 ^ n → le_value (le_bytes n v) ≡ v
unfolding le_bytes le_value
le_value-le_bytes zero v h = omega arith
le_value-le_bytes (suc n) v h =
    omega (arith, le_value-le_bytes n (v / 256) (omega (arith, pow-suc 256 n)))

number_s_enc :
    (width v : ℕ) (buf : Bytes)
    → length buf ≡ width
    → (number width).s v buf ≡ ok (le_bytes width v)
unfolding number
number_s_enc width v buf h =
    let rest : drop width buf ≡ [] =
      subst (λ z. drop width z ≡ []) (append-nil buf) (drop-append width buf [] h) in
    let fits : ltb (length buf) width ≡ false = ground arith in rw (fits, rest, append-nil)

pub number-IsLawful : (width : ℕ) → IsLawful (number width) (λ v. v < 256 ^ width)
unfolding number
number-IsLawful width = record {
  enc = le_bytes width;
  length_enc = λ v p. length-le_bytes width v;
  s_enc = λ v buf p h. number_s_enc width v buf h;
  d_enc = λ v rest p.
      rw (take-append width (le_bytes width v) rest (length-le_bytes width v))
        (ap ok (le_value-le_bytes width v p));
}

-- The object that was serialized to a buffer of its size is read back, whatever follows its bytes.
pub roundtrip :
    {T : Type 0} (c : Codec T) (P : T → Type 0) (law : IsLawful c P) (t : T) (buf rest : Bytes)
    → P t
    → length buf ≡ c.size t
    → (bytes : Bytes) × (c.s t buf ≡ ok bytes) × (c.d (bytes ++ rest) ≡ ok t)
roundtrip c P law t buf rest p h = (law.enc t, law.s_enc t buf p h, law.d_enc t rest p)
