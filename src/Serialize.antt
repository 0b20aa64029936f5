-- ===== src/Serialize.antt =====
-- include/storage/SerializeImpl.hpp and SerializeSpecialization.hpp: objects to bytes and back.
-- A buffer is the list of its bytes, and its size, its allocated size and the length of the list are
-- the same, as for every buffer that offset_advance or a storage's writeb makes. A view that is read is
-- the list of the bytes from its start on. Sizes of objects in memory do not wrap. All Result values
-- are Success; a buffer that is too small throws.
pub mod Laws
pub mod OrderLaws
pub mod RangeLaws
pub mod Containers
pub mod Sequence
pub mod Strings
pub mod StringLaws
use direct_libstorage.Base.{
  ℕ, zero, suc, ◌+◌, ◌-◌, ◌*◌, ◌/◌, ◌%◌, ◌≤◌, ◌<◌, Bool, true, false, List, [], ◌∷◌, ◌++◌, Outcome,
  ok, ◌>>=◌, ◌>>◌, assert_on, ltb, ◌==◌, if◌then◌else◌, length, take, drop, replicate,
}

abbrev pub Bytes : Type 0
Bytes = List ℕ

-- CSerializable: szeimpl::size, szeimpl::s, which returns the buffer's bytes after the call, and
-- szeimpl::d.
pub record Codec (T : Type 0) : Type 0 where
  pub size : T → ℕ
  pub s : T → Bytes → Outcome Bytes
  pub d : Bytes → Outcome T

module _ {T : Type 0} (c : Codec T) where
  -- SerializeOne: the bytes of the buffer and the offset after the call.
  unfoldable pub serialize_one : T → Bytes → ℕ → Outcome (Bytes × ℕ)
  serialize_one t buf off = do
    let n = c.size t
    assert_on (ltb (length buf) (off + n))
    sub ← c.s t (take n (drop off buf))
    ok (take off buf ++ (sub ++ drop (off + n) buf), off + n)

  -- DeserializeOne: the object, and the view that follows it.
  unfoldable pub deserialize_one : Bytes → Outcome (T × Bytes)
  deserialize_one bytes = do
    t ← c.d bytes
    assert_on (ltb (length bytes) (c.size t))
    ok (t, drop (c.size t) bytes)

  -- The calls of SerializeSequentially on the elements of a range, in order.
  unfoldable pub serialize_each : List T → Bytes → ℕ → Outcome (Bytes × ℕ)
  unfolding serialize_one
  serialize_each [] buf off = ok (buf, off)
  serialize_each (t ∷ ts) buf off = do
    first ← serialize_one t buf off
    serialize_each ts first.0 first.1

  -- The loop of a range's getObj; `put` is wrapped_emplace.
  unfoldable pub deserialize_each :
      (T → List T → List T) → ℕ → Bytes → List T → Outcome (List T × Bytes)
  unfolding deserialize_one
  deserialize_each put zero bytes r = ok (r, bytes)
  deserialize_each put (suc n) bytes r = do
    u ← deserialize_one bytes
    deserialize_each put n u.1 (put u.0 r)

  -- The sum over a range in getSizeImpl.
  unfoldable pub size_each : List T → ℕ
  size_each [] = 0
  size_each (t ∷ ts) = c.size t + size_each ts

-- The object representation of an unsigned number on a little-endian machine.
unfoldable pub le_bytes : ℕ → ℕ → Bytes
le_bytes zero v = []
le_bytes (suc n) v = (v % 256) ∷ le_bytes n (v / 256)

unfoldable pub le_value : Bytes → ℕ
le_value [] = 0
le_value (b ∷ bs) = b + 256 * le_value bs

-- An unsigned number of `width` bytes, as a trivially copyable type. The read is not checked.
unfoldable pub number : ℕ → Codec ℕ
unfolding le_bytes le_value
number width = record {
  size = λ v. width;
  s = λ v buf. assert_on (ltb (length buf) width) >> ok (le_bytes width v ++ drop width buf);
  d = λ bytes. ok (le_value (take width bytes));
}

-- The order in which the arguments of a call are evaluated, which C++ leaves to the compiler: those of
-- std::make_tuple in DeserializeSequentially read the objects. Clang goes from the left to the right, GCC
-- from the right to the left, as REVERSE_TUPLE_CREATE expects.
pub data Order : Type 0 where
  left_to_right : Order
  right_to_left : Order

module _ {F S : Type 0} (f : Codec F) (g : Codec S) where
  unfoldable pub pair_size : F × S → ℕ
  pair_size (a, b) = f.size a + g.size b

  unfoldable pub pair_s : F × S → Bytes → Outcome Bytes
  pair_s (a, b) buf = do
    assert_on (ltb (length buf) (pair_size (a, b)))
    first ← serialize_one f a buf 0
    second ← serialize_one g b first.0 first.1
    ok second.0

  unfoldable pub pair_d : Order → Bytes → Outcome (F × S)
  pair_d left_to_right bytes = do
    first ← deserialize_one f bytes
    second ← deserialize_one g first.1
    ok (first.0, second.0)
  pair_d right_to_left bytes = do
    second ← deserialize_one g bytes
    first ← deserialize_one f second.1
    ok (first.0, second.0)

  -- std::pair, and a std::tuple or a class of two members that are written one after the other.
  abbrev pub pair : Order → Codec (F × S)
  pair order = record { size = pair_size; s = pair_s; d = pair_d order }

module _ {U : Type 0} (c : Codec U) (put : U → List U → List U) where
  unfoldable pub range_size : List U → ℕ
  range_size r = (number 8).size (length r) + size_each c r

  unfoldable pub range_s : List U → Bytes → Outcome Bytes
  range_s r buf = do
    assert_on (ltb (length buf) (range_size r))
    count ← serialize_one (number 8) (length r) buf 0
    all ← serialize_each c r count.0 count.1
    ok all.0

  unfoldable pub range_d : Bytes → Outcome (List U)
  range_d bytes = do
    count ← deserialize_one (number 8) bytes
    all ← deserialize_each c put count.0 count.1 []
    ok all.0

  -- A sized range: std::vector, std::map and the like, as the list of its elements.
  abbrev pub range : Codec (List U)
  range = record { size = range_size; s = range_s; d = range_d }

module _ {T : Type 0} (c : Codec T) where
  unfoldable pub member_s : T → Bytes → Outcome Bytes
  member_s t buf = do
    assert_on (ltb (length buf) (c.size t))
    one ← serialize_one c t buf 0
    ok one.0

  unfoldable pub member_d : Bytes → Outcome T
  member_d bytes = do one ← deserialize_one c bytes; ok one.0

  -- A class that writes its one member and is rebuilt from it.
  abbrev pub member : Codec T
  member = record { size = c.size; s = member_s; d = member_d }
