-- ===== src/StorageUtils/Buffer.antt =====
-- StorageBuffer and StorageBufferRO of include/storage/StorageUtils.hpp: views of raw memory. A
-- pointer is a number; the memory behind it is not part of a view.
use direct_libstorage.Base.{
  ℕ, ◌+◌, ◌≤◌, ◌<◌, ◌≡◌, refl, List, [], ◌∷◌, Outcome, ok, throw, logic_error, ◌>>=◌, ◌>>◌,
  assert_on, ltb, subst, arith,
}
use direct_libstorage.Base.Words.{word, add64, sub64, add64_lem}

pub record StorageBuffer : Type 0 where
  pub ptr : ℕ
  pub data_size : ℕ
  pub data_allocated : ℕ

pub record StorageBufferRo : Type 0 where
  pub ptr : ℕ
  pub data_size : ℕ

-- PTR_OFFSET of include/storage/Utils.hpp
unfoldable pub ptr_offset : ℕ → ℕ → ℕ
ptr_offset base off = add64 base off

-- StorageBufferRO(StorageBuffer &): all of the allocated bytes.
unfoldable pub read_only : StorageBuffer → StorageBufferRo
read_only b = record { ptr = b.ptr; data_size = b.data_allocated }

unfoldable pub reset : StorageBuffer → StorageBuffer
reset b = record b { data_size = 0 }

unfoldable pub offset : ℕ → ℕ → StorageBuffer → Outcome StorageBuffer
offset off size b = do
  assert_on (ltb b.data_allocated (add64 off size))
  ok (record { ptr = ptr_offset b.ptr off; data_size = size; data_allocated = size })

-- advance: the new sub-buffer, and the buffer after the call.
unfoldable pub advance : ℕ → StorageBuffer → Outcome (StorageBuffer × StorageBuffer)
advance size b = do
  assert_on (ltb b.data_allocated (add64 b.data_size size))
  buf ← offset b.data_size size b
  ok (buf, record b { data_size = add64 b.data_size size })

-- The sub-buffer, and the reference argument after the call.
unfoldable pub offset_advance : ℕ → ℕ → StorageBuffer → Outcome (StorageBuffer × ℕ)
offset_advance off size b = do
  assert_on (ltb b.data_allocated (add64 off size))
  buf ← offset off size b
  ok (buf, add64 off size)

unfoldable pub advance_offset : ℕ → ℕ → StorageBuffer → Outcome (StorageBuffer × ℕ)
advance_offset off size b = do
  assert_on (ltb b.data_allocated (add64 off size))
  let off' = add64 off size
  buf ← offset off' (sub64 b.data_allocated off') b
  ok (buf, off')

-- The methods of StorageBufferRO of the same names.
unfoldable pub shrink_ro : ℕ → StorageBufferRo → Outcome StorageBufferRo
shrink_ro delta b = do
  assert_on (ltb b.data_size delta)
  ok (record b { data_size = sub64 b.data_size delta })

unfoldable pub offset_ro : ℕ → ℕ → StorageBufferRo → Outcome StorageBufferRo
offset_ro off size b = do
  assert_on (ltb b.data_size (add64 off size))
  ok (record { ptr = ptr_offset b.ptr off; data_size = size })

unfoldable pub offset_advance_ro : ℕ → ℕ → StorageBufferRo → Outcome (StorageBufferRo × ℕ)
offset_advance_ro off size b = do
  assert_on (ltb b.data_size (add64 off size))
  buf ← offset_ro off size b
  ok (buf, add64 off size)

unfoldable pub advance_offset_ro : ℕ → ℕ → StorageBufferRo → Outcome (StorageBufferRo × ℕ)
advance_offset_ro off size b = do
  assert_on (ltb b.data_size (add64 off size))
  let off' = add64 off size
  buf ← offset_ro off' (sub64 b.data_size off') b
  ok (buf, off')

pub record IsValid (b : StorageBuffer) : Type 0 where
  pub within : b.data_size ≤ b.data_allocated
  pub addressed : b.ptr + b.data_allocated < word

-- Each buffer starts where the one before it ends, the first at `start`, and they are full.
abbrev pub Consecutive : ℕ → List ℕ → List StorageBuffer → Type 0
Consecutive start [] [] = Unit
Consecutive start [] (b ∷ bs) = ⊥
Consecutive start (n ∷ ns) [] = ⊥
Consecutive start (n ∷ ns) (b ∷ bs) =
    (b.ptr ≡ start) × (b.data_size ≡ n) × (b.data_allocated ≡ n) × Consecutive (start + n) ns bs

abbrev pub sum : List ℕ → ℕ
sum [] = 0
sum (n ∷ ns) = n + sum ns

-- A series of calls of advance on one buffer.
unfoldable pub advance_all : List ℕ → StorageBuffer → Outcome (List StorageBuffer × StorageBuffer)
advance_all [] b = ok ([], b)
advance_all (n ∷ ns) b = do
  first ← advance n b
  rest ← advance_all ns first.1
  ok (first.0 ∷ rest.0, rest.1)

advance_ok :
    (n : ℕ) (b : StorageBuffer)
    → IsValid b
    → b.data_size + n ≤ b.data_allocated
    → advance n b
      ≡ ok (
        record { ptr = b.ptr + b.data_size; data_size = n; data_allocated = n },
        record b { data_size = b.data_size + n },
      )
unfolding advance offset ptr_offset
advance_ok n b v h =
    rw (add64_lem b.data_size n (omega arith), add64_lem b.ptr b.data_size (omega arith))
      (ground arith)

-- Sub-buffers taken one after the other from a valid buffer with room for all of them succeed, stand
-- one behind the other from the end of the data on, have the sizes asked for, and are counted in the
-- buffer's size; nothing else of the buffer changes.
pub advance_all_lem :
    (ns : List ℕ) (b : StorageBuffer)
    → IsValid b
    → b.data_size + sum ns ≤ b.data_allocated
    → (bufs : List StorageBuffer) × (advance_all ns b
        ≡ ok (bufs, record b { data_size = b.data_size + sum ns }))
      × Consecutive (b.ptr + b.data_size) ns bufs
unfolding advance_all
advance_all_lem [] b v h = ([], ground arith, tt)
advance_all_lem (n ∷ ns) b v h =
    let b' : StorageBuffer = record b { data_size = b.data_size + n } in
    let (bufs, run, follow) =
      advance_all_lem ns b' (record { within = omega arith; addressed = v.addressed })
        (omega arith) in
    let moved : b.ptr + (b.data_size + n) ≡ b.ptr + b.data_size + n = omega arith in
    (
      record { ptr = b.ptr + b.data_size; data_size = n; data_allocated = n } ∷ bufs,
      rw (advance_ok n b v (omega arith), run) (ground arith),
      (refl, refl, refl, subst (λ p. Consecutive p ns bufs) moved follow),
    )

-- advance by more than the room that a buffer has, without overflow, throws.
advance_throws :
    (n : ℕ) (b : StorageBuffer)
    → b.data_size + n < word
    → b.data_allocated < b.data_size + n
    → advance n b ≡ throw logic_error
unfolding advance
advance_throws n b w h = rw (add64_lem b.data_size n w) (ground arith)
