-- ===== src/StorageUtils/Address.antt =====
-- struct StorageAddress of include/storage/StorageUtils.hpp: a range of the address space.
use direct_libstorage.Base.{
  ℕ, ◌+◌, ◌-◌, ◌≤◌, ◌<◌, ◌≡◌, refl, Bool, Outcome, ok, throw, logic_error, ◌>>◌, assert_on, ltb,
  ◌==◌, arith,
}
use direct_libstorage.Base.Words.{word, word_max, add64, sub64, add64_lem, sub64_lem}

pub record StorageAddress : Type 0 where
  pub addr : ℕ
  pub size : ℕ

abbrev pub null_addr : ℕ
null_addr = word_max

unfoldable pub is_null : StorageAddress → Bool
is_null a = a.addr == null_addr

-- reset, and the default values of the fields.
abbrev pub null_address : StorageAddress
null_address = record { addr = null_addr; size = 0 }

unfoldable pub offset : ℕ → StorageAddress → Outcome StorageAddress
offset off a = do
  assert_on (ltb a.size off)
  ok (record { addr = add64 a.addr off; size = sub64 a.size off })

unfoldable pub subrange : ℕ → ℕ → StorageAddress → Outcome StorageAddress
subrange off newsize a = do
  assert_on (ltb a.size (add64 off newsize))
  ok (record { addr = add64 a.addr off; size = newsize })

-- The range ends inside the address space.
abbrev pub IsRange : StorageAddress → Type 0
IsRange a = a.addr + a.size < word

-- Of a range that ends inside the address space and has n bytes, subrange(0, n) and offset(n)
-- succeed: the first has n bytes, the sizes add up to the size of the range, the first starts
-- where the range does, and the second where the first ends.
split_front :
    (n : ℕ) (a : StorageAddress)
    → IsRange a
    → n ≤ a.size
    → (front rest : StorageAddress) × (subrange 0 n a ≡ ok front)
      × (offset n a ≡ ok rest)
      × (front.size ≡ n)
      × (front.size + rest.size ≡ a.size)
      × (front.addr ≡ a.addr)
      × (rest.addr ≡ front.addr + front.size)
unfolding offset subrange
split_front n a r h = (
  record { addr = a.addr; size = n },
  record { addr = a.addr + n; size = a.size - n },
  ground (arith, add64_lem 0 n, add64_lem a.addr 0),
  ground (arith, add64_lem a.addr n, sub64_lem a.size n),
  refl,
  omega arith,
  refl,
  refl,
)

-- A cut that does not fit throws, the one at the front and the one at the back.
split_front_throws :
    (n : ℕ) (a : StorageAddress)
    → n < word
    → a.size < n
    → (subrange 0 n a ≡ throw logic_error) × (offset n a ≡ throw logic_error)
unfolding offset subrange
split_front_throws n a w h = (ground (arith, add64_lem 0 n), ground arith)
