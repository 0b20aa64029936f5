-- ===== src/VirtAddressMapping/LookupLaws.antt =====
-- lookup and expand of VirtAddressMapping, in include/storage/SimpleStorage.hpp.
use direct_libstorage.Base.{
  ℕ, ◌+◌, ◌-◌, ◌≤◌, ◌<◌, ◌≡◌, ◌≢◌, refl, Bool, Option, none, some, [], ◌∷◌, Outcome, ok, throw,
  logic_error, success, leb, if◌then◌else◌, arith,
}
use direct_libstorage.Base.Words.{word, add64, sub64, add64_lem, sub64_lem}
use direct_libstorage.StdMap.{Map, deref, assign, find}
use direct_libstorage.IntervalMap.{Intervals, BeforeBegin, find_interval}
use direct_libstorage.IntervalMap.Meaning.{Disjoint, value_at}
use direct_libstorage.IntervalMap.LookupLaws.{Finds, nothing, interval, find_interval-Finds}
use direct_libstorage.IntervalMap.Update
use direct_libstorage.StorageUtils.Address.{StorageAddress}
use direct_libstorage.VirtAddressMapping.{
  VirtAddressMapping, unmapped_offset, end_offset, size_from_start_end, lookup, expand,
  expand_offset,
}

pub end_offset_lem :
    (addr size : ℕ) → 0 < size → addr + size < word → end_offset addr size ≡ ok (addr + size - 1)
unfolding end_offset
end_offset_lem addr size p w =
    rw (add64_lem addr size w, sub64_lem (addr + size) 1 (omega arith) w) (ground arith)

pub size_from_start_end_lem :
    (start end : ℕ) → start ≤ end → end + 1 < word → size_from_start_end start end ≡ end + 1 - start
unfolding size_from_start_end add64 sub64
size_from_start_end_lem start end l w = omega arith

module _ (before : BeforeBegin ℕ) where
  -- Where the interval is found and has an offset.
  pub lookup_at :
      (a b off addr size : ℕ) (is_read_only : Bool) (vam : VirtAddressMapping)
      → find_interval before addr vam.intervals ≡ ok (some a)
      → deref a vam.intervals ≡ ok (b, off)
      → a ≤ addr
      → addr ≤ b
      → b + 1 < word
      → 0 < size
      → addr + size < word
      → off ≢ unmapped_offset
      → off + (addr - a) < word
      → lookup before addr size is_read_only vam ≡ (
          if leb (addr + size) (b + 1)
          then ok ((off + (addr - a), b + 1 - addr), vam)
          else throw logic_error)
  unfolding lookup
  lookup_at a b off addr size is_read_only vam f d l o w p r u q =
      rw (f, d)
        (ground (
          arith,
          end_offset_lem addr size p r,
          size_from_start_end_lem a b,
          sub64_lem addr a l,
          sub64_lem (b + 1 - a) (addr - a),
          add64_lem off (addr - a) q,
        ))

  -- What lookup answers for an address that has a value.
  abbrev pub Answer : ℕ → ℕ → Bool → ℕ → VirtAddressMapping → Type 0
  Answer addr size is_read_only off vam =
      (a b : ℕ) × (deref a vam.intervals ≡ ok (b, off))
      × (a ≤ addr)
      × (addr ≤ b)
      × (lookup before addr size is_read_only vam ≡ (
          if leb (addr + size) (b + 1)
          then ok ((off + (addr - a), b + 1 - addr), vam)
          else throw logic_error))

  lookup-Finds :
      (addr size off : ℕ) (is_read_only : Bool) (vam : VirtAddressMapping) {r : Outcome (Option ℕ)}
      → find_interval before addr vam.intervals ≡ r
      → Finds addr vam.intervals r
      → value_at addr vam.intervals ≡ some off
      → ((a b : ℕ) → deref a vam.intervals ≡ ok (b, off) → b + 1 < word)
      → 0 < size
      → addr + size < word
      → off ≢ unmapped_offset
      → off + addr < word
      → Answer addr size is_read_only off vam
  lookup-Finds addr size off is_read_only vam q (nothing e) v bound p w u o = cc
  lookup-Finds addr size off is_read_only vam q (interval a b off' d l h e) v bound p w u o =
      let same : off' ≡ off = cc in
      let d' : deref a vam.intervals ≡ ok (b, off) = rw (← same) d in
      (
        a,
        b,
        d',
        l,
        h,
        lookup_at a b off addr size is_read_only vam q d' l h (bound a b d') p w u (omega arith),
      )

  -- With end() as the result of going back from begin(), the intervals well-formed and the
  -- numbers without overflow, lookup of a range that is not empty and whose first address has an
  -- offset answers the offset of that address in the file and the number of addresses from there
  -- to the end of the interval, and changes nothing; it throws if the range goes beyond the
  -- interval.
  pub lookup_lem :
      (addr size off : ℕ) (is_read_only : Bool) (vam : VirtAddressMapping)
      → ((n : Intervals ℕ) → before n ≡ none)
      → Disjoint 0 vam.intervals
      → value_at addr vam.intervals ≡ some off
      → ((a b : ℕ) → deref a vam.intervals ≡ ok (b, off) → b + 1 < word)
      → 0 < size
      → addr + size < word
      → off ≢ unmapped_offset
      → off + addr < word
      → Answer addr size is_read_only off vam
  lookup_lem addr size off is_read_only vam none_before h v bound p w u o =
      lookup-Finds addr size off is_read_only vam refl
        (find_interval-Finds before addr vam.intervals none_before h) v bound p w u o

  lookup_throws-Finds :
      (addr size : ℕ) (is_read_only : Bool) (vam : VirtAddressMapping) {r : Outcome (Option ℕ)}
      → find_interval before addr vam.intervals ≡ r
      → Finds addr vam.intervals r
      → value_at addr vam.intervals ≡ none
      → lookup before addr size is_read_only vam ≡ throw logic_error
  unfolding lookup
  lookup_throws-Finds addr size is_read_only vam q (nothing e) v = rw q
  lookup_throws-Finds addr size is_read_only vam q (interval a b off' d l h e) v = cc

  -- With end() as the result of going back from begin(), lookup on well-formed intervals of an
  -- address that no interval holds throws, for reading and for writing.
  lookup_throws :
      (addr size : ℕ) (is_read_only : Bool) (vam : VirtAddressMapping)
      → ((n : Intervals ℕ) → before n ≡ none)
      → Disjoint 0 vam.intervals
      → value_at addr vam.intervals ≡ none
      → lookup before addr size is_read_only vam ≡ throw logic_error
  lookup_throws addr size is_read_only vam none_before h v =
      lookup_throws-Finds addr size is_read_only vam refl
        (find_interval-Finds before addr vam.intervals none_before h) v

assign_same : {A : Type 0} (k : ℕ) (m : Map A) (a : A) → deref k m ≡ ok a → assign k a m ≡ m
unfolding deref assign find
assign_same k [] a h = refl
assign_same k ((j, b) ∷ m) a h = ground (arith, assign_same k m a)

grow_by_nothing : (x b : ℕ) → x < word → add64 x (sub64 b b) ≡ x
unfolding add64 sub64
grow_by_nothing x b w = omega arith

module _ (before : BeforeBegin ℕ) where
  -- If the range of `address` is not empty, is found in an interval, and ends where that interval
  -- and the mapped addresses end, all in words, expand reports success and changes nothing,
  -- whatever the size to expand by.
  expand_at_end :
      (address : StorageAddress) (size a b off : ℕ) (vam : VirtAddressMapping)
      → find_interval before address.addr vam.intervals ≡ ok (some a)
      → deref a vam.intervals ≡ ok (b, off)
      → a ≤ address.addr
      → 0 < address.size
      → b ≡ address.addr + address.size - 1
      → vam.max_addr ≡ address.addr + address.size
      → vam.max_addr < word
      → vam.max_offset < word
      → expand before address size vam ≡ ok (vam, success)
  unfolding expand find_interval expand_offset Update.expand
  expand_at_end address size a b off vam f d l p e m w o =
      rw
        (
          add64_lem address.addr address.size (omega arith),
          end_offset_lem address.addr address.size p (omega arith),
          f,
          d,
        )
        (ground (
          arith,
          assign_same a vam.intervals (b, off) d,
          grow_by_nothing vam.max_addr b w,
          grow_by_nothing vam.max_offset b o,
        ))
