-- ===== src/SimpleStorage/Memory.antt =====
-- A SimpleStorage, of include/storage/SimpleStorage.hpp, as a memory of bytes with virtual addresses.
use direct_libstorage.Base.{
  ℕ, suc, ◌+◌, ◌-◌, ◌≤◌, ◌<◌, ◌≡◌, ◌≢◌, sym, ap, ◌∙◌, true, false, ◌&&◌, Option, Option-cases, inl,
  inr, none, some, [], ◌∷◌, ok, ltb, leb, ◌==◌, if◌then◌else◌, length, arith, take, drop,
  length-take, length-drop,
}
use direct_libstorage.Serialize.{Bytes}
use direct_libstorage.StdMap.{deref, find}
use direct_libstorage.IntervalMap.{Intervals, BeforeBegin}
use direct_libstorage.IntervalMap.Meaning.{Disjoint}
use direct_libstorage.StorageUtils.Address.{StorageAddress}
use direct_libstorage.RandomMemoryAccess.{RandomMemoryAccess}
use direct_libstorage.RandomMemoryAccess.Laws.{byte_at, byte_at-take, byte_at-drop}
use direct_libstorage.VirtAddressMapping.{unmapped_offset}
use direct_libstorage.VirtAddressMapping.Sound.{IsSound}
use direct_libstorage.VirtAddressMapping.Reachable.{byte_of, byte_of_lem}
use direct_libstorage.RandomMemoryAccess
use direct_libstorage.SimpleStorage.{SimpleStorage, write, readb}
use direct_libstorage.SimpleStorage.Laws.{IsMapped, write_at, lookup_mapped}

-- The byte at a virtual address, if it has one.
unfoldable pub content : ℕ → SimpleStorage → Option ℕ
content k st = elim (byte_of k st.mapping.intervals) [
  | none ↦ none
  | some x ↦ byte_at x st.rma.membase
]

find-low : (lo a : ℕ) (m : Intervals ℕ) (iv : ℕ × ℕ) → Disjoint lo m → find a m ≡ some iv → lo ≤ a
unfolding find
find-low lo a [] iv h q = ground arith
find-low lo a ((i, (c, w)) ∷ m) iv h q = ground (arith, find-low (suc c) a m iv h.3)

byte_of-find :
    (k lo a b off : ℕ) (m : Intervals ℕ)
    → Disjoint lo m
    → find a m ≡ some (b, off)
    → a ≤ k
    → k ≤ b
    → off ≢ unmapped_offset
    → byte_of k m ≡ some (off + (k - a))
unfolding byte_of find
byte_of-find k lo a b off [] h q l o u = ground arith
byte_of-find k lo a b off ((i, (c, w)) ∷ m) h q l o u =
    ground (arith, find-low (suc c) a m (b, off) h.3, byte_of-find k (suc c) a b off m h.3)

byte_of-deref :
    (k a b off : ℕ) (m : Intervals ℕ)
    → Disjoint 0 m
    → deref a m ≡ ok (b, off)
    → a ≤ k
    → k ≤ b
    → off ≢ unmapped_offset
    → byte_of k m ≡ some (off + (k - a))
unfolding deref
byte_of-deref k a b off m h q l o u = byte_of-find k 0 a b off m h (ground arith) l o u

content-some :
    (k x : ℕ) (st : SimpleStorage)
    → byte_of k st.mapping.intervals ≡ some x
    → content k st ≡ byte_at x st.rma.membase
unfolding content
content-some k x st q = rw (content, q)

content-none :
    (k : ℕ) (st : SimpleStorage) → byte_of k st.mapping.intervals ≡ none → content k st ≡ none
unfolding content
content-none k st q = rw (content, q)

-- The range [addr, addr + size) has the bytes of the file from `place` on.
abbrev At : ℕ → ℕ → ℕ → SimpleStorage → Type 0
At addr size place st =
    (j : ℕ)
    → addr ≤ j
    → j < addr + size
    → byte_of j st.mapping.intervals ≡ some (place + (j - addr))

At-within :
    (k x addr size place : ℕ) (st : SimpleStorage)
    → At addr size place st
    → byte_of k st.mapping.intervals ≡ some x
    → addr ≤ k
    → k < addr + size
    → (place ≤ x) × (x < place + size) × (x - place ≡ k - addr)
At-within k x addr size place st inside q l u =
    let e : some x ≡ some (place + (k - addr)) = sym q ∙ inside k l u in ground arith

At-outside :
    (k x addr size place : ℕ) (st : SimpleStorage)
    → IsSound st.mapping
    → At addr size place st
    → byte_of k st.mapping.intervals ≡ some x
    → place ≤ x
    → x < place + size
    → (addr ≤ k) × (k < addr + size)
At-outside k x addr size place st h inside q l u =
    let j = addr + (x - place) in
    let there : byte_of j st.mapping.intervals ≡ some x =
      inside j (omega arith) (omega arith) ∙ ap some (omega arith) in
    omega (arith, (byte_of_lem k j x st.mapping h q).1 there)

abbrev Replaces : ℕ → Bytes → Bytes → Bytes → Type 0
Replaces place buffer mem mem' =
    (x : ℕ)
    → byte_at x mem' ≡ (
        if leb place x && ltb x (place + length buffer)
        then byte_at (x - place) buffer
        else byte_at x mem)

-- The bytes of a range, before and after they are replaced in memory.
content-replaced :
    (k addr place : ℕ) (buffer : Bytes) (rma' : RandomMemoryAccess) (st : SimpleStorage)
    → IsSound st.mapping
    → At addr (length buffer) place st
    → Replaces place buffer st.rma.membase rma'.membase
    → content k (record st { rma = rma' }) ≡ (
        if leb addr k && ltb k (addr + length buffer)
        then byte_at (k - addr) buffer
        else content k st)
content-replaced k addr place buffer rma' st h inside bytes =
    elim (Option-cases (byte_of k st.mapping.intervals)) [
      | inl q ↦
          ground
            (arith, content-none k st q, content-none k (record st { rma = rma' }) q, inside k, q)
      | inr (x, q) ↦ ground (
        arith,
        content-some k x st q,
        content-some k x (record st { rma = rma' }) q,
        bytes x,
        At-within k x addr (length buffer) place st inside q,
        At-outside k x addr (length buffer) place st h inside q,
        ap (λ i. byte_at i buffer),
      )
    ]

module _ (before : BeforeBegin ℕ) where
  -- Under the invariant of the mapping: a write to a range that lies in one interval, which has an
  -- offset and whose bytes lie in open memory behind its first byte, of as many bytes as the range
  -- has, succeeds. Each address of the range then has its byte of the buffer, and every other
  -- address of the storage has the byte that it had.
  pub write-content :
      (a b off : ℕ) (address : StorageAddress) (buffer : Bytes) (st : SimpleStorage)
      → IsSound st.mapping
      → IsMapped before a b off address st
      → length buffer ≡ address.size
      → (st' : SimpleStorage) × (write before address buffer st ≡ ok st')
        × ((k : ℕ)
            → content k st' ≡ (
                if leb address.addr k && ltb k (address.addr + length buffer)
                then byte_at (k - address.addr) buffer
                else content k st))
  write-content a b off address buffer st h m n =
      let (rma', wrote, reads, bytes) = write_at before a b off address buffer st m n in
      let low = m.low in
      let high = m.high in
      let below = m.below in
      let place = off + (address.addr - a) in
      let inside : At address.addr (length buffer) place st = λ j l u.
        byte_of-deref j a b off st.mapping.intervals h.valid m.held (omega arith) (omega arith)
          (λ q. omega arith)
        ∙ ap some (omega arith) in
      (
        record st { rma = rma' },
        wrote,
        λ k. content-replaced k address.addr place buffer rma' st h inside bytes,
      )

  -- With well-formed intervals: readb of a range that lies in one interval, which has an offset and
  -- whose bytes lie in open memory behind its first byte, succeeds, changes nothing, and gives the
  -- bytes that the addresses of the range have.
  pub readb-content :
      (a b off : ℕ) (address : StorageAddress) (st : SimpleStorage)
      → Disjoint 0 st.mapping.intervals
      → IsMapped before a b off address st
      → (bytes : Bytes) × (readb before address st ≡ ok (bytes, st))
        × (length bytes ≡ address.size)
        × ((i : ℕ) → i < address.size → byte_at i bytes ≡ content (address.addr + i) st)
  unfolding readb RandomMemoryAccess.readb
  readb-content a b off address st h m =
      let low = m.low in
      let high = m.high in
      let below = m.below in
      let behind = m.behind in
      let backed = m.backed in
      let place = off + (address.addr - a) in
      let mem = st.rma.membase in
      let room : ltb (b + 1 - address.addr) address.size ≡ false = ground arith in
      let nonzero : (place == 0) ≡ false = ground arith in
      let fits : leb (place + address.size) (length mem) ≡ true = ground arith in
      (
        take address.size (drop place mem),
        rw (lookup_mapped before a b off address true st m, room, nonzero, m.opened, fits),
        length-take address.size (drop place mem) (omega (arith, length-drop place mem)),
        λ i l.
            byte_at-take i address.size (drop place mem) l
            ∙ byte_at-drop i place mem
            ∙ sym (
                content-some (address.addr + i) (place + i) st (
                  byte_of-deref (address.addr + i) a b off st.mapping.intervals h m.held
                    (omega arith) (omega arith) (λ q. omega arith)
                  ∙ ap some (omega arith))),
      )
