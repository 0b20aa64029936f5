-- ===== src/SimpleStorage/Laws.antt =====
-- What is written to an address of a SimpleStorage is read from it.
use direct_libstorage.Base.{
  ℕ, ◌+◌, ◌-◌, ◌≤◌, ◌<◌, ◌≡◌, ◌≢◌, refl, sym, ap, ◌∙◌, Bool, true, false, some, ok, throw,
  logic_error, ltb, leb, ◌==◌, ◌&&◌, if◌then◌else◌, length, arith,
}
use direct_libstorage.Base.Words.{word}
use direct_libstorage.Serialize.{Bytes}
use direct_libstorage.StdMap.{deref}
use direct_libstorage.IntervalMap.{BeforeBegin, find_interval}
use direct_libstorage.StorageUtils.Address.{StorageAddress}
use direct_libstorage.RandomMemoryAccess.{RandomMemoryAccess}
use direct_libstorage.RandomMemoryAccess
use direct_libstorage.RandomMemoryAccess.Laws.{byte_at, write_lem}
use direct_libstorage.VirtAddressMapping.{lookup, unmapped_offset}
use direct_libstorage.VirtAddressMapping.LookupLaws.{lookup_at}
use direct_libstorage.SimpleStorage.{SimpleStorage, write, read, readb}

module _ (before : BeforeBegin ℕ) where
  -- The range of `address` lies in the interval at a, which ends at b and is mapped at off, and its
  -- bytes lie in open memory behind the first one.
  pub record IsMapped (a b off : ℕ) (address : StorageAddress) (st : SimpleStorage) : Type 0 where
    pub found : find_interval before address.addr st.mapping.intervals ≡ ok (some a)
    pub held : deref a st.mapping.intervals ≡ ok (b, off)
    pub low : a ≤ address.addr
    pub high : address.addr + address.size ≤ b + 1
    pub bounded : b + 1 < word
    pub nonempty : 0 < address.size
    pub behind : 0 < off
    pub below : off + (b + 1 - a) < unmapped_offset
    pub opened : st.rma.is_open ≡ true
    pub backed : off + (b + 1 - a) ≤ length st.rma.membase

  pub lookup_mapped :
      (a b off : ℕ) (address : StorageAddress) (is_read_only : Bool) (st : SimpleStorage)
      → IsMapped a b off address st
      → lookup before address.addr address.size is_read_only st.mapping
        ≡ ok ((off + (address.addr - a), b + 1 - address.addr), st.mapping)
  lookup_mapped a b off address is_read_only st m =
      let fits : leb (address.addr + address.size) (b + 1) ≡ true =
        let h = m.high in ground arith in
      let unmapped : off ≢ unmapped_offset = ground (arith, m.below) in
      let low = m.low in
      let high = m.high in
      let bounded = m.bounded in
      let nonempty = m.nonempty in
      let below = m.below in
      lookup_at before a b off address.addr address.size is_read_only st.mapping m.found m.held
        m.low (omega arith) m.bounded m.nonempty (omega arith) unmapped (omega arith)
      ∙ rw fits refl

  -- What a write does to the memory.
  pub write_at :
      (a b off : ℕ) (address : StorageAddress) (buffer : Bytes) (st : SimpleStorage)
      → IsMapped a b off address st
      → length buffer ≡ address.size
      → (rma' : RandomMemoryAccess) × (write before address buffer st
          ≡ ok (record st { rma = rma' }))
        × (RandomMemoryAccess.readb (off + (address.addr - a)) (length buffer) rma' ≡ ok buffer)
        × ((x : ℕ)
            → byte_at x rma'.membase ≡ (
                if leb (off + (address.addr - a)) x
                  && ltb x (off + (address.addr - a) + length buffer)
                then byte_at (x - (off + (address.addr - a))) buffer
                else byte_at x st.rma.membase))
  unfolding write
  write_at a b off address buffer st m n =
      let low = m.low in
      let high = m.high in
      let backed = m.backed in
      let behind = m.behind in
      let place = off + (address.addr - a) in
      let (rma', wrote, reads, same, bytes) =
        write_lem place buffer st.rma m.opened (omega arith) in
      let enough : ltb (b + 1 - address.addr) (length buffer) ≡ false = ground arith in
      let nonzero : (place == 0) ≡ false = ground arith in
      (rma', rw (lookup_mapped a b off address false st m, enough, nonzero, wrote), reads, bytes)

  -- The range lies in one interval, which has an offset and whose bytes lie in open memory,
  -- behind its first byte. A write of as many bytes as the range has succeeds, readb then gives
  -- these bytes, and the mapping is as before.
  write_readb :
      (a b off : ℕ) (address : StorageAddress) (buffer : Bytes) (st : SimpleStorage)
      → IsMapped a b off address st
      → length buffer ≡ address.size
      → (st' : SimpleStorage) × (write before address buffer st ≡ ok st')
        × (readb before address st' ≡ ok (buffer, st'))
        × (st'.mapping ≡ st.mapping)
  unfolding readb
  write_readb a b off address buffer st m n =
      let low = m.low in
      let high = m.high in
      let behind = m.behind in
      let place = off + (address.addr - a) in
      let (rma', wrote, reads, bytes) = write_at a b off address buffer st m n in
      let room : ltb (b + 1 - address.addr) address.size ≡ false = ground arith in
      let nonzero : (place == 0) ≡ false = ground arith in
      let exact : RandomMemoryAccess.readb place address.size rma' ≡ ok buffer =
        ap (λ z. RandomMemoryAccess.readb place z rma') (sym n) ∙ reads in
      (
        record st { rma = rma' },
        wrote,
        rw (lookup_mapped a b off address true st m, room, nonzero, exact),
        refl,
      )

  -- `read` of a mapped range that stops short of the end of its interval throws.
  read_part_throws :
      (a b off allocated : ℕ) (address : StorageAddress) (st : SimpleStorage)
      → IsMapped a b off address st
      → address.addr + address.size < b + 1
      → read before address allocated st ≡ throw logic_error
  unfolding read
  read_part_throws a b off allocated address st m short =
      let longer : ltb address.size (b + 1 - address.addr) ≡ true = ground arith in
      rw (lookup_mapped a b off address true st m, longer)
