-- ===== src/SimpleStorage/FirstWrite.antt =====
-- The first write to an address range of a SimpleStorage, of include/storage/SimpleStorage.hpp, that has
-- no bytes of the file yet.
use direct_libstorage.Base.{
  ℕ, ◌+◌, ◌-◌, ◌≤◌, ◌<◌, ◌≡◌, sym, ap, subst, ◌∙◌, true, false, ◌∷◌, ◌++◌, ok, ltb, ◌==◌, length,
  arith,
}
use direct_libstorage.Base.Words.{word, add64, add64_lem}
use direct_libstorage.Serialize.{Bytes}
use direct_libstorage.StdMap.{deref}
use direct_libstorage.IntervalMap.{Intervals, BeforeBegin, find_interval}
use direct_libstorage.IntervalMap.Meaning.{Disjoint}
use direct_libstorage.IntervalMap.FindLaws.{Disjoint-Ascends, deref-middle}
use direct_libstorage.StorageUtils.Address.{StorageAddress}
use direct_libstorage.RandomMemoryAccess
use direct_libstorage.RandomMemoryAccess.Laws.{write_lem}
use direct_libstorage.VirtAddressMapping.{VirtAddressMapping, unmapped_offset, alloc_offset}
use direct_libstorage.VirtAddressMapping.AllocLaws.{free}
use direct_libstorage.VirtAddressMapping.Sound.{IsSound, Takes, alloc_offset-Takes}
use direct_libstorage.VirtAddressMapping.FirstUse.{
  first_use, used_first, found_first, lookup-first_use,
}
use direct_libstorage.VirtAddressMapping.LookupSound.{used_first-IsSound}
use direct_libstorage.SimpleStorage.{SimpleStorage, write, readb}
use direct_libstorage.SimpleStorage.Laws.{IsMapped, lookup_mapped}

-- Where the bytes that alloc_offset takes are.
pub Takes-place :
    (size : ℕ) (vam : VirtAddressMapping) (r : ℕ × VirtAddressMapping)
    → Takes size vam r
    → IsSound vam
    → 0 < size
    → free 0 vam ≡ 0
    → (0 < r.0) × (r.0 + size ≤ vam.max_offset + size)
Takes-place size vam r t h p z = (
  ground (arith, t.bytes 0),
  ground (arith, t.bytes (r.0 + (size - 1)), h.once (r.0 + (size - 1)), t.end),
)

pub whole_use :
    (a b size off : ℕ) (back : Intervals ℕ)
    → size ≡ b + 1 - a
    → first_use a b size off back ≡ (a, (b, off)) ∷ back
whole_use a b size off back q = ground arith

module _ (before : BeforeBegin ℕ) where
  -- The whole interval [a, b] is mapped by the first use.
  pub IsMapped-first :
      (a b off : ℕ) (address : StorageAddress) (front back : Intervals ℕ) (st : SimpleStorage)
      → st.mapping.intervals ≡ front ++ (a, (b, off)) ∷ back
      → Disjoint 0 st.mapping.intervals
      → address.addr ≡ a
      → address.size ≡ b + 1 - a
      → a ≤ b
      → b + 1 < word
      → 0 < off
      → off + address.size < unmapped_offset
      → st.rma.is_open ≡ true
      → off + address.size ≤ length st.rma.membase
      → IsMapped before a b off address st
  IsMapped-first a b off address front back st q h start size l w z u o m =
      let h' : Disjoint 0 (front ++ (a, (b, off)) ∷ back) = subst (Disjoint 0) q h in
      record {
        found =
            ap (find_interval before address.addr) q
            ∙ found_first before address.addr a b off front back h' (omega arith) (omega arith);
        held = ap (deref a) q ∙ deref-middle 0 front a b off back (Disjoint-Ascends 0 _ h');
        low = omega arith;
        high = omega arith;
        bounded = w;
        nonempty = omega arith;
        behind = z;
        below = omega arith;
        opened = o;
        backed = omega arith;
      }

  -- Under the invariant of the mapping, with end() as the result of going back from begin(), byte 0 of
  -- the file not free, and open memory with room for the range behind the end of the file: the first
  -- write to a whole interval [a, b] that has no offset yet, of as many bytes as it has, succeeds;
  -- readb then gives these bytes, and the invariant holds.
  pub first_write :
      (a b : ℕ) (address : StorageAddress) (front back : Intervals ℕ) (buffer : Bytes)
      (st : SimpleStorage)
      → IsSound st.mapping
      → st.mapping.intervals ≡ front ++ (a, (b, unmapped_offset)) ∷ back
      → address.addr ≡ a
      → address.size ≡ b + 1 - a
      → a ≤ b
      → b + 1 < word
      → free 0 st.mapping ≡ 0
      → st.mapping.max_offset + address.size < unmapped_offset
      → st.rma.is_open ≡ true
      → st.mapping.max_offset + address.size ≤ length st.rma.membase
      → length buffer ≡ address.size
      → (st' : SimpleStorage) × (write before address buffer st ≡ ok st')
        × (readb before address st' ≡ ok (buffer, st'))
        × IsSound st'.mapping
  unfolding write readb
  first_write a b address front back buffer st h q start size l w z r o m n =
      let vam = st.mapping in
      let t = alloc_offset-Takes address.addr address.size vam h (omega arith) (omega arith) in
      let off = (alloc_offset address.addr address.size vam).0 in
      let (behind, inside) =
        Takes-place address.size vam (alloc_offset address.addr address.size vam) t h (omega arith)
          z in
      let (rma', wrote, reads, same, bytes) = write_lem off buffer st.rma o (omega arith) in
      let vam' = used_first before address.addr a b address.size front back vam in
      let (sound, more) =
        used_first-IsSound before address.addr a b address.size front back vam h q (omega arith)
          (omega arith) (omega arith) in
      let looked =
        lookup-first_use before address.addr a b address.size front back vam q h.valid (omega arith)
          (omega arith) (omega arith) w in
      let st' = record st { rma = rma'; mapping = vam' } in
      let old = record st { mapping = vam' } in
      let placed : vam'.intervals ≡ front ++ (a, (b, off)) ∷ back =
        ap (λ m. front ++ m) (whole_use a b address.size off back size) in
      let m =
        IsMapped-first a b off address front back old placed sound.valid start size l w behind
          (omega arith) o (omega arith) in
      let room : ltb (b + 1 - address.addr) (length buffer) ≡ false = ground arith in
      let enough : ltb (b + 1 - address.addr) address.size ≡ false = ground arith in
      let here : add64 off (address.addr - a) ≡ off =
        add64_lem off (address.addr - a) (omega arith) ∙ omega arith in
      let there : off + (address.addr - a) ≡ off = omega arith in
      let nonzero : (off == 0) ≡ false = ground arith in
      let exact : RandomMemoryAccess.readb off address.size rma' ≡ ok buffer =
        ap (λ z. RandomMemoryAccess.readb off z rma') (sym n) ∙ reads in
      (
        st',
        rw (looked, room, here, nonzero, wrote),
        rw (lookup_mapped before a b off address true old m, enough, there, nonzero, exact),
        sound,
      )
