-- ===== src/SimpleStorage/Filling.antt =====
-- Filling the bytes of a reserved address of a SimpleStorage, of include/storage/SimpleStorage.hpp, and
-- reading them back.
use direct_libstorage.Base.{
  ℕ, ◌+◌, ◌-◌, ◌≤◌, ◌<◌, ◌≡◌, refl, sym, ap, ◌∙◌, inl, inr, true, false, ◌∷◌, ◌++◌, Outcome, ok,
  ltb, leb, ◌==◌, nat_eq, nat_lawful, length, take, drop, arith, length-take, length-drop,
}
use direct_libstorage.Base.Words.{add64, add64_lem}
use direct_libstorage.Serialize.{Bytes}
use direct_libstorage.IntervalMap.{BeforeBegin}
use direct_libstorage.StorageUtils.Address.{StorageAddress}
use direct_libstorage.RandomMemoryAccess.{RandomMemoryAccess}
use direct_libstorage.RandomMemoryAccess
use direct_libstorage.RandomMemoryAccess.Laws.{write_lem}
use direct_libstorage.VirtAddressMapping.{VirtAddressMapping, unmapped_offset, alloc_offset, lookup}
use direct_libstorage.VirtAddressMapping.FirstUse.{used_first, lookup-first_use}
use direct_libstorage.VirtAddressMapping.LookupSound.{used_first-IsSound}
use direct_libstorage.VirtAddressMapping.Sound.{alloc_offset-Takes}
use direct_libstorage.SimpleStorage.FirstWrite.{IsMapped-first, Takes-place, whole_use}
use direct_libstorage.SimpleStorage.Laws.{IsMapped, lookup_mapped}
use direct_libstorage.SimpleStorage.Reserved.{IsLive}
use direct_libstorage.SimpleStorage.{SimpleStorage, fill, readb}

-- A change of the bytes of a view to `bytes` is a write of them.
fill-write :
    (offset size : ℕ) (f : Bytes → Outcome Bytes) (bytes : Bytes) (r : RandomMemoryAccess)
    → r.is_open ≡ true
    → offset + size ≤ length r.membase
    → length bytes ≡ size
    → ((old : Bytes) → length old ≡ size → f old ≡ ok bytes)
    → RandomMemoryAccess.fill offset size f r ≡ RandomMemoryAccess.write offset bytes r
unfolding RandomMemoryAccess.fill RandomMemoryAccess.write RandomMemoryAccess.readb
fill-write offset size f bytes r o h n g =
    let fits : leb (offset + size) (length r.membase) ≡ true = ground arith in
    let room : leb (offset + length bytes) (length r.membase) ≡ true = ground arith in
    let made : f (take size (drop offset r.membase)) ≡ ok bytes =
      g (take size (drop offset r.membase))
        (length-take size (drop offset r.membase) (omega (arith, length-drop offset r.membase))) in
    rw (o, fits, room, made) refl

module _ (before : BeforeBegin ℕ) where
  -- lookup for writing at a reserved address: where its bytes are.
  abbrev Looks : StorageAddress → SimpleStorage → Type 0
  Looks a st =
      (off : ℕ) × (vam : VirtAddressMapping) × (lookup before a.addr a.size false st.mapping
        ≡ ok ((off, a.size), vam))
      × IsMapped before a.addr (a.addr + a.size - 1) off a (record st { mapping = vam })

  Looks-mapped :
      (a : StorageAddress) (st : SimpleStorage) (l : IsLive a st)
      → 0 < l.off
      → l.off + a.size < unmapped_offset
      → l.off + a.size ≤ length st.rma.membase
      → Looks a st
  Looks-mapped a st l z u b =
      let e = a.addr + a.size - 1 in
      let p = l.nonempty in
      let w = l.bounded in
      let m =
        IsMapped-first before a.addr e l.off a l.front l.back st l.held l.ready.sound.valid refl
          (omega arith) (omega arith) (omega arith) z u l.ready.opened b in
      let here : l.off + (a.addr - a.addr) ≡ l.off = omega arith in
      let rest : e + 1 - a.addr ≡ a.size = omega arith in
      (
        l.off,
        st.mapping,
        lookup_mapped before a.addr e l.off a false st m ∙ rw (here, rest) refl,
        m,
      )

  Looks-unmapped :
      (a : StorageAddress) (st : SimpleStorage) (l : IsLive a st)
      → l.off ≡ unmapped_offset
      → st.mapping.max_offset + a.size < unmapped_offset
      → st.mapping.max_offset + a.size ≤ length st.rma.membase
      → Looks a st
  Looks-unmapped a st l q u b =
      let e = a.addr + a.size - 1 in
      let p = l.nonempty in
      let w = l.bounded in
      let vam = st.mapping in
      let sound = l.ready.sound in
      let held : vam.intervals ≡ l.front ++ (a.addr, (e, unmapped_offset)) ∷ l.back =
        l.held ∙ ap (λ v. l.front ++ (a.addr, (e, v)) ∷ l.back) q in
      let t = alloc_offset-Takes a.addr a.size vam sound p (omega arith) in
      let off = (alloc_offset a.addr a.size vam).0 in
      let (behind, inside) =
        Takes-place a.size vam (alloc_offset a.addr a.size vam) t sound p l.ready.header in
      let vam' = used_first before a.addr a.addr e a.size l.front l.back vam in
      let (good, more) =
        used_first-IsSound before a.addr a.addr e a.size l.front l.back vam sound held p
          (omega arith) (omega arith) in
      let looked =
        lookup-first_use before a.addr a.addr e a.size l.front l.back vam held sound.valid p
          (omega arith) (omega arith) (omega arith) in
      let placed : vam'.intervals ≡ l.front ++ (a.addr, (e, off)) ∷ l.back =
        ap (λ m. l.front ++ m) (whole_use a.addr e a.size off l.back (omega arith)) in
      let here : add64 off (a.addr - a.addr) ≡ off =
        add64_lem off (a.addr - a.addr) (omega arith) ∙ omega arith in
      let rest : e + 1 - a.addr ≡ a.size = omega arith in
      (
        off,
        vam',
        looked ∙ rw (here, rest) refl,
        IsMapped-first before a.addr e off a l.front l.back (record st { mapping = vam' }) placed
            good.valid refl (omega arith) (omega arith) (omega arith) behind (omega arith)
            l.ready.opened (omega arith),
      )

  looks : (a : StorageAddress) (st : SimpleStorage) → IsLive a st → Looks a st
  looks a st l = elim l.backed [
    | inl u ↦ Looks-unmapped a st l u.0 u.1 u.2
    | inr m ↦ Looks-mapped a st l m.0 m.1 m.2
  ]

  pub filled_lem :
      (a : StorageAddress) (f : Bytes → Outcome Bytes) (bytes : Bytes) (st : SimpleStorage)
      → IsLive a st
      → length bytes ≡ a.size
      → ((old : Bytes) → length old ≡ a.size → f old ≡ ok bytes)
      → (st' st'' : SimpleStorage) × (fill before a f st ≡ ok st')
        × (readb before a st' ≡ ok (bytes, st''))
  unfolding fill readb
  filled_lem a f bytes st l n g =
      let e = a.addr + a.size - 1 in
      let p = l.nonempty in
      let (off, vam, looked, m) = looks a st l in
      let behind = m.behind in
      let backed = m.backed in
      let (rma, wrote, reads, long, changed) = write_lem off bytes st.rma m.opened (omega arith) in
      let change = fill-write off a.size f bytes st.rma m.opened (omega arith) n g ∙ wrote in
      let st' : SimpleStorage = record st { rma = rma; mapping = vam } in
      let room : ltb a.size a.size ≡ false = ground arith in
      let nonzero : (off == 0) ≡ false = ground arith in
      let here : off + (a.addr - a.addr) ≡ off = omega arith in
      let rest : e + 1 - a.addr ≡ a.size = omega arith in
      let again : lookup before a.addr a.size true vam ≡ ok ((off, a.size), vam) =
        lookup_mapped before a.addr e off a true (record st { mapping = vam }) m
        ∙ rw (here, rest) refl in
      let exact : RandomMemoryAccess.readb off a.size rma ≡ ok bytes =
        ap (λ z. RandomMemoryAccess.readb off z rma) (sym n) ∙ reads in
      (st', st', rw (looked, room, nonzero, change) refl, rw (again, room, nonzero, exact) refl)
