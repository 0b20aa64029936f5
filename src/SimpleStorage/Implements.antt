-- ===== src/SimpleStorage/Implements.antt =====
-- SimpleStorage, of include/storage/SimpleStorage.hpp, as the storage of objects that
-- include/storage/Serialize.hpp asks for.
use direct_libstorage.Base.{
  ℕ, ◌+◌, ◌-◌, ◌≤◌, ◌<◌, ◌≡◌, refl, sym, ap, subst, ◌∙◌, inl, ◌⊎◌, none, some, Outcome, ok, ◌>>=◌,
  Result, leb, ◌&&◌, nat_eq, nat_lawful, arith, if◌then◌else◌,
}
use direct_libstorage.Base.Words.{word}
use direct_libstorage.IntervalMap.{Intervals, BeforeBegin}
use direct_libstorage.IntervalMap.Apart.{value_at-Clear}
use direct_libstorage.IntervalMap.InsertLaws.{Clear-middle}
use direct_libstorage.IntervalMap.Meaning.{Disjoint, Clear, value_at, place}
use direct_libstorage.StorageUtils.Address.{StorageAddress}
use direct_libstorage.StorageUtils.RandomAddress
use direct_libstorage.Store.{StorageOps}
use direct_libstorage.Store.Laws.{IsStorage}
use direct_libstorage.VirtAddressMapping.{VirtAddressMapping, unmapped_offset, del}
use direct_libstorage.VirtAddressMapping.AllocLaws.{free}
use direct_libstorage.VirtAddressMapping.AllocSound.{alloc_unmapped-IsSound, alloc_unmapped-place}
use direct_libstorage.VirtAddressMapping.DeleteSound.{Deletes, fails, deletes, del-IsSound}
use direct_libstorage.VirtAddressMapping.Freed.{Whole, freed}
use direct_libstorage.VirtAddressMapping.Sound.{IsSound}
use direct_libstorage.VirtAddressMapping.Used.{piece}
use direct_libstorage.SimpleStorage.Filling.{filled_lem}
use direct_libstorage.SimpleStorage.Reserved.{
  IsLive, HasRoom, next_address, Clear-inside, Clear-none, place_apart, Whole-middle, freed-middle,
}
use direct_libstorage.SimpleStorage.{SimpleStorage, get_random_address, erase, fill, readb}

module _ (before : BeforeBegin ℕ) (clz : ℕ → ℕ) where
  -- The template argument Storage of sze::serialize is SimpleStorage.
  abbrev pub simple_ops : StorageOps SimpleStorage
  simple_ops = record {
    get_random_address = get_random_address before clz;
    erase = λ a st. (do gone ← erase before a st; ok gone.0);
    fill = fill before;
    readb = readb before;
  }

  module _ (none_before : (n : Intervals ℕ) → before n ≡ none) where
    -- The mapping stays sound when the next address is reserved.
    reserved-IsSound :
        (addr size : ℕ) (vam : VirtAddressMapping)
        → IsSound vam
        → Clear addr (addr + size - 1) vam.intervals
        → 0 < size
        → addr + size < word
        → IsSound
            (record vam { intervals = place addr (addr + size - 1) unmapped_offset vam.intervals })
    reserved-IsSound addr size vam sound clear p high =
        let run = alloc_unmapped-place before addr size vam none_before sound clear p high in
        let (made, ran, good, same, values) =
          alloc_unmapped-IsSound before addr size vam none_before sound clear p high in
        let vam' : VirtAddressMapping = record vam {
          intervals = place addr (addr + size - 1) unmapped_offset vam.intervals;
        } in
        let equal : made ≡ vam' = cc in subst IsSound equal good

    new_lem :
        (size : ℕ) (st : SimpleStorage)
        → 0 < size
        → HasRoom clz size st
        → (a : StorageAddress) × (st' : SimpleStorage) × (get_random_address before clz size st
            ≡ ok (a, st'))
          × (a.size ≡ size)
          × IsLive a st'
    unfolding get_random_address
    new_lem size st p h =
        let vam = st.mapping in
        let sound = h.ready.sound in
        let next = next_address clz size st in
        let end = next + size - 1 in
        let low = h.positive in
        let high = h.bounded in
        let clear : Clear next end vam.intervals =
          Clear-inside (next - 1) (next + size) next end vam.intervals h.apart (omega arith)
            (omega arith) in
        let run = alloc_unmapped-place before next size vam none_before sound clear p high in
        let vam' : VirtAddressMapping = record vam {
          intervals = place next end unmapped_offset vam.intervals;
        } in
        let wider : Clear (next - 1) (end + 1) vam.intervals =
          Clear-inside (next - 1) (next + size) (next - 1) (end + 1) vam.intervals h.apart
            (omega arith) (omega arith) in
        let (front, back, split) =
          place_apart next end unmapped_offset 0 vam.intervals sound.valid low (omega arith)
            wider in
        let a : StorageAddress = record { addr = next; size = size } in
        let st' : SimpleStorage = record st {
          metadata = record (st.metadata) {
            ra = (RandomAddress.get_random_address clz size st.metadata.ra).1;
          };
          mapping = vam';
        } in
        (
          a,
          st',
          rw run refl,
          refl,
          record {
            ready = record {
              sound = reserved-IsSound next size vam sound clear p high;
              header = h.ready.header;
              opened = h.ready.opened;
            };
            front = front;
            back = back;
            off = unmapped_offset;
            held = split;
            nonempty = p;
            bounded = high;
            backed = inl (refl, h.below, h.backed);
          },
        )

    -- A reserved address does not meet the next one.
    live_apart :
        (a : StorageAddress) (size : ℕ) (st : SimpleStorage)
        → IsLive a st
        → HasRoom clz size st
        → (a.addr + a.size - 1 < next_address clz size st - 1)
          ⊎ (next_address clz size st + size < a.addr)
    live_apart a size st l h =
        let next = next_address clz size st in
        Clear-middle before (next - 1) (next + size) l.front a.addr (a.addr + a.size - 1) l.off
          l.back (subst (Clear (next - 1) (next + size)) l.held h.apart)

    freed_header :
        (a : StorageAddress) (st : SimpleStorage)
        → IsLive a st
        → freed 0 a.addr (a.addr + a.size - 1) st.mapping.intervals ≡ 0
    unfolding piece
    freed_header a st l =
        let e = a.addr + a.size - 1 in
        let valid = subst (Disjoint 0) l.held l.ready.sound.valid in
        ap (freed 0 a.addr e) l.held
        ∙ freed-middle 0 a.addr e l.off 0 l.front l.back valid
        ∙ ground (arith, l.backed)

    room_kept :
        (a : StorageAddress) (size : ℕ) (st : SimpleStorage) (vam : VirtAddressMapping)
        → IsLive a st
        → HasRoom clz size st
        → IsSound vam
        → vam.max_offset ≡ st.mapping.max_offset
        → free 0 vam ≡ free 0 st.mapping + freed 0 a.addr (a.addr + a.size - 1) st.mapping.intervals
        → ((k : ℕ)
            → value_at k vam.intervals ≡ (
                if leb a.addr k && leb k (a.addr + a.size - 1)
                then some unmapped_offset
                else value_at k st.mapping.intervals))
        → HasRoom clz size (record st { mapping = vam })
    room_kept a size st vam l h sound same f v =
        let next = next_address clz size st in
        let apart = live_apart a size st l h in
        let none_here : (k : ℕ) → next - 1 ≤ k → k ≤ next + size → value_at k vam.intervals ≡ none =
          λ k p q. ground (
            arith,
            v k,
            apart,
            value_at-Clear before k (next - 1) (next + size) st.mapping.intervals h.apart p q,
          ) in
        let below = h.below in
        let backed = h.backed in
        record {
          ready = record {
            sound = sound;
            header = omega (arith, f, h.ready.header, freed_header a st l);
            opened = h.ready.opened;
          };
          apart =
              Clear-none (next - 1) (next + size) 0 vam.intervals sound.valid none_here
                (omega arith);
          positive = h.positive;
          bounded = h.bounded;
          below = omega arith;
          backed = omega arith;
        }

    erased_by :
        (a : StorageAddress) (size : ℕ) (st : SimpleStorage)
        {r : Outcome (VirtAddressMapping × Result)}
        → IsLive a st
        → HasRoom clz size st
        → del before a.addr a.size st.mapping ≡ r
        → Deletes a.addr (a.addr + a.size - 1) st.mapping r
        → (st' : SimpleStorage) × (simple_ops.erase a st ≡ ok st') × HasRoom clz size st'
    unfolding erase
    erased_by a size st l h q (fails x) = (record st { mapping = st.mapping }, rw q refl, h)
    erased_by a size st l h q (deletes vam sound m f v) =
        (record st { mapping = vam }, rw q refl, room_kept a size st vam l h sound m (f 0) v)

    erased_lem :
        (a : StorageAddress) (size : ℕ) (st : SimpleStorage)
        → IsLive a st
        → HasRoom clz size st
        → (st' : SimpleStorage) × (simple_ops.erase a st ≡ ok st') × HasRoom clz size st'
    erased_lem a size st l h =
        let e = a.addr + a.size - 1 in
        let sound = l.ready.sound in
        let whole : Whole a.addr e st.mapping.intervals =
          subst (Whole a.addr e) (sym l.held) (
            Whole-middle a.addr e l.off 0 l.front l.back (subst (Disjoint 0) l.held sound.valid)) in
        erased_by a size st l h refl
          (del-IsSound before a.addr a.size st.mapping none_before sound whole l.nonempty l.bounded)

    -- With end() as the result of going back from begin(), SimpleStorage is a storage of objects.
    pub simple_ops-IsStorage : IsStorage simple_ops IsLive (HasRoom clz)
    simple_ops-IsStorage = record { new = new_lem; erased = erased_lem; filled = filled_lem before }
