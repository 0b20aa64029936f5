-- ===== src/SimpleObjectStorage.antt =====
-- class SimpleObjectStorage of include/storage/SimpleObjectStorage.hpp. The storage that objects are
-- written to and read from is a template parameter of the class: its state S, sze::getSize, serialize
-- and deserialize are arguments here. The unordered maps are looked up by their keys only.
pub mod Laws
pub mod Persist
use direct_libstorage.Base.{
  ℕ, zero, suc, ◌+◌, ◌-◌, Bool, true, false, not, ◌&&◌, ◌||◌, Option, none, some, List, [], ◌∷◌,
  ◌++◌, Outcome, ok, throw, dangling_iterator, logic_error, ◌==◌, ◌>>=◌, ◌>>◌, assert_on, leb, ltb,
  if◌then◌else◌, length, replicate,
}
use direct_libstorage.Base.Words.{word_max, add64, sub64}
use direct_libstorage.StdMap.{Map}
use direct_libstorage.StdMap
use direct_libstorage.Store.{StorageOps}
use direct_libstorage.Store
use direct_libstorage.Serialize.{Codec}
use direct_libstorage.StorageHelpers.{MultiMap}
use direct_libstorage.StorageHelpers
use direct_libstorage.StorageUtils.Address.{StorageAddress, null_address, subrange, offset}

-- enum class ObjectStorageAccess
pub data ObjectStorageAccess : Type 0 where
  once caching keep : ObjectStorageAccess

pub record SimpleObjectStorage (T S : Type 0) : Type 0 where
  pub storage : S
  pub base : StorageAddress
  pub tail_addr : StorageAddress
  pub objects : Map T
  pub states : List Bool
  pub addresses : Map StorageAddress
  pub unused_addresses : MultiMap StorageAddress
  pub count : ℕ

-- states[index]; false beyond the end, which no caller reads.
unfoldable pub state_at : ℕ → List Bool → Bool
state_at i [] = false
state_at zero (b ∷ bs) = b
state_at (suc i) (b ∷ bs) = state_at i bs

-- states[index] = val
unfoldable pub set_at : ℕ → Bool → List Bool → List Bool
set_at i val [] = []
set_at zero val (b ∷ bs) = val ∷ bs
set_at (suc i) val (b ∷ bs) = b ∷ set_at i val bs

-- splice of a SetOrderedBySize, with a function that may throw.
unfoldable pub splice :
    (StorageAddress → ℕ → Outcome (StorageAddress × StorageAddress))
    → ℕ
    → MultiMap StorageAddress
    → Outcome ((Bool × StorageAddress) × MultiMap StorageAddress)
splice f size d = elim (StorageHelpers.candidate size word_max d) [
  | none ↦ ok ((false, null_address), d)
  | some (k, t) ↦
      let rest = StorageHelpers.erase (StorageHelpers.lower_bound size d) d in
      if k == size
      then ok ((true, t), rest)
      else (do cut ← f t size; ok ((true, cut.1), StorageHelpers.insert (sub64 k size) cut.0 rest))
]

-- The advance_address of getNewAddress: the address that is left, and the one that is taken.
unfoldable pub advance_address : StorageAddress → ℕ → Outcome (StorageAddress × StorageAddress)
advance_address addr size = do
  new_addr ← subrange 0 size addr
  rest ← offset size addr
  ok (rest, new_addr)

-- What objects.erase(i) returns.
unfoldable pub count_erased : {T : Type 0} → ℕ → Map T → ℕ
count_erased i objects = elim (StdMap.find i objects) [ none ↦ 0 | some t ↦ 1 ]

module _ {T S : Type 0} where
  unfoldable pub get_new_address :
      ℕ → SimpleObjectStorage T S → Outcome (StorageAddress × SimpleObjectStorage T S)
  unfolding splice advance_address
  get_new_address size o = do
    found ← splice advance_address size o.unused_addresses
    let o' = record o { unused_addresses = found.1 }
    (if found.0.0 then ok (found.0.1, o') else (do
      cut ← advance_address o.tail_addr size
      ok (cut.1, record o' { tail_addr = cut.0 })))

  unfoldable pub get_addr_by_index : ℕ → SimpleObjectStorage T S → Outcome StorageAddress
  get_addr_by_index index o = elim (StdMap.find index o.addresses) [
    | none ↦ throw logic_error
    | some addr ↦ ok addr
  ]

  unfoldable pub alloc_addr : ℕ → StorageAddress → SimpleObjectStorage T S → SimpleObjectStorage T S
  alloc_addr index addr o = record o { addresses = (StdMap.emplace index addr o.addresses).0 }

  unfoldable pub del_addr : ℕ → SimpleObjectStorage T S → SimpleObjectStorage T S
  del_addr index o = record o { addresses = StdMap.erase index o.addresses }

  unfoldable pub alloc_new :
      ℕ → ℕ → SimpleObjectStorage T S → Outcome (StorageAddress × SimpleObjectStorage T S)
  unfolding get_new_address alloc_addr
  alloc_new index size o = do new ← get_new_address size o; ok (new.0, alloc_addr index new.0 new.1)

  unfoldable pub alloc_addr_for_index :
      ℕ → ℕ → SimpleObjectStorage T S → Outcome (StorageAddress × SimpleObjectStorage T S)
  unfolding alloc_new del_addr
  alloc_addr_for_index index size o = elim (StdMap.find index o.addresses) [
    | none ↦ alloc_new index size o
    | some old_addr ↦
        if ltb size old_addr.size then ok (old_addr, o) else alloc_new index size (del_addr index o)
  ]

  unfoldable pub has : ℕ → SimpleObjectStorage T S → Bool
  unfolding state_at
  has index o = if leb (length o.states) index then false else state_at index o.states

  -- The last three statements of clear(i). The iterator of a missing address is dereferenced.
  unfoldable pub free_addr : ℕ → SimpleObjectStorage T S → Outcome (SimpleObjectStorage T S)
  free_addr i o = elim (StdMap.find i o.addresses) [
    | none ↦ throw dangling_iterator
    | some addr ↦ ok (record o {
      unused_addresses = StorageHelpers.add addr.size addr o.unused_addresses;
      addresses = StdMap.erase i o.addresses;
    })
  ]

  module _ (max_objs : ℕ) where
    unfoldable pub alloc_state : ℕ → SimpleObjectStorage T S → Outcome (SimpleObjectStorage T S)
    alloc_state index o = do
      assert_on (leb max_objs index)
      ok (
          if leb (length o.states) index
          then record o { states = o.states ++ replicate (index + 1 - length o.states) false }
          else o)

    unfoldable pub set_state :
        ℕ → Bool → SimpleObjectStorage T S → Outcome (SimpleObjectStorage T S)
    unfolding alloc_state set_at
    set_state index val o = do
      room ← alloc_state index o
      ok (record room { states = set_at index val room.states })

    unfoldable pub get_new_index : SimpleObjectStorage T S → Outcome (ℕ × SimpleObjectStorage T S)
    unfolding alloc_state
    get_new_index o = do
      assert_on (leb max_objs o.count)
      assert_on (leb max_objs (length o.states))
      let index = length o.states
      room ← alloc_state index o
      ok (index, room)

    -- clear(i)
    unfoldable pub clear : ℕ → SimpleObjectStorage T S → Outcome (SimpleObjectStorage T S)
    unfolding has set_state free_addr count_erased
    clear i o = if not (has i o) then ok o else (do
      let o' = record o {
        objects = StdMap.erase i o.objects;
        count = sub64 o.count (count_erased i o.objects);
      }
      off ← set_state i false o'
      free_addr i off)

    -- The loop of clear(start, end), over the n indices from i on.
    unfoldable pub clear_from : ℕ → ℕ → SimpleObjectStorage T S → Outcome (SimpleObjectStorage T S)
    unfolding clear
    clear_from i zero o = ok o
    clear_from i (suc n) o = do cleared ← clear i o; clear_from (i + 1) n cleared

    -- clear(start, end), with end below the largest size_t.
    unfoldable pub clear_range : ℕ → ℕ → SimpleObjectStorage T S → Outcome (SimpleObjectStorage T S)
    unfolding clear_from
    clear_range start end o = clear_from start (end + 1 - start) o

    module _ (ops : StorageOps S) (c : Codec T) where
      unfoldable pub put_impl :
          T → ℕ → Bool → SimpleObjectStorage T S → Outcome (SimpleObjectStorage T S)
      unfolding has set_state alloc_addr_for_index
      put_impl t index check_index o = do
        let count' =
            if (check_index && not (has index o)) || not check_index
            then add64 o.count 1
            else o.count
        on ← set_state index true (record o { count = count' })
        placed ← alloc_addr_for_index index (c.size t) on
        written ← Store.serialize ops c t placed.0 placed.1.storage
        ok (record placed.1 { storage = written.1 })

      -- put(t, index)
      unfoldable pub put :
          ObjectStorageAccess → T → ℕ → SimpleObjectStorage T S → Outcome (SimpleObjectStorage T S)
      unfolding put_impl
      put access t index o = do
        stored ← put_impl t index true (record o { objects = StdMap.erase index o.objects })
        elim access [
          | once ↦ ok stored
          | caching ↦ ok stored
          | keep ↦ ok (record stored { objects = (StdMap.emplace index t stored.objects).0 })
        ]

      -- put(t)
      unfoldable pub put_new :
          ObjectStorageAccess → T → SimpleObjectStorage T S → Outcome (ℕ × SimpleObjectStorage T S)
      unfolding get_new_index put
      put_new access t o = do
        new ← get_new_index o
        stored ← put access t new.0 new.1
        ok (new.0, stored)

      unfoldable pub get :
          ObjectStorageAccess → ℕ → SimpleObjectStorage T S → Outcome (T × SimpleObjectStorage T S)
      unfolding has get_addr_by_index set_state
      get access index o = do
        assert_on (not (has index o))
        elim (StdMap.find index o.objects) [
          | some t ↦ ok (t, o)
          | none ↦ do
            addr ← get_addr_by_index index o
            loaded ← Store.deserialize ops c addr o.storage
            let o' = record o { storage = loaded.1 }
            elim access [
              | once ↦ ok (loaded.0, o')
              | caching ↦ ok (loaded.0, o')
              | keep ↦ do
                on ← set_state index true (record o' { count = add64 o.count 1 })
                ok (loaded.0, record on { objects = (StdMap.emplace index loaded.0 on.objects).0 })
            ]
        ]

      -- getRef: the object that the reference is to, which is then in `objects`.
      unfoldable pub get_ref : ℕ → SimpleObjectStorage T S → Outcome (T × SimpleObjectStorage T S)
      unfolding has get_addr_by_index set_state
      get_ref index o = do
        assert_on (not (has index o))
        elim (StdMap.find index o.objects) [
          | some t ↦ ok (t, o)
          | none ↦ do
            on ← set_state index true (record o { count = add64 o.count 1 })
            addr ← get_addr_by_index index on
            loaded ← Store.deserialize ops c addr on.storage
            ok (
              loaded.0,
              record on {
                storage = loaded.1;
                objects = (StdMap.emplace index loaded.0 on.objects).0;
              },
            )
        ]

      module _ {B : Type 0} where
        -- for_each over the n indices from i on; f changes the object it is given.
        unfoldable pub for_each_from :
            (ℕ → T → B → T × B)
            → ℕ
            → ℕ
            → SimpleObjectStorage T S
            → B
            → Outcome (SimpleObjectStorage T S × B)
        unfolding has get_ref
        for_each_from f i zero o b = ok (o, b)
        for_each_from f i (suc n) o b = elim (has i o) [
          | false ↦ for_each_from f (i + 1) n o b
          | true ↦ do
            ref ← get_ref i o
            let (t, b') = f i ref.0 b
            for_each_from f (i + 1) n
                (record (ref.1) { objects = StdMap.assign i t (ref.1).objects }) b'
        ]

        unfoldable pub for_each :
            (ℕ → T → B → T × B)
            → ℕ
            → ℕ
            → SimpleObjectStorage T S
            → B
            → Outcome (SimpleObjectStorage T S × B)
        unfolding for_each_from
        for_each f start end o b = for_each_from f start (end + 1 - start) o b

        -- for_each_empty over the n indices from i on, with the count of the new objects.
        unfoldable pub for_each_empty_from :
            (ℕ → B → T × B)
            → ℕ
            → ℕ
            → SimpleObjectStorage T S
            → B
            → ℕ
            → Outcome (SimpleObjectStorage T S × B × ℕ)
        unfolding has put
        for_each_empty_from f i zero o b count = ok (o, b, count)
        for_each_empty_from f i (suc n) o b count = elim (has i o) [
          | true ↦ for_each_empty_from f (i + 1) n o b count
          | false ↦ do
            let (newobj, b') = f i b
            stored ← put once newobj i o
            for_each_empty_from f (i + 1) n stored b' (count + 1)
        ]

        unfoldable pub for_each_empty :
            (ℕ → B → T × B)
            → ℕ
            → ℕ
            → SimpleObjectStorage T S
            → B
            → Outcome (SimpleObjectStorage T S × B × ℕ)
        unfolding for_each_empty_from
        for_each_empty f start end o b = for_each_empty_from f start (end + 1 - start) o b 0
