-- ===== src/SimpleObjectStorage/Laws.antt =====
-- What the operations of a SimpleObjectStorage do to the indices that hold an object.
use direct_libstorage.Base.{
  ℕ, zero, suc, ◌+◌, ◌-◌, ◌≤◌, ◌<◌, ◌≡◌, refl, sym, ap, ◌∙◌, Bool, true, false, none, some, List,
  [], ◌∷◌, ◌++◌, ok, leb, ◌==◌, if◌then◌else◌, length, replicate, arith, length-append,
  length-replicate, dec_lt,
}
use direct_libstorage.Base.Words.{word, sub64, sub64_lem}
use direct_libstorage.StdMap.{Map}
use direct_libstorage.StdMap
use direct_libstorage.StorageHelpers
use direct_libstorage.StorageUtils.Address.{StorageAddress}
use direct_libstorage.SimpleObjectStorage.{
  SimpleObjectStorage, state_at, set_at, has, alloc_state, set_state, clear, free_addr,
  count_erased,
}

state_at-set_at :
    (i j : ℕ) (val : Bool) (bs : List Bool)
    → i < length bs
    → state_at j (set_at i val bs) ≡ (if j == i then val else state_at j bs)
unfolding state_at set_at
state_at-set_at i j val [] h = absurd (omega arith)
state_at-set_at zero zero val (b ∷ bs) h = refl
state_at-set_at zero (suc j) val (b ∷ bs) h = ground arith
state_at-set_at (suc i) zero val (b ∷ bs) h = ground arith
state_at-set_at (suc i) (suc j) val (b ∷ bs) h =
    let rest = state_at-set_at i j val bs (omega arith) in ground (arith, rest)

length-set_at : (i : ℕ) (val : Bool) (bs : List Bool) → length (set_at i val bs) ≡ length bs
unfolding set_at
length-set_at i val [] = refl
length-set_at zero val (b ∷ bs) = refl
length-set_at (suc i) val (b ∷ bs) = ap suc (length-set_at i val bs)

state_at-replicate : (j n : ℕ) → state_at j (replicate n false) ≡ false
unfolding state_at
state_at-replicate j zero = refl
state_at-replicate zero (suc n) = refl
state_at-replicate (suc j) (suc n) = state_at-replicate j n

state_at-append : (j n : ℕ) (bs : List Bool) → state_at j (bs ++ replicate n false) ≡ state_at j bs
unfolding state_at
state_at-append j n [] = state_at-replicate j n
state_at-append zero n (b ∷ bs) = refl
state_at-append (suc j) n (b ∷ bs) = state_at-append j n bs

beyond : (j : ℕ) (bs : List Bool) → length bs ≤ j → state_at j bs ≡ false
unfolding state_at
beyond j [] h = refl
beyond zero (b ∷ bs) h = absurd (omega arith)
beyond (suc j) (b ∷ bs) h = beyond j bs (omega arith)

module _ {T S : Type 0} where
  has-state_at : (j : ℕ) (o : SimpleObjectStorage T S) → has j o ≡ state_at j o.states
  unfolding has
  has-state_at j o = ground (arith, beyond j o.states)

  -- The states after set_state, of which `room` is what allocState makes.
  after_set :
      (index : ℕ) (val : Bool) (o : SimpleObjectStorage T S) (room : List Bool)
      → index < length room
      → ((j : ℕ) → state_at j room ≡ state_at j o.states)
      → (j : ℕ)
      → has j (record o { states = set_at index val room }) ≡ (if j == index then val else has j o)
  after_set index val o room h same j =
      has-state_at j (record o { states = set_at index val room })
      ∙ (state_at-set_at index j val room h
          ∙ ap (λ z. if j == index then val else z) (same j ∙ sym (has-state_at j o)))

  -- setState below the bound succeeds, changes nothing but the states, and makes `has` answer as it
  -- did, but at the index the value that was set.
  set_state_lem :
      (max_objs index : ℕ) (val : Bool) (o : SimpleObjectStorage T S)
      → index < max_objs
      → (states' : List Bool) × (set_state max_objs index val o
          ≡ ok (record o { states = states' }))
        × ((j : ℕ) → has j (record o { states = states' }) ≡ (if j == index then val else has j o))
  unfolding set_state alloc_state
  set_state_lem max_objs index val o h =
      let below : leb max_objs index ≡ false = ground arith in
      elim (dec_lt index (length o.states)) [
        | yes l ↦
            let inside : leb (length o.states) index ≡ false = ground arith in
            (
              set_at index val o.states,
              rw (below, inside),
              after_set index val o o.states l (λ j. refl),
            )
        | no n ↦
            let outside : leb (length o.states) index ≡ true = ground arith in
            let fresh = replicate (index + 1 - length o.states) false in
            (
              set_at index val (o.states ++ fresh),
              rw (below, outside),
              after_set index val o (o.states ++ fresh)
                  (omega (
                    arith,
                    length-append o.states fresh,
                    length-replicate (index + 1 - length o.states) false,
                  ))
                  (λ j. state_at-append j (index + 1 - length o.states) o.states),
            )
      ]

  free_addr_lem :
      (i : ℕ) (addr : StorageAddress) (o : SimpleObjectStorage T S)
      → StdMap.find i o.addresses ≡ some addr
      → free_addr i o
        ≡ ok (record o {
          unused_addresses = StorageHelpers.add addr.size addr o.unused_addresses;
          addresses = StdMap.erase i o.addresses;
        })
  unfolding free_addr
  free_addr_lem i addr o found = rw (free_addr, found)

  -- clear of an index below the bound that holds an object with an address succeeds: the index
  -- and no other stops to hold an object, the address is among the unused ones and not among the
  -- used, the object is not in memory, and `count` is less by the number of objects erased from
  -- memory.
  pub clear_lem :
      (max_objs i : ℕ) (addr : StorageAddress) (o : SimpleObjectStorage T S)
      → i < max_objs
      → has i o ≡ true
      → StdMap.find i o.addresses ≡ some addr
      → (o' : SimpleObjectStorage T S) × (clear max_objs i o ≡ ok o')
        × ((j : ℕ) → has j o' ≡ (if j == i then false else has j o))
        × (o'.unused_addresses ≡ StorageHelpers.add addr.size addr o.unused_addresses)
        × (o'.addresses ≡ StdMap.erase i o.addresses)
        × (o'.objects ≡ StdMap.erase i o.objects)
        × (o'.count ≡ sub64 o.count (count_erased i o.objects))
  unfolding clear
  clear_lem max_objs i addr o l held found =
      let kept = count_erased i o.objects in
      let (bits, on, answers) =
        set_state_lem max_objs i false
          (record o { objects = StdMap.erase i o.objects; count = sub64 o.count kept }) l in
      (
        record o {
          objects = StdMap.erase i o.objects;
          count = sub64 o.count kept;
          states = bits;
          unused_addresses = StorageHelpers.add addr.size addr o.unused_addresses;
          addresses = StdMap.erase i o.addresses;
        },
        rw (held, on) (free_addr_lem i addr _ found),
        answers,
        refl,
        refl,
        refl,
        refl,
      )

  -- clear of an index below the bound that holds an object with an address, but not one in
  -- memory, takes the object away and leaves `count`, a word, as it is.
  clear_count :
      (max_objs i : ℕ) (addr : StorageAddress) (o : SimpleObjectStorage T S)
      → i < max_objs
      → has i o ≡ true
      → StdMap.find i o.addresses ≡ some addr
      → StdMap.find i o.objects ≡ none
      → o.count < word
      → (o' : SimpleObjectStorage T S) × (clear max_objs i o ≡ ok o')
        × (has i o' ≡ false)
        × (o'.count ≡ o.count)
  unfolding count_erased
  clear_count max_objs i addr o l held found uncached h =
      let (o', cleared, answers, added, addrs, objs, counted) =
        clear_lem max_objs i addr o l held found in
      let same : (if i == i then false else has i o) ≡ false = ground arith in
      let minus_zero : o.count - 0 ≡ o.count = omega arith in
      let nothing : count_erased i o.objects ≡ 0 = rw (count_erased, uncached) in
      (
        o',
        cleared,
        answers i ∙ same,
        counted ∙ (ap (sub64 o.count) nothing ∙ sub64_lem o.count 0 (omega arith) h ∙ minus_zero),
      )
