-- ===== src/RandomMemoryAccess/Laws.antt =====
-- Which bytes a write to mapped memory changes.
use direct_libstorage.Base.{
  ℕ, zero, suc, ◌+◌, ◌-◌, ◌≤◌, ◌<◌, ◌≡◌, refl, ap, ◌∙◌, true, Option, none, some, [], ◌∷◌, ◌++◌, ok,
  ltb, leb, ◌&&◌, if◌then◌else◌, length, take, drop, arith, length-append, length-take, length-drop,
  take-append, drop-append,
}
use direct_libstorage.Serialize.{Bytes}
use direct_libstorage.RandomMemoryAccess.{RandomMemoryAccess, overwrite, write, readb}

-- The byte at an offset.
unfoldable pub byte_at : ℕ → Bytes → Option ℕ
byte_at x [] = none
byte_at zero (b ∷ bs) = some b
byte_at (suc x) (b ∷ bs) = byte_at x bs

byte_at-append :
    (x : ℕ) (xs ys : Bytes)
    → byte_at x (xs ++ ys)
      ≡ (if ltb x (length xs) then byte_at x xs else byte_at (x - length xs) ys)
unfolding byte_at
byte_at-append x [] ys = ground arith
byte_at-append zero (b ∷ xs) ys = ground arith
byte_at-append (suc x) (b ∷ xs) ys = let rest = byte_at-append x xs ys in ground arith

pub byte_at-take : (x n : ℕ) (xs : Bytes) → x < n → byte_at x (take n xs) ≡ byte_at x xs
unfolding byte_at
byte_at-take x zero xs h = absurd (omega arith)
byte_at-take x (suc n) [] h = refl
byte_at-take zero (suc n) (b ∷ xs) h = refl
byte_at-take (suc x) (suc n) (b ∷ xs) h = byte_at-take x n xs (omega arith)

pub byte_at-drop : (x n : ℕ) (xs : Bytes) → byte_at x (drop n xs) ≡ byte_at (n + x) xs
unfolding byte_at
byte_at-drop x zero xs = ap (λ z. byte_at z xs) (omega arith)
byte_at-drop x (suc n) [] = refl
byte_at-drop x (suc n) (b ∷ xs) =
    let same : suc (n + x) ≡ suc n + x = omega arith in
    byte_at-drop x n xs ∙ ap (λ z. byte_at z (b ∷ xs)) same

byte_at-overwrite :
    (x offset : ℕ) (bytes mem : Bytes)
    → offset + length bytes ≤ length mem
    → byte_at x (overwrite offset bytes mem) ≡ (
        if leb offset x && ltb x (offset + length bytes)
        then byte_at (x - offset) bytes
        else byte_at x mem)
unfolding overwrite
byte_at-overwrite x offset bytes mem h =
    let end = offset + length bytes in
    let inside : x < offset → byte_at x (take offset mem) ≡ byte_at x mem =
      λ l. byte_at-take x offset mem l in
    let behind : end ≤ x → byte_at (x - offset - length bytes) (drop end mem) ≡ byte_at x mem = λ l.
      byte_at-drop (x - offset - length bytes) end mem ∙ ap (λ z. byte_at z mem) (omega arith) in
    rw
      (
        byte_at-append x (take offset mem) (bytes ++ drop end mem),
        length-take offset mem (omega arith),
        byte_at-append (x - offset) bytes (drop end mem),
      )
      (ground (arith, inside, behind))

-- A write inside open memory succeeds; its range then reads as what was written, the size of the
-- memory stays, and every byte outside of the range is as before.
pub write_lem :
    (offset : ℕ) (bytes : Bytes) (r : RandomMemoryAccess)
    → r.is_open ≡ true
    → offset + length bytes ≤ length r.membase
    → (r' : RandomMemoryAccess) × (write offset bytes r ≡ ok r')
      × (readb offset (length bytes) r' ≡ ok bytes)
      × (length r'.membase ≡ length r.membase)
      × ((x : ℕ)
          → byte_at x r'.membase ≡ (
              if leb offset x && ltb x (offset + length bytes)
              then byte_at (x - offset) bytes
              else byte_at x r.membase))
unfolding write readb overwrite
write_lem offset bytes r o h =
    let end = offset + length bytes in
    let mem = overwrite offset bytes r.membase in
    let same : length mem ≡ length r.membase = omega (
      arith,
      length-append (take offset r.membase) (bytes ++ drop end r.membase),
      length-append bytes (drop end r.membase),
      length-take offset r.membase (omega arith),
      length-drop end r.membase,
    ) in
    let fits : leb end (length r.membase) ≡ true = ground arith in
    let fits' : leb end (length mem) ≡ true = ground arith in
    let back : take (length bytes) (drop offset mem) ≡ bytes =
      rw
        (drop-append offset (take offset r.membase) (bytes ++ drop end r.membase)
          (length-take offset r.membase (omega arith)))
        (take-append (length bytes) bytes (drop end r.membase) refl) in
    (
      record r { membase = mem },
      rw (o, fits),
      rw (o, fits', back),
      same,
      λ x. byte_at-overwrite x offset bytes r.membase h,
    )
