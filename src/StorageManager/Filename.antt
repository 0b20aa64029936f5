-- ===== src/StorageManager/Filename.antt =====
-- generate_filename_from_argv of src/libstorage.cpp. A string is the list of its characters' codes;
-- `absolute` is std::filesystem::absolute, on strings.
use direct_libstorage.Base.{
  ℕ, Bool, ◌≡◌, refl, List, [], ◌∷◌, ◌==◌, ◌||◌, if◌then◌else◌, false, map, arith,
}

-- std::replace
unfoldable pub replace : ℕ → ℕ → List ℕ → List ℕ
replace old new [] = []
replace old new (c ∷ cs) = (if c == old then new else c) ∷ replace old new cs

abbrev pub slash : ℕ
slash = 47

abbrev pub backslash : ℕ
backslash = 92

abbrev pub colon : ℕ
colon = 58

abbrev pub dot : ℕ
dot = 46

abbrev pub underscore : ℕ
underscore = 95

unfoldable pub generate_filename_from_argv : (List ℕ → List ℕ) → List ℕ → List ℕ
unfolding replace
generate_filename_from_argv absolute execname = replace dot underscore (
    replace colon underscore
      (replace backslash underscore (replace slash underscore (absolute execname))))

-- The characters of a path that are not kept.
abbrev pub is_separator : ℕ → Bool
is_separator c = (c == slash) || (c == backslash) || (c == colon) || (c == dot)

-- What becomes of a character.
abbrev pub safe : ℕ → ℕ
safe c = if is_separator c then underscore else c

replace_all :
    (cs : List ℕ)
    → replace dot underscore
        (replace colon underscore (replace backslash underscore (replace slash underscore cs)))
      ≡ map safe cs
unfolding replace
replace_all [] = refl
replace_all (c ∷ cs) = ground (arith, replace_all cs)

-- The file name is the absolute path with `_` in place of every `/`, `\`, `:` and `.`, and none of
-- these characters is left.
filename_lem :
    (absolute : List ℕ → List ℕ) (execname : List ℕ)
    → (generate_filename_from_argv absolute execname ≡ map safe (absolute execname))
      × ((c : ℕ) → is_separator (safe c) ≡ false)
unfolding generate_filename_from_argv
filename_lem absolute execname = (replace_all (absolute execname), λ c. ground arith)
