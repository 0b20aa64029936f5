-- ===== src/Base/Words.antt =====
-- uint64_t and size_t: 64-bit unsigned words, as native numbers with the wrap-around written out.
use Prim.Native.Nat.{ℕ, suc, ◌+◌, ◌-◌, ◌%◌, ◌^◌, ◌≤◌, ◌<◌}
use mathlib.Core.Path.{◌≡◌}
use native.Mathlib.Omega.{arith}

abbrev pub word : ℕ
word = 2 ^ 64

abbrev pub word_max : ℕ
word_max = 2 ^ 64 - 1

-- a + b and a - b on words.
unfoldable pub add64 : ℕ → ℕ → ℕ
add64 a b = (a + b) % word

unfoldable pub sub64 : ℕ → ℕ → ℕ
sub64 a b = (a + word - b) % word

pub add64_lem : (a b : ℕ) → a + b < word → add64 a b ≡ a + b
unfolding add64
add64_lem a b h = omega arith

pub sub64_lem : (a b : ℕ) → b ≤ a → a < word → sub64 a b ≡ a - b
unfolding sub64
sub64_lem a b h l = omega arith

pub add64-lt : (a b : ℕ) → add64 a b < word
unfolding add64
add64-lt a b = omega arith

pub sub64-lt : (a b : ℕ) → sub64 a b < word
unfolding sub64
sub64-lt a b = omega arith

-- ++ and -- at a word that is not the last, or the first.
pub add64_one : (a b : ℕ) → a < b → b < word → add64 a 1 ≡ suc a
unfolding add64
add64_one a b h w = omega arith

pub sub64_one : (a b : ℕ) → 0 < a → a ≤ b → b < word → sub64 a 1 ≡ a - 1
unfolding sub64
sub64_one a b h l w = omega arith
