-- ===== src/Pmm/Word.antt =====
-- A `uint64_t` of the bitmap as the list of its 64 bits, the lowest first. The code applies to such
-- a word only the operations below, and never does arithmetic on it.
use void_frame.Prelude.{
  ℕ, zero, suc, Bool, true, false, not, ◌&&◌, ◌||◌, List, [], ◌∷◌, ◌++◌, get_or, replicate,
}

abbrev pub word_bits : ℕ
word_bits = 64

abbrev pub Word : Type 0
Word = List Bool

abbrev pub zero_word : Word
zero_word = replicate word_bits false

-- ~0ULL
abbrev pub ones : Word
ones = replicate word_bits true

-- 1ULL
abbrev pub one : Word
one = true ∷ replicate 63 false

unfoldable pub take : ℕ → Word → Word
take zero w = []
take (suc n) [] = []
take (suc n) (b ∷ w) = b ∷ take n w

unfoldable pub drop : ℕ → Word → Word
drop zero w = w
drop (suc n) [] = []
drop (suc n) (b ∷ w) = drop n w

-- w << k, for k below 64
unfoldable pub shl : Word → ℕ → Word
unfolding take
shl w k = take word_bits (replicate k false ++ w)

-- w >> k, for k below 64
unfoldable pub shr : Word → ℕ → Word
unfolding drop
shr w k = drop k w ++ replicate k false

unfoldable pub word_and : Word → Word → Word
word_and [] v = []
word_and (a ∷ w) [] = []
word_and (a ∷ w) (b ∷ v) = (a && b) ∷ word_and w v

unfoldable pub word_or : Word → Word → Word
word_or [] v = []
word_or (a ∷ w) [] = []
word_or (a ∷ w) (b ∷ v) = (a || b) ∷ word_or w v

unfoldable pub word_not : Word → Word
word_not [] = []
word_not (a ∷ w) = not a ∷ word_not w

-- w == 0
unfoldable pub is_zero : Word → Bool
is_zero [] = true
is_zero (a ∷ w) = not a && is_zero w

-- w == ~0ULL
unfoldable pub is_ones : Word → Bool
is_ones [] = true
is_ones (a ∷ w) = a && is_ones w

-- __builtin_popcountll
unfoldable pub popcount : Word → ℕ
popcount [] = 0
popcount (true ∷ w) = suc (popcount w)
popcount (false ∷ w) = popcount w

-- __builtin_ctzll, for a word that is not 0
unfoldable pub ctz : Word → ℕ
ctz [] = 0
ctz (true ∷ w) = 0
ctz (false ∷ w) = suc (ctz w)

abbrev pub bit : Word → ℕ → Bool
bit w i = get_or w i false
