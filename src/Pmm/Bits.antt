-- ===== src/Pmm/Bits.antt =====
-- The bits of the words that mm/PMem.c computes.
use void_frame.Prelude.{
  ℕ, zero, suc, ◌+◌, ◌-◌, ◌≤◌, ◌<◌, ◌≡◌, refl, sym, ap, ap₂, ◌∙◌, inl, inr, Bool, true, false, not,
  ◌&&◌, ◌||◌, [], ◌∷◌, ◌++◌, ltb, leb, ◌==◌, if◌then◌else◌, arith, length, set, length-set,
  get_or-set_self, get_or-set_ne, replicate, length-append, length-replicate, get_or-replicate,
  Bool-cases,
}
use void_frame.Pmm.Word.{
  Word, word_bits, zero_word, ones, one, bit, take, drop, shl, shr, word_and, word_or, word_not,
  is_zero, is_ones, popcount, ctz,
}

pub bit-word_and :
    (w v : Word) (i : ℕ) → length w ≡ length v → bit (word_and w v) i ≡ (bit w i && bit v i)
unfolding word_and
bit-word_and [] v i h = refl
bit-word_and (a ∷ w) [] i h = absurd (omega arith)
bit-word_and (a ∷ w) (b ∷ v) zero h = refl
bit-word_and (a ∷ w) (b ∷ v) (suc i) h = bit-word_and w v i (omega arith)

pub bit-word_or :
    (w v : Word) (i : ℕ) → length w ≡ length v → bit (word_or w v) i ≡ (bit w i || bit v i)
unfolding word_or
bit-word_or [] [] i h = refl
bit-word_or [] (b ∷ v) i h = absurd (omega arith)
bit-word_or (a ∷ w) [] i h = absurd (omega arith)
bit-word_or (a ∷ w) (b ∷ v) zero h = refl
bit-word_or (a ∷ w) (b ∷ v) (suc i) h = bit-word_or w v i (omega arith)

pub bit-word_not : (w : Word) (i : ℕ) → i < length w → bit (word_not w) i ≡ not (bit w i)
unfolding word_not
bit-word_not [] i h = absurd (omega arith)
bit-word_not (a ∷ w) zero h = refl
bit-word_not (a ∷ w) (suc i) h = bit-word_not w i (omega arith)

pub length-word_and : (w v : Word) → length w ≡ length v → length (word_and w v) ≡ length w
unfolding word_and
length-word_and [] v h = refl
length-word_and (a ∷ w) [] h = absurd (omega arith)
length-word_and (a ∷ w) (b ∷ v) h = ap suc (length-word_and w v (omega arith))

pub length-word_or : (w v : Word) → length w ≡ length v → length (word_or w v) ≡ length w
unfolding word_or
length-word_or [] v h = refl
length-word_or (a ∷ w) [] h = absurd (omega arith)
length-word_or (a ∷ w) (b ∷ v) h = ap suc (length-word_or w v (omega arith))

pub length-word_not : (w : Word) → length (word_not w) ≡ length w
unfolding word_not
length-word_not [] = refl
length-word_not (a ∷ w) = ap suc (length-word_not w)

bit-take : (n : ℕ) (w : Word) (i : ℕ) → i < n → bit (take n w) i ≡ bit w i
unfolding take
bit-take zero w i h = absurd (omega arith)
bit-take (suc n) [] i h = refl
bit-take (suc n) (b ∷ w) zero h = refl
bit-take (suc n) (b ∷ w) (suc i) h = bit-take n w i (omega arith)

length-take : (n : ℕ) (w : Word) → n ≤ length w → length (take n w) ≡ n
unfolding take
length-take zero w h = refl
length-take (suc n) [] h = absurd (omega arith)
length-take (suc n) (b ∷ w) h = ap suc (length-take n w (omega arith))

bit-pad :
    (k : ℕ) (w : Word) (i : ℕ)
    → bit (replicate k false ++ w) i ≡ (if ltb i k then false else bit w (i - k))
bit-pad zero w i = ground (arith, sub_zero)
  where
    sub_zero : i - 0 ≡ i
    sub_zero = omega arith
bit-pad (suc k) w zero = ground arith
bit-pad (suc k) w (suc i) =
    let less : suc i - suc k ≡ i - k = omega arith in rw less (ground (arith, bit-pad k w i))

pub bit-replicate : (n i : ℕ) → i < n → bit (replicate n true) i ≡ true
bit-replicate zero i h = absurd (omega arith)
bit-replicate (suc n) zero h = refl
bit-replicate (suc n) (suc i) h = bit-replicate n i (omega arith)

-- The bits of ~0ULL << k are those from k on.
pub bit-shl-ones : (k i : ℕ) → i < word_bits → bit (shl ones k) i ≡ leb k i
unfolding shl
bit-shl-ones k i h =
    bit-take word_bits (replicate k false ++ ones) i h
    ∙ bit-pad k ones i
    ∙ ground (arith, bit-replicate word_bits (i - k))

bit-one : (j : ℕ) → bit one j ≡ (j == 0)
bit-one zero = refl
bit-one (suc j) = ground (arith, get_or-replicate 63 j false)

-- 1ULL << k has the bit k and no other.
pub bit-shl-one : (k i : ℕ) → i < word_bits → bit (shl one k) i ≡ (i == k)
unfolding shl
bit-shl-one k i h =
    bit-take word_bits (replicate k false ++ one) i h
    ∙ bit-pad k one i
    ∙ ground (arith, bit-one (i - k))

bit-drop : (k : ℕ) (w : Word) (i : ℕ) → bit (drop k w) i ≡ bit w (k + i)
unfolding drop
bit-drop zero w i = let e : i ≡ 0 + i = omega arith in ap (bit w) e
bit-drop (suc k) [] i = refl
bit-drop (suc k) (b ∷ w) i =
    let e : suc (k + i) ≡ suc k + i = omega arith in bit-drop k w i ∙ ap (bit (b ∷ w)) e

bit-append-replicate : (w : Word) (k i : ℕ) → bit (w ++ replicate k false) i ≡ bit w i
bit-append-replicate [] k i = get_or-replicate k i false
bit-append-replicate (b ∷ w) k zero = refl
bit-append-replicate (b ∷ w) k (suc i) = bit-append-replicate w k i

bit_outside : (w : Word) (i : ℕ) → length w ≤ i → bit w i ≡ false
bit_outside [] i h = refl
bit_outside (b ∷ w) zero h = absurd (omega arith)
bit_outside (b ∷ w) (suc i) h = bit_outside w i (omega arith)

-- The bits of ~0ULL >> (63 - e) are those up to e.
pub bit-shr-ones : (e i : ℕ) → e < word_bits → i < word_bits → bit (shr ones (63 - e)) i ≡ leb i e
unfolding shr
bit-shr-ones e i h p =
    bit-append-replicate (drop (63 - e) ones) (63 - e) i
    ∙ bit-drop (63 - e) ones i
    ∙ ground (arith, bit-replicate word_bits (63 - e + i), bit_outside ones (63 - e + i))

pub length-shl : (w : Word) (k : ℕ) → length w ≡ word_bits → length (shl w k) ≡ word_bits
unfolding shl
length-shl w k h =
    length-take word_bits (replicate k false ++ w)
      (omega (arith, length-append (replicate k false) w))

length-drop : (k : ℕ) (w : Word) → length (drop k w) ≡ length w - k
unfolding drop
length-drop zero w = omega arith
length-drop (suc k) [] = omega arith
length-drop (suc k) (b ∷ w) = omega (arith, length-drop k w)

pub length-shr :
    (w : Word) (k : ℕ) → length w ≡ word_bits → k ≤ word_bits → length (shr w k) ≡ word_bits
unfolding shr
length-shr w k h p =
    omega (
      arith,
      length-append (drop k w) (replicate k false),
      length-drop k w,
      length-replicate k false,
    )

-- Two words with the same bits are equal.
pub bits_ext :
    (w v : Word) → length w ≡ length v → ((i : ℕ) → i < length w → bit w i ≡ bit v i) → w ≡ v
bits_ext [] [] h same = refl
bits_ext [] (b ∷ v) h same = absurd (omega arith)
bits_ext (a ∷ w) [] h same = absurd (omega arith)
bits_ext (a ∷ w) (b ∷ v) h same =
    ap₂ ◌∷◌ (same 0 (omega arith)) (bits_ext w v (omega arith) (λ i p. same (suc i) (omega arith)))

pub is_zero-bit : (w : Word) (i : ℕ) → is_zero w ≡ true → bit w i ≡ false
unfolding is_zero
is_zero-bit [] i h = refl
is_zero-bit (a ∷ w) zero h = ground arith
is_zero-bit (a ∷ w) (suc i) h = is_zero-bit w i (ground arith)

pub is_zero_of_bits : (w : Word) → ((i : ℕ) → i < length w → bit w i ≡ false) → is_zero w ≡ true
unfolding is_zero
is_zero_of_bits [] h = refl
is_zero_of_bits (a ∷ w) h =
    let first = h 0 (omega arith) in
    ground (arith, is_zero_of_bits w (λ i p. h (suc i) (omega arith)))

pub is_ones-bit : (w : Word) (i : ℕ) → i < length w → is_ones w ≡ true → bit w i ≡ true
unfolding is_ones
is_ones-bit [] i p h = absurd (omega arith)
is_ones-bit (a ∷ w) zero p h = ground arith
is_ones-bit (a ∷ w) (suc i) p h = is_ones-bit w i (omega arith) (ground arith)

-- In a word that is not full, ctz of the complement is the lowest bit that is not set.
pub ctz-word_not :
    (w : Word)
    → is_ones w ≡ false
    → (ctz (word_not w) < length w)
      × (bit w (ctz (word_not w)) ≡ false)
      × ((j : ℕ) → j < ctz (word_not w) → bit w j ≡ true)
unfolding is_ones ctz word_not
ctz-word_not [] h = cc
ctz-word_not (false ∷ w) h = (omega arith, refl, λ j p. absurd (omega arith))
ctz-word_not (true ∷ w) h =
    let (inside, free, below) = ctz-word_not w h in (omega arith, free, after below)
  where
    after :
        ((j : ℕ) → j < ctz (word_not w) → bit w j ≡ true)
        → (j : ℕ) → j < suc (ctz (word_not w))
        → bit (true ∷ w) j ≡ true
    after below zero p = refl
    after below (suc j) p = below j (omega arith)

pub popcount-le : (w : Word) → popcount w ≤ length w
unfolding popcount
popcount-le [] = omega arith
popcount-le (true ∷ w) = omega (arith, popcount-le w)
popcount-le (false ∷ w) = omega (arith, popcount-le w)

pub popcount-set-true :
    (w : Word) (i : ℕ) → i < length w → bit w i ≡ false → popcount (set w i true) ≡ popcount w + 1
unfolding popcount
popcount-set-true [] i h e = absurd (omega arith)
popcount-set-true (true ∷ w) zero h e = cc
popcount-set-true (false ∷ w) zero h e = omega arith
popcount-set-true (true ∷ w) (suc i) h e = omega (arith, popcount-set-true w i (omega arith) e)
popcount-set-true (false ∷ w) (suc i) h e = popcount-set-true w i (omega arith) e

pub popcount-set-false :
    (w : Word) (i : ℕ) → i < length w → bit w i ≡ true → popcount (set w i false) + 1 ≡ popcount w
unfolding popcount
popcount-set-false [] i h e = absurd (omega arith)
popcount-set-false (true ∷ w) zero h e = omega arith
popcount-set-false (false ∷ w) zero h e = cc
popcount-set-false (true ∷ w) (suc i) h e = omega (arith, popcount-set-false w i (omega arith) e)
popcount-set-false (false ∷ w) (suc i) h e = popcount-set-false w i (omega arith) e

pub bit-set :
    (w : Word) (k i : ℕ) (b : Bool)
    → k < length w
    → bit (set w k b) i ≡ (if i == k then b else bit w i)
bit-set w k i b h = elim (Bool-cases (i == k)) [
  | inl e ↦ let same : i ≡ k = ground arith in rw (e, same) (get_or-set_self w k b false h)
  | inr e ↦ rw e (get_or-set_ne w k i b false (λ p. ground arith))
]

-- Setting, clearing and testing a bit through the mask 1ULL << k.
pub word_or-shl-one :
    (w : Word) (k : ℕ) → length w ≡ word_bits → k < word_bits → word_or w (shl one k) ≡ set w k true
word_or-shl-one w k h p =
    bits_ext _ _ (length-word_or w (shl one k) same ∙ sym (length-set w k true)) λ i q.
      let inside : i < word_bits = omega (arith, length-word_or w (shl one k) same) in
      ground (
        arith,
        bit-word_or w (shl one k) i same,
        bit-shl-one k i inside,
        bit-set w k i true (omega arith),
      )
  where
    same : length w ≡ length (shl one k)
    same = h ∙ sym (length-shl one k refl)

pub word_and-word_not-shl-one :
    (w : Word) (k : ℕ)
    → length w ≡ word_bits
    → k < word_bits
    → word_and w (word_not (shl one k)) ≡ set w k false
word_and-word_not-shl-one w k h p =
    bits_ext _ _ (length-word_and w _ same ∙ sym (length-set w k false)) λ i q.
      let inside : i < word_bits = omega (arith, length-word_and w _ same) in
      ground (
        arith,
        bit-word_and w (word_not (shl one k)) i same,
        bit-word_not (shl one k) i (omega (arith, length-shl one k refl)),
        bit-shl-one k i inside,
        bit-set w k i false (omega arith),
      )
  where
    same : length w ≡ length (word_not (shl one k))
    same = h ∙ sym (length-word_not (shl one k) ∙ length-shl one k refl)

pub is_zero-word_and-shl-one :
    (w : Word) (k : ℕ)
    → length w ≡ word_bits
    → k < word_bits
    → is_zero (word_and w (shl one k)) ≡ not (bit w k)
is_zero-word_and-shl-one w k h p = elim (Bool-cases (bit w k)) [
  | inl set_bit ↦ elim (Bool-cases (is_zero (word_and w (shl one k)))) [
    | inl z ↦ ground (arith, is_zero-bit (word_and w (shl one k)) k z, masked k p)
    | inr nz ↦ ground arith
  ]
  | inr clear ↦ rw clear (
      is_zero_of_bits _ (λ i q.
        let inside : i < word_bits = omega (arith, length-word_and w _ same) in
        ground (arith, masked i inside)))
]
  where
    same : length w ≡ length (shl one k)
    same = h ∙ sym (length-shl one k refl)

    masked : (i : ℕ) → i < word_bits → bit (word_and w (shl one k)) i ≡ (bit w i && i == k)
    masked i q = bit-word_and w (shl one k) i same ∙ ap (λ b. bit w i && b) (bit-shl-one k i q)

pub bit-zero_word : (i : ℕ) → bit zero_word i ≡ false
bit-zero_word i = get_or-replicate word_bits i false

pub popcount-ones : popcount ones ≡ word_bits
unfolding popcount
popcount-ones = refl

pub popcount-zero_word : popcount zero_word ≡ 0
unfolding popcount
popcount-zero_word = refl
