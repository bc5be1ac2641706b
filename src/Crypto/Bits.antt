-- ===== src/Crypto/Bits.antt =====
-- Words as lists of bits, the lowest first, and the operations that the checksum applies to them.
use void_frame.Prelude.{
  ℕ, zero, suc, ◌+◌, ◌*◌, ◌/◌, ◌%◌, ◌^◌, ◌-◌, ◌<◌, ◌≤◌, ◌≡◌, refl, sym, ap, ap₂, ◌∙◌, Bool-cases,
  inl, inr, ==_iff, Bool, true, false, not, List, [], ◌∷◌, ◌++◌, ◌==◌, arith, length, replicate,
}

abbrev pub Bits : Type 0
Bits = List Bool

abbrev pub xor : Bool → Bool → Bool
xor true b = not b
xor false b = b

unfoldable pub xor_bits : Bits → Bits → Bits
xor_bits [] v = []
xor_bits (a ∷ w) [] = []
xor_bits (a ∷ w) (b ∷ v) = xor a b ∷ xor_bits w v

unfoldable pub bits_of : ℕ → ℕ → Bits
bits_of zero n = []
bits_of (suc width) n = (n % 2 == 1) ∷ bits_of width (n / 2)

abbrev pub bit_value : Bool → ℕ
bit_value true = 1
bit_value false = 0

unfoldable pub value_of : Bits → ℕ
value_of [] = 0
value_of (b ∷ w) = bit_value b + 2 * value_of w

abbrev pub zeros : ℕ → Bits
zeros n = replicate n false

-- w >> 1
unfoldable pub shift_one : Bits → Bits
shift_one [] = []
shift_one (b ∷ w) = w ++ (false ∷ [])

unfoldable pub first_bits : ℕ → Bits → Bits
first_bits zero w = []
first_bits (suc n) [] = []
first_bits (suc n) (b ∷ w) = b ∷ first_bits n w

unfoldable pub drop_bits : ℕ → Bits → Bits
drop_bits zero w = w
drop_bits (suc n) [] = []
drop_bits (suc n) (b ∷ w) = drop_bits n w

unfoldable pub same_bits : Bits → Bits → Bool
same_bits [] [] = true
same_bits [] (b ∷ v) = false
same_bits (a ∷ w) [] = false
same_bits (a ∷ w) (b ∷ v) = elim (xor a b) [ true ↦ false | false ↦ same_bits w v ]

pub length-xor_bits : (w v : Bits) → length w ≡ length v → length (xor_bits w v) ≡ length w
unfolding xor_bits
length-xor_bits [] v e = refl
length-xor_bits (a ∷ w) [] e = absurd (omega arith)
length-xor_bits (a ∷ w) (b ∷ v) e = ap suc (length-xor_bits w v (omega arith))

pub length-bits_of : (width n : ℕ) → length (bits_of width n) ≡ width
unfolding bits_of
length-bits_of zero n = refl
length-bits_of (suc width) n = ap suc (length-bits_of width (n / 2))

pub length-drop_append : (w v : Bits) → drop_bits (length w) (w ++ v) ≡ v
unfolding drop_bits
length-drop_append [] v = refl
length-drop_append (b ∷ w) v = length-drop_append w v

pub first_bits-append : (w v : Bits) → first_bits (length w) (w ++ v) ≡ w
unfolding first_bits
first_bits-append [] v = refl
first_bits-append (b ∷ w) v = ap (λ u. b ∷ u) (first_bits-append w v)

pub value_of-lt : (w : Bits) → value_of w < 2 ^ length w
unfolding value_of
value_of-lt [] = omega arith
value_of-lt (true ∷ w) = let below = value_of-lt w in grind arith
value_of-lt (false ∷ w) = let below = value_of-lt w in grind arith

bits_of-zero : (k : ℕ) → bits_of k 0 ≡ zeros k
unfolding bits_of
bits_of-zero zero = refl
bits_of-zero (suc k) = ap (λ u. false ∷ u) (bits_of-zero k)

bits_of-cons :
    (width n m : ℕ) (b : Bool)
    → m ≡ bit_value b + 2 * n
    → bits_of (suc width) m ≡ b ∷ bits_of width n
unfolding bits_of
bits_of-cons width n m true e =
    let odd : (m % 2 == 1) ≡ true = ground arith in
    let half : m / 2 ≡ n = omega arith in rw (odd, half) refl
bits_of-cons width n m false e =
    let even : (m % 2 == 1) ≡ false = ground arith in
    let half : m / 2 ≡ n = omega arith in rw (even, half) refl

-- Reading a word's value back gives its bits, and zeros after them.
pub bits_of-value_of : (w : Bits) (k : ℕ) → bits_of (length w + k) (value_of w) ≡ w ++ zeros k
unfolding value_of
bits_of-value_of [] k = ap (λ n. bits_of n 0) (natural k) ∙ bits_of-zero k
  where
    natural : (n : ℕ) → 0 + n ≡ n
    natural n = omega arith
bits_of-value_of (b ∷ w) k =
    ap (λ n. bits_of n (value_of (b ∷ w))) (next (length w) k)
    ∙ bits_of-cons (length w + k) (value_of w) (value_of (b ∷ w)) b refl
    ∙ ap (λ u. b ∷ u) (bits_of-value_of w k)
  where
    next : (n m : ℕ) → suc n + m ≡ suc (n + m)
    next n m = omega arith

-- A word twice is no word.
pub xor_bits-twice : (p c : Bits) → length p ≡ length c → xor_bits p (xor_bits p c) ≡ c
unfolding xor_bits
xor_bits-twice [] [] e = refl
xor_bits-twice [] (y ∷ c) e = absurd (omega arith)
xor_bits-twice (x ∷ p) [] e = absurd (omega arith)
xor_bits-twice (x ∷ p) (y ∷ c) e = ap₂ ◌∷◌ (bit x y) (xor_bits-twice p c (omega arith))
  where
    bit : (x y : Bool) → xor x (xor x y) ≡ y
    bit x y = ground arith

pub xor_bits-zeros : (w : Bits) → xor_bits w (zeros (length w)) ≡ w
unfolding xor_bits
xor_bits-zeros [] = refl
xor_bits-zeros (true ∷ w) = ap (λ u. true ∷ u) (xor_bits-zeros w)
xor_bits-zeros (false ∷ w) = ap (λ u. false ∷ u) (xor_bits-zeros w)

pub zeros-xor_bits : (w : Bits) → xor_bits (zeros (length w)) w ≡ w
unfolding xor_bits
zeros-xor_bits [] = refl
zeros-xor_bits (b ∷ w) = ap (λ u. b ∷ u) (zeros-xor_bits w)

pub xor_bits-append :
    (a b c d : Bits)
    → length a ≡ length b
    → xor_bits (a ++ c) (b ++ d) ≡ xor_bits a b ++ xor_bits c d
unfolding xor_bits
xor_bits-append [] [] c d e = refl
xor_bits-append [] (y ∷ b) c d e = absurd (omega arith)
xor_bits-append (x ∷ a) [] c d e = absurd (omega arith)
xor_bits-append (x ∷ a) (y ∷ b) c d e =
    ap (λ u. xor x y ∷ u) (xor_bits-append a b c d (omega arith))

-- A word that is in both cancels, and one that is in one of them stands outside.
pub xor_bits-cancel :
    (p a b : Bits)
    → length p ≡ length a
    → length p ≡ length b
    → xor_bits (xor_bits p a) (xor_bits p b) ≡ xor_bits a b
unfolding xor_bits
xor_bits-cancel [] [] b e f = refl
xor_bits-cancel [] (y ∷ a) b e f = absurd (omega arith)
xor_bits-cancel (x ∷ p) [] b e f = absurd (omega arith)
xor_bits-cancel (x ∷ p) (y ∷ a) [] e f = absurd (omega arith)
xor_bits-cancel (x ∷ p) (y ∷ a) (z ∷ b) e f =
    ap₂ ◌∷◌ (bit x y z) (xor_bits-cancel p a b (omega arith) (omega arith))
  where
    bit : (x y z : Bool) → xor (xor x y) (xor x z) ≡ xor y z
    bit x y z = ground arith

pub xor_bits-left :
    (p a b : Bits)
    → length p ≡ length a
    → length p ≡ length b
    → xor_bits (xor_bits p a) b ≡ xor_bits p (xor_bits a b)
unfolding xor_bits
xor_bits-left [] a b e f = refl
xor_bits-left (x ∷ p) [] b e f = absurd (omega arith)
xor_bits-left (x ∷ p) (y ∷ a) [] e f = absurd (omega arith)
xor_bits-left (x ∷ p) (y ∷ a) (z ∷ b) e f =
    ap₂ ◌∷◌ (bit x y z) (xor_bits-left p a b (omega arith) (omega arith))
  where
    bit : (x y z : Bool) → xor (xor x y) z ≡ xor x (xor y z)
    bit x y z = ground arith

pub xor_bits_comm : (a b : Bits) → length a ≡ length b → xor_bits a b ≡ xor_bits b a
unfolding xor_bits
xor_bits_comm [] [] e = refl
xor_bits_comm [] (y ∷ b) e = absurd (omega arith)
xor_bits_comm (x ∷ a) [] e = absurd (omega arith)
xor_bits_comm (x ∷ a) (y ∷ b) e = ap₂ ◌∷◌ (bit x y) (xor_bits_comm a b (omega arith))
  where
    bit : (x y : Bool) → xor x y ≡ xor y x
    bit x y = ground arith

pub xor_bits_inj :
    (p a b : Bits) → length p ≡ length a → length p ≡ length b → xor_bits p a ≡ xor_bits p b → a ≡ b
xor_bits_inj p a b e f same =
    sym (xor_bits-twice p a e) ∙ ap (xor_bits p) same ∙ xor_bits-twice p b f

pub same_bits_sound : (w v : Bits) → same_bits w v ≡ true → w ≡ v
unfolding same_bits
same_bits_sound [] [] e = refl
same_bits_sound [] (b ∷ v) e = absurd (ground (arith, e))
same_bits_sound (a ∷ w) [] e = absurd (ground (arith, e))
same_bits_sound (true ∷ w) (true ∷ v) e = ap (λ u. true ∷ u) (same_bits_sound w v e)
same_bits_sound (true ∷ w) (false ∷ v) e = absurd (ground (arith, e))
same_bits_sound (false ∷ w) (true ∷ v) e = absurd (ground (arith, e))
same_bits_sound (false ∷ w) (false ∷ v) e = ap (λ u. false ∷ u) (same_bits_sound w v e)

pub same_bits_self : (w : Bits) → same_bits w w ≡ true
unfolding same_bits
same_bits_self [] = refl
same_bits_self (true ∷ w) = same_bits_self w
same_bits_self (false ∷ w) = same_bits_self w

pub length-first_bits : (n : ℕ) (w : Bits) → n ≤ length w → length (first_bits n w) ≡ n
unfolding first_bits
length-first_bits zero w h = refl
length-first_bits (suc n) [] h = absurd (omega arith)
length-first_bits (suc n) (b ∷ w) h = ap suc (length-first_bits n w (omega arith))

pub length-drop_bits : (n : ℕ) (w : Bits) → length (drop_bits n w) ≡ length w - n
unfolding drop_bits
length-drop_bits zero w = omega arith
length-drop_bits (suc n) [] = omega arith
length-drop_bits (suc n) (b ∷ w) = omega (arith, length-drop_bits n w)

pub value_of-bits_of : (width n : ℕ) → n < 2 ^ width → value_of (bits_of width n) ≡ n
unfolding value_of bits_of
value_of-bits_of zero n h = omega arith
value_of-bits_of (suc width) n h =
    let half : n / 2 < 2 ^ width = grind arith in
    let rest = value_of-bits_of width (n / 2) half in
    elim (Bool-cases (n % 2 == 1)) [
      | inl e ↦ let odd = (==_iff (n % 2) 1).0 e in rw e (omega (arith, rest, odd))
      | inr e ↦ let even : n % 2 ≡ 0 = ground arith in rw e (omega (arith, rest, even))
    ]
