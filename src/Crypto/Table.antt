-- ===== src/Crypto/Table.antt =====
-- The table of CRC32 does eight rounds of the bitwise checksum at once.
use mathlib.Core.List.{append_assoc, append-nil}
use void_frame.Prelude.{
  ℕ, zero, suc, ◌+◌, ◌^◌, ◌<◌, ◌≡◌, refl, sym, ap, ap₂, subst, ◌∙◌, true, false, List, [], ◌∷◌,
  ◌++◌, arith, length, length-append, get_or, get_or-tabulate,
}
use void_frame.Crypto.Bits.{
  Bits, xor_bits, bits_of, value_of, zeros, shift_one, first_bits, drop_bits, length-xor_bits,
  length-drop_append, first_bits-append, value_of-lt, bits_of-value_of, xor_bits-zeros,
  zeros-xor_bits, xor_bits-append, xor_bits-cancel, xor_bits-left, xor_bits_comm,
}
use void_frame.Crypto.Crc.{
  polynomial, crc_round, crc_rounds, crc32_table, widen, shift_byte, crc32_update, crc32_loop,
  all_ones, crc32,
}

pub crc_round-length : (w : Bits) → length w ≡ 32 → length (crc_round w) ≡ 32
unfolding crc_round shift_one
crc_round-length [] e = e
crc_round-length (true ∷ w) e =
    length-xor_bits polynomial (w ++ (false ∷ [])) (omega (arith, e, length-append w (false ∷ [])))
crc_round-length (false ∷ w) e = omega (arith, e, length-append w (false ∷ []))

pub crc_rounds-length : (n : ℕ) (w : Bits) → length w ≡ 32 → length (crc_rounds n w) ≡ 32
unfolding crc_rounds
crc_rounds-length zero w e = e
crc_rounds-length (suc n) w e = crc_rounds-length n (crc_round w) (crc_round-length w e)

shifted-xor :
    (w v : Bits)
    → length w ≡ length v
    → xor_bits w v ++ (false ∷ []) ≡ xor_bits (w ++ (false ∷ [])) (v ++ (false ∷ []))
unfolding xor_bits
shifted-xor w v e = sym (xor_bits-append w v (false ∷ []) (false ∷ []) e)

-- A round of the sum of two words is the sum of their rounds.
crc_round-xor :
    (a b : Bits)
    → length a ≡ 32
    → length b ≡ 32
    → crc_round (xor_bits a b) ≡ xor_bits (crc_round a) (crc_round b)
unfolding crc_round xor_bits shift_one
crc_round-xor [] b e f = absurd (omega arith)
crc_round-xor (x ∷ a) [] e f = absurd (omega arith)
crc_round-xor (true ∷ a) (true ∷ b) e f =
    shifted-xor a b (omega arith)
    ∙ sym (
        xor_bits-cancel polynomial (a ++ (false ∷ [])) (b ++ (false ∷ []))
          (omega (arith, e, length-append a (false ∷ [])))
          (omega (arith, f, length-append b (false ∷ []))))
crc_round-xor (true ∷ a) (false ∷ b) e f =
    ap (xor_bits polynomial) (shifted-xor a b (omega arith))
    ∙ sym (
        xor_bits-left polynomial (a ++ (false ∷ [])) (b ++ (false ∷ []))
          (omega (arith, e, length-append a (false ∷ [])))
          (omega (arith, f, length-append b (false ∷ []))))
crc_round-xor (false ∷ a) (true ∷ b) e f =
    let la = length-append a (false ∷ []) in
    let lb = length-append b (false ∷ []) in
    let v = a ++ (false ∷ []) in
    let w = b ++ (false ∷ []) in
    ap (xor_bits polynomial) (shifted-xor a b (omega arith) ∙ xor_bits_comm v w (omega arith))
    ∙ sym (xor_bits-left polynomial w v (omega arith) (omega arith))
    ∙ xor_bits_comm (xor_bits polynomial w) v
        (omega (arith, length-xor_bits polynomial w (omega arith)))
crc_round-xor (false ∷ a) (false ∷ b) e f = shifted-xor a b (omega arith)

crc_rounds-xor :
    (n : ℕ) (a b : Bits)
    → length a ≡ 32
    → length b ≡ 32
    → crc_rounds n (xor_bits a b) ≡ xor_bits (crc_rounds n a) (crc_rounds n b)
unfolding crc_rounds
crc_rounds-xor zero a b e f = refl
crc_rounds-xor (suc n) a b e f =
    ap (crc_rounds n) (crc_round-xor a b e f)
    ∙ crc_rounds-xor n (crc_round a) (crc_round b) (crc_round-length a e) (crc_round-length b f)

-- As many rounds as a word has zeros at its low end only shift it.
crc_rounds-zeros : (n : ℕ) (w : Bits) → crc_rounds n (zeros n ++ w) ≡ w ++ zeros n
unfolding crc_rounds crc_round shift_one
crc_rounds-zeros zero w = sym (append-nil w)
crc_rounds-zeros (suc n) w =
    ap (crc_rounds n) (append_assoc (zeros n) w (false ∷ []))
    ∙ crc_rounds-zeros n (w ++ (false ∷ []))
    ∙ append_assoc w (false ∷ []) (zeros n)

-- A word of 32 bits is its low byte and the rest.
split_byte :
    (w : Bits)
    → length w ≡ 32
    → (lo : Bits) × (hi : Bits) × (w ≡ lo ++ hi) × (length lo ≡ 8) × (length hi ≡ 24)
split_byte w e = go 8 w 24 e
  where
    go :
        (n : ℕ) (v : Bits) (m : ℕ)
        → length v ≡ n + m
        → (lo : Bits) × (hi : Bits) × (v ≡ lo ++ hi) × (length lo ≡ n) × (length hi ≡ m)
    go zero v m f = ([], v, refl, refl, omega arith)
    go (suc n) [] m f = absurd (omega arith)
    go (suc n) (b ∷ v) m f =
        let (lo, hi, same, a, c) = go n v m (omega arith) in
        (b ∷ lo, hi, ap (λ u. b ∷ u) same, ap suc a, c)

table_entry :
    (lo : Bits)
    → length lo ≡ 8
    → get_or crc32_table (value_of lo) [] ≡ crc_rounds 8 (lo ++ zeros 24)
unfolding crc32_table
table_entry lo e =
    let small = value_of-lt lo in
    let width : 32 ≡ length lo + 24 = omega (arith, e) in
    get_or-tabulate 256 (λ i. crc_rounds 8 (bits_of 32 i)) (value_of lo) []
      (omega (arith, subst (λ n. value_of lo < 2 ^ n) e small))
    ∙ ap (crc_rounds 8) (ap (λ n. bits_of n (value_of lo)) width ∙ bits_of-value_of lo 24)

-- A low byte and the rest: the rounds of the whole.
rounds_split :
    (lo hi : Bits)
    → length lo ≡ 8
    → length hi ≡ 24
    → crc_rounds 8 (lo ++ hi) ≡ xor_bits (crc_rounds 8 (lo ++ zeros 24)) (hi ++ zeros 8)
rounds_split lo hi e f =
    ap (crc_rounds 8) (sym parts)
    ∙ crc_rounds-xor 8 (lo ++ zeros 24) (zeros 8 ++ hi)
        (omega (arith, e, length-append lo (zeros 24)))
        (omega (arith, f, length-append (zeros 8) hi))
    ∙ ap (xor_bits (crc_rounds 8 (lo ++ zeros 24))) (crc_rounds-zeros 8 hi)
  where
    parts : xor_bits (lo ++ zeros 24) (zeros 8 ++ hi) ≡ lo ++ hi
    parts =
        xor_bits-append lo (zeros 8) (zeros 24) hi e
        ∙ ap₂ ◌++◌ (ap (λ n. xor_bits lo (zeros n)) (sym e) ∙ xor_bits-zeros lo)
            (ap (λ n. xor_bits (zeros n) hi) (sym f) ∙ zeros-xor_bits hi)

crc32_update_lem :
    (crc byte : Bits)
    → crc32_update crc byte
      ≡ xor_bits
          (get_or crc32_table (value_of (first_bits 8 (xor_bits crc (widen byte)))) [])
          (shift_byte crc)
unfolding crc32_update
crc32_update_lem crc byte = refl

-- The table step on a word and a byte is eight bitwise rounds on the word with the byte in its low
-- end.
pub crc32_update-crc_rounds :
    (crc byte : Bits)
    → length crc ≡ 32
    → length byte ≡ 8
    → crc32_update crc byte ≡ crc_rounds 8 (xor_bits crc (widen byte))
crc32_update-crc_rounds crc byte e f =
    let (lo, hi, same, a, c) = split_byte crc e in
    ap (λ w. crc32_update w byte) same
    ∙ step lo hi a c
    ∙ ap (λ w. crc_rounds 8 (xor_bits w (widen byte))) (sym same)
  where
    step :
        (lo hi : Bits)
        → length lo ≡ 8
        → length hi ≡ 24
        → crc32_update (lo ++ hi) byte ≡ crc_rounds 8 (xor_bits (lo ++ hi) (widen byte))
    step lo hi a c =
        let low = xor_bits lo byte in
        let mixed : xor_bits (lo ++ hi) (widen byte) ≡ low ++ hi =
          xor_bits-append lo byte hi (zeros 24) (omega (arith, a, f))
          ∙ ap (λ v. low ++ v) (ap (λ n. xor_bits hi (zeros n)) (sym c) ∙ xor_bits-zeros hi) in
        let width : length low ≡ 8 =
          omega (arith, a, length-xor_bits lo byte (omega (arith, a, f))) in
        let index : first_bits 8 (low ++ hi) ≡ low =
          ap (λ n. first_bits n (low ++ hi)) (sym width) ∙ first_bits-append low hi in
        let rest : drop_bits 8 (lo ++ hi) ≡ hi =
          ap (λ n. drop_bits n (lo ++ hi)) (sym a) ∙ length-drop_append lo hi in
        crc32_update_lem (lo ++ hi) byte
        ∙ ap₂ xor_bits
            (ap (λ w. get_or crc32_table (value_of (first_bits 8 w)) []) mixed
              ∙ ap (λ w. get_or crc32_table (value_of w) []) index
              ∙ table_entry low width)
            (ap (λ w. w ++ zeros 8) rest)
        ∙ sym (rounds_split low hi width c)
        ∙ ap (crc_rounds 8) (sym mixed)

-- The checksum that does eight rounds for each byte, without a table.
unfoldable pub bitwise_loop : Bits → List Bits → Bits
bitwise_loop crc [] = crc
bitwise_loop crc (byte ∷ bytes) = bitwise_loop (crc_rounds 8 (xor_bits crc (widen byte))) bytes

-- A list of bytes.
abbrev pub AllBytes : List Bits → Type 0
AllBytes [] = Unit {0}
AllBytes (byte ∷ bytes) = (length byte ≡ 8) × AllBytes bytes

loop-bitwise_loop :
    (bytes : List Bits) (crc : Bits)
    → AllBytes bytes
    → length crc ≡ 32
    → crc32_loop crc bytes ≡ bitwise_loop crc bytes
unfolding crc32_loop bitwise_loop
loop-bitwise_loop [] crc all e = refl
loop-bitwise_loop (byte ∷ bytes) crc (w, all) e =
    let step = crc32_update-crc_rounds crc byte e w in
    let mixed : length (xor_bits crc (widen byte)) ≡ 32 = omega (
      arith,
      e,
      length-xor_bits crc (widen byte) (omega (arith, e, w, length-append byte (zeros 24))),
    ) in
    ap (λ c. crc32_loop c bytes) step
    ∙ loop-bitwise_loop bytes (crc_rounds 8 (xor_bits crc (widen byte))) all
        (crc_rounds-length 8 _ mixed)

-- CRC32 of a list of bytes, computed with the table, is the bitwise checksum: from all ones, eight
-- rounds of the polynomial for each byte, and all bits flipped at the end.
pub crc32-bitwise_loop :
    (bytes : List Bits)
    → AllBytes bytes
    → crc32 bytes ≡ xor_bits (bitwise_loop all_ones bytes) all_ones
unfolding crc32
crc32-bitwise_loop bytes all =
    ap (λ c. xor_bits c all_ones) (loop-bitwise_loop bytes all_ones all refl)
