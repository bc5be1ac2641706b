-- ===== src/Crypto/Detect.antt =====
-- The checksum tells apart contents that differ in one byte.
use mathlib.Core.List.{head-eq_of_cons-eq, tail-eq_of_cons-eq}
use void_frame.Prelude.{
  ℕ, zero, suc, ◌≡◌, refl, sym, ap, ap₂, ◌∙◌, Bool, true, false, List, [], ◌∷◌, ◌++◌, arith, length,
  length-append,
}
use void_frame.Crypto.Bits.{
  Bits, xor_bits, bits_of, zeros, shift_one, first_bits, length-xor_bits, xor_bits-append,
  xor_bits_inj, xor_bits_comm,
}
use void_frame.Crypto.Crc.{
  polynomial, crc_round, crc_rounds, widen, crc32_update, crc32_loop, all_ones, crc32,
}
use void_frame.Crypto.Table.{crc_round-length, crc_rounds-length, crc32_update-crc_rounds, AllBytes}

-- The last bit of a list, and what stands before it.
snoc_inj :
    (w v : Bits) (a b : Bool)
    → length w ≡ length v
    → w ++ (a ∷ []) ≡ v ++ (b ∷ [])
    → (w ≡ v) × (a ≡ b)
snoc_inj [] [] a b l e = (refl, head-eq_of_cons-eq e)
snoc_inj [] (y ∷ v) a b l e = absurd (omega arith)
snoc_inj (x ∷ w) [] a b l e = absurd (omega arith)
snoc_inj (x ∷ w) (y ∷ v) a b l e =
    let (same, last) = snoc_inj w v a b (omega arith) (tail-eq_of_cons-eq e) in
    (ap₂ ◌∷◌ (head-eq_of_cons-eq e) same, last)

abbrev low_polynomial : Bits
low_polynomial = first_bits 31 polynomial

polynomial_top : polynomial ≡ low_polynomial ++ (true ∷ [])
unfolding first_bits bits_of
polynomial_top = refl

low_polynomial_width : length low_polynomial ≡ 31
unfolding first_bits bits_of
low_polynomial_width = refl

-- A round puts the bit that it takes from the low end at the high end.
crc_round-true :
    (w : Bits) → length w ≡ 31 → crc_round (true ∷ w) ≡ xor_bits low_polynomial w ++ (true ∷ [])
unfolding crc_round shift_one xor_bits
crc_round-true w e =
    ap (λ p. xor_bits p (w ++ (false ∷ []))) polynomial_top
    ∙ xor_bits-append low_polynomial w (true ∷ []) (false ∷ [])
        (omega (arith, e, low_polynomial_width))

crc_round-false : (w : Bits) → crc_round (false ∷ w) ≡ w ++ (false ∷ [])
unfolding crc_round shift_one
crc_round-false w = refl

crc_round_inj : (a b : Bits) → length a ≡ 32 → length b ≡ 32 → crc_round a ≡ crc_round b → a ≡ b
crc_round_inj [] b la lb e = absurd (omega arith)
crc_round_inj (x ∷ a) [] la lb e = absurd (omega arith)
crc_round_inj (true ∷ a) (true ∷ b) la lb e =
    let wa : length a ≡ 31 = omega arith in
    let wb : length b ≡ 31 = omega arith in
    let ra = length-xor_bits low_polynomial a (omega (arith, wa, low_polynomial_width)) in
    let rb = length-xor_bits low_polynomial b (omega (arith, wb, low_polynomial_width)) in
    let (same, _) =
      snoc_inj (xor_bits low_polynomial a) (xor_bits low_polynomial b) true true
        (omega (arith, ra, rb)) (sym (crc_round-true a wa) ∙ e ∙ crc_round-true b wb) in
    ap (λ w. true ∷ w)
      (xor_bits_inj low_polynomial a b (omega (arith, wa, low_polynomial_width))
        (omega (arith, wb, low_polynomial_width)) same)
crc_round_inj (false ∷ a) (false ∷ b) la lb e =
    let (same, _) =
      snoc_inj a b false false (omega arith) (sym (crc_round-false a) ∙ e ∙ crc_round-false b) in
    ap (λ w. false ∷ w) same
crc_round_inj (true ∷ a) (false ∷ b) la lb e =
    let wa : length a ≡ 31 = omega arith in
    let ra = length-xor_bits low_polynomial a (omega (arith, wa, low_polynomial_width)) in
    let (_, top) =
      snoc_inj (xor_bits low_polynomial a) b true false
        (omega (arith, ra, lb, low_polynomial_width))
        (sym (crc_round-true a wa) ∙ e ∙ crc_round-false b) in
    absurd (ground (arith, top))
crc_round_inj (false ∷ a) (true ∷ b) la lb e =
    let wb : length b ≡ 31 = omega arith in
    let rb = length-xor_bits low_polynomial b (omega (arith, wb, low_polynomial_width)) in
    let (_, top) =
      snoc_inj a (xor_bits low_polynomial b) false true
        (omega (arith, rb, la, low_polynomial_width))
        (sym (crc_round-false a) ∙ e ∙ crc_round-true b wb) in
    absurd (ground (arith, top))

crc_rounds_inj :
    (n : ℕ) (a b : Bits) → length a ≡ 32 → length b ≡ 32 → crc_rounds n a ≡ crc_rounds n b → a ≡ b
unfolding crc_rounds
crc_rounds_inj zero a b la lb e = e
crc_rounds_inj (suc n) a b la lb e =
    crc_round_inj a b la lb (
      crc_rounds_inj n (crc_round a) (crc_round b) (crc_round-length a la) (crc_round-length b lb)
        e)

length-widen : (byte : Bits) → length byte ≡ 8 → length (widen byte) ≡ 32
length-widen byte e = omega (arith, e, length-append byte (zeros 24))

length-mixed :
    (crc byte : Bits) → length crc ≡ 32 → length byte ≡ 8 → length (xor_bits crc (widen byte)) ≡ 32
length-mixed crc byte e f =
    omega (arith, e, length-xor_bits crc (widen byte) (omega (arith, e, length-widen byte f)))

pub length-crc32_update :
    (crc byte : Bits) → length crc ≡ 32 → length byte ≡ 8 → length (crc32_update crc byte) ≡ 32
length-crc32_update crc byte e f =
    ap length (crc32_update-crc_rounds crc byte e f)
    ∙ crc_rounds-length 8 (xor_bits crc (widen byte)) (length-mixed crc byte e f)

-- What goes into the rounds is determined by what comes out.
mixed_inj :
    (crc crc' byte byte' : Bits)
    → length crc ≡ 32
    → length crc' ≡ 32
    → length byte ≡ 8
    → length byte' ≡ 8
    → crc32_update crc byte ≡ crc32_update crc' byte'
    → xor_bits crc (widen byte) ≡ xor_bits crc' (widen byte')
mixed_inj crc crc' byte byte' l l' b b' e =
    crc_rounds_inj 8 (xor_bits crc (widen byte)) (xor_bits crc' (widen byte'))
      (length-mixed crc byte l b) (length-mixed crc' byte' l' b')
      (sym (crc32_update-crc_rounds crc byte l b) ∙ e ∙ crc32_update-crc_rounds crc' byte' l' b')

pub append_inj : (a b c : Bits) → length a ≡ length b → a ++ c ≡ b ++ c → a ≡ b
append_inj [] [] c l e = refl
append_inj [] (y ∷ b) c l e = absurd (omega arith)
append_inj (x ∷ a) [] c l e = absurd (omega arith)
append_inj (x ∷ a) (y ∷ b) c l e =
    ap₂ ◌∷◌ (head-eq_of_cons-eq e) (append_inj a b c (omega arith) (tail-eq_of_cons-eq e))

crc32_loop_inj :
    (bytes : List Bits) (a b : Bits)
    → AllBytes bytes
    → length a ≡ 32
    → length b ≡ 32
    → crc32_loop a bytes ≡ crc32_loop b bytes
    → a ≡ b
unfolding crc32_loop
crc32_loop_inj [] a b all la lb e = e
crc32_loop_inj (byte ∷ bytes) a b (w, all) la lb e =
    let next =
      crc32_loop_inj bytes (crc32_update a byte) (crc32_update b byte) all
        (length-crc32_update a byte la w) (length-crc32_update b byte lb w) e in
    let mixed = mixed_inj a b byte byte la lb w w next in
    let wide = length-widen byte w in
    xor_bits_inj (widen byte) a b (omega arith) (omega arith) (
      xor_bits_comm (widen byte) a (omega arith)
      ∙ mixed
      ∙ xor_bits_comm b (widen byte) (omega arith))

length-crc32_loop :
    (bytes : List Bits) (crc : Bits)
    → AllBytes bytes
    → length crc ≡ 32
    → length (crc32_loop crc bytes) ≡ 32
unfolding crc32_loop
length-crc32_loop [] crc all e = e
length-crc32_loop (byte ∷ bytes) crc (w, all) e =
    length-crc32_loop bytes (crc32_update crc byte) all (length-crc32_update crc byte e w)

loop_detects :
    (before after : List Bits) (x y crc : Bits)
    → AllBytes before
    → AllBytes after
    → length x ≡ 8
    → length y ≡ 8
    → length crc ≡ 32
    → crc32_loop crc (before ++ x ∷ after) ≡ crc32_loop crc (before ++ y ∷ after)
    → x ≡ y
unfolding crc32_loop
loop_detects [] after x y crc all all' lx ly lc e =
    let next =
      crc32_loop_inj after (crc32_update crc x) (crc32_update crc y) all'
        (length-crc32_update crc x lc lx) (length-crc32_update crc y lc ly) e in
    let wx = length-widen x lx in
    let wy = length-widen y ly in
    let wide =
      xor_bits_inj crc (widen x) (widen y) (omega arith) (omega arith)
        (mixed_inj crc crc x y lc lc lx ly next) in
    append_inj x y (zeros 24) (omega arith) wide
loop_detects (byte ∷ before) after x y crc (w, all) all' lx ly lc e =
    loop_detects before after x y (crc32_update crc byte) all all' lx ly
      (length-crc32_update crc byte lc w) e

pub AllBytes-append : (xs ys : List Bits) → AllBytes xs → AllBytes ys → AllBytes (xs ++ ys)
AllBytes-append [] ys all all' = all'
AllBytes-append (x ∷ xs) ys (w, all) all' = (w, AllBytes-append xs ys all all')

-- Contents that agree but for one byte have the same checksum only if that byte agrees too.
pub crc32_detects :
    (before after : List Bits) (x y : Bits)
    → AllBytes before
    → AllBytes after
    → length x ≡ 8
    → length y ≡ 8
    → crc32 (before ++ x ∷ after) ≡ crc32 (before ++ y ∷ after)
    → x ≡ y
unfolding crc32
crc32_detects before after x y all all' lx ly e =
    let a = crc32_loop all_ones (before ++ x ∷ after) in
    let b = crc32_loop all_ones (before ++ y ∷ after) in
    let la : length a ≡ 32 =
      length-crc32_loop (before ++ x ∷ after) all_ones
        (AllBytes-append before (x ∷ after) all (lx, all')) refl in
    let lb : length b ≡ 32 =
      length-crc32_loop (before ++ y ∷ after) all_ones
        (AllBytes-append before (y ∷ after) all (ly, all')) refl in
    let same : a ≡ b =
      xor_bits_inj all_ones a b (omega arith) (omega arith)
        (xor_bits_comm all_ones a (omega arith) ∙ e ∙ xor_bits_comm b all_ones (omega arith)) in
    loop_detects before after x y all_ones all all' lx ly refl same

pub length-crc32 : (bytes : List Bits) → AllBytes bytes → length (crc32 bytes) ≡ 32
unfolding crc32
length-crc32 bytes all =
    let loop = length-crc32_loop bytes all_ones all refl in
    omega (arith, loop, length-xor_bits (crc32_loop all_ones bytes) all_ones (omega (arith, loop)))
