-- ===== src/Crypto/Crc.antt =====
-- crypto/CRC32.c. A uint32_t is a list of 32 bits, a byte one of 8.
use void_frame.Prelude.{ℕ, zero, suc, true, false, List, [], ◌∷◌, ◌++◌, replicate, get_or, tabulate}
use void_frame.Crypto.Bits.{
  Bits, xor_bits, bits_of, value_of, zeros, shift_one, first_bits, drop_bits,
}

abbrev pub polynomial : Bits
polynomial = bits_of 32 0xEDB88320

-- One round of the inner loop of CRC32Init.
unfoldable pub crc_round : Bits → Bits
unfolding bits_of shift_one
crc_round [] = []
crc_round (true ∷ w) = xor_bits polynomial (shift_one (true ∷ w))
crc_round (false ∷ w) = shift_one (false ∷ w)

unfoldable pub crc_rounds : ℕ → Bits → Bits
unfolding crc_round
crc_rounds zero c = c
crc_rounds (suc n) c = crc_rounds n (crc_round c)

unfoldable pub crc32_table : List Bits
unfolding crc_rounds
crc32_table = tabulate 256 (λ i. crc_rounds 8 (bits_of 32 i))

-- A byte as a uint32_t.
abbrev pub widen : Bits → Bits
widen byte = byte ++ zeros 24

-- w >> 8
abbrev pub shift_byte : Bits → Bits
shift_byte w = drop_bits 8 w ++ zeros 8

-- The body of the loop of CRC32.
unfoldable pub crc32_update : Bits → Bits → Bits
unfolding crc32_table xor_bits value_of first_bits drop_bits
crc32_update crc byte =
    xor_bits (get_or crc32_table (value_of (first_bits 8 (xor_bits crc (widen byte)))) [])
      (shift_byte crc)

unfoldable pub crc32_loop : Bits → List Bits → Bits
unfolding crc32_update
crc32_loop crc [] = crc
crc32_loop crc (byte ∷ contents) = crc32_loop (crc32_update crc byte) contents

abbrev pub all_ones : Bits
all_ones = replicate 32 true

unfoldable pub crc32 : List Bits → Bits
unfolding crc32_loop
crc32 contents = xor_bits (crc32_loop all_ones contents) all_ones
