-- ===== src/Crypto/Tests.antt =====
-- The checksum at concrete contents.
use void_frame.Prelude.{ℕ, ◌+◌, ◌≡◌, refl, List, [], ◌∷◌, map}
use void_frame.Crypto.Bits.{Bits, bits_of, value_of, xor_bits, shift_one}
use void_frame.Crypto.Crc.{crc32, crc_rounds, crc_round, all_ones}
use void_frame.Crypto.Table.{bitwise_loop, crc32-bitwise_loop}
use void_frame.Crypto.Detect.{crc32_detects}

abbrev byte : ℕ → Bits
byte n = bits_of 8 n

-- "123456789", the usual test of a CRC.
abbrev digits : List Bits
digits = map byte (49 ∷ 50 ∷ 51 ∷ 52 ∷ 53 ∷ 54 ∷ 55 ∷ 56 ∷ 57 ∷ [])

bitwise_check : value_of (xor_bits (bitwise_loop all_ones digits) all_ones) ≡ 0xCBF43926
unfolding value_of xor_bits bitwise_loop crc_rounds crc_round shift_one bits_of
bitwise_check = refl

crc32-bitwise_loop_example : crc32 digits ≡ xor_bits (bitwise_loop all_ones digits) all_ones
unfolding bits_of
crc32-bitwise_loop_example =
    crc32-bitwise_loop digits
      (refl, (refl, (refl, (refl, (refl, (refl, (refl, (refl, (refl, tt)))))))))

crc32_detects_example : byte 51 ≡ byte (50 + 1)
unfolding bits_of
crc32_detects_example =
    crc32_detects (byte 1 ∷ []) (byte 3 ∷ []) (byte 51) (byte (50 + 1)) (refl, tt) (refl, tt) refl
      refl refl
