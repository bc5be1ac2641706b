-- ===== src/Prelude/Words.antt =====
-- Machine words: the widths, wrapping addition and subtraction, and a test of one bit.
use Prim.Native.Nat.{ℕ, ◌+◌, ◌-◌, ◌*◌, ◌/◌, ◌%◌, ◌^◌}
use mathlib.Core.Bool.{Bool, ◌&&◌}
use void_frame.Prelude.Tests.{◌==◌, ltb, if◌then◌else◌}

abbrev pub u32_mod : ℕ
u32_mod = 2 ^ 32

abbrev pub u64_mod : ℕ
u64_mod = 2 ^ 64

abbrev pub add32 : ℕ → ℕ → ℕ
add32 a b = (a + b) % u32_mod

abbrev pub sub32 : ℕ → ℕ → ℕ
sub32 a b = (a + u32_mod - b) % u32_mod

abbrev pub add64 : ℕ → ℕ → ℕ
add64 a b = (a + b) % u64_mod

abbrev pub sub64 : ℕ → ℕ → ℕ
sub64 a b = (a + u64_mod - b) % u64_mod

abbrev pub test_bit : ℕ → ℕ → Bool
test_bit w i = w / 2 ^ i % 2 == 1

-- What the word at `b` reads after the eight bytes of `v` are stored at `a`: `old` as it was, unless
-- the two words share bytes, with the lowest byte first.
abbrev pub stored : ℕ → ℕ → ℕ → ℕ → ℕ
stored a v b old =
    if b == a
    then v
    else if ltb a b && ltb b (a + 8)
    then v / 256 ^ (b - a) + old / 256 ^ (8 - (b - a)) * 256 ^ (8 - (b - a))
    else if ltb b a && ltb a (b + 8)
    then old % 256 ^ (a - b) + v * 256 ^ (a - b) % 2 ^ 64
    else old
