-- ===== src/Crypto.antt =====
-- crypto/CRC32.c, the checksum that also seals the entries of the process table.
pub mod Bits
pub mod Crc
pub mod Table
pub mod Detect
mod Tests
