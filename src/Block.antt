-- ===== src/Block.antt =====
-- fs/BlockDevice.c and fs/MBR.c, the table of block devices and the partitions of a drive. `Table`
-- and `Mbr` are the program, the other children prove.
pub mod Table
pub mod Mbr
pub mod Append
pub mod Partitions
pub mod Access
mod Tests
