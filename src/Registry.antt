-- ===== src/Registry.antt =====
-- fs/CharDevice.c and fs/FileSystem.c, the tables of character devices and of file system drivers.
pub mod First
pub mod CharDevice
pub mod FileSystem
pub mod Mounting
pub mod Names
mod Tests
