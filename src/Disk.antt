-- ===== src/Disk.antt =====
-- disk.c and disk.h: the write-back block cache over the device file.
pub mod Lru
pub mod Hash
pub mod Device
pub mod Cache
pub mod Contract
pub mod Tests
