-- ===== src/Disk.antt =====
-- The virtual disk of bootrom/virtual_disk.c, as the host reads it.
pub mod Layout
pub mod Xxd
pub mod Read
