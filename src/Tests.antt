-- ===== src/Tests.antt =====
-- Runs of the model on concrete values, by the part of the program that they exercise.
pub mod Disk
pub mod Task
pub mod Uf2
pub mod Usb
pub mod Picoboot
pub mod Msc
pub mod Generator
pub mod Flash
pub mod Device
pub mod Transfers
pub mod Boot
pub mod Sectors
