-- ===== src/Flash.antt =====
-- bootrom/program_flash_generic.c: how the commands to the flash chip are sent over the serial
-- interface, the SSI of the chip.
pub mod Transfer
pub mod Fifo
pub mod Exchange
pub mod Live
pub mod Commands
pub mod Erase
pub mod Detect
pub mod Setup
pub mod Recovery
