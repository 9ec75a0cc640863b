-- ===== src/Platform.antt =====
-- The constants that the code takes from the headers of the Pico SDK, which is a submodule and not
-- part of the repository: the memory map (hardware/regs/addressmap.h), the UF2 format
-- (boot/uf2.h, a flag by its bit number) and the status codes of PICOBOOT (boot/picoboot.h). `IsValid` states what the code
-- relies on, and `rp2040` has the documented values of the chip.
-- The address tests are those of bootrom/usb_boot_device.h.
use pico_bootrom_crashdump.Prelude.{
  ℕ, ◌+◌, ◌%◌, ◌^◌, ◌≤◌, ◌<◌, ◌≡◌, ◌≢◌, Bool, ◌&&◌, ◌||◌, arith, ltb, leb,
}

pub record Sdk : Type 0 where
  pub sram_base : ℕ
  pub sram_end : ℕ
  pub xip_sram_base : ℕ
  pub xip_sram_end : ℕ
  pub xip_main_base : ℕ
  pub uf2_magic_start0 : ℕ
  pub uf2_magic_start1 : ℕ
  pub uf2_magic_end : ℕ
  pub rp2040_family_id : ℕ
  pub uf2_flag_not_main_flash_bit : ℕ
  pub uf2_flag_family_id_present_bit : ℕ
  pub picoboot_ok : ℕ
  pub picoboot_bad_alignment : ℕ
  pub picoboot_invalid_address : ℕ
  pub picoboot_interleaved_write : ℕ
  pub picoboot_rebooting : ℕ
  pub exclusive_and_eject : ℕ

-- The ROM lies below flash, which begins and ends at a sector, flash below the XIP cache, and that below
-- SRAM, more than a sector away; `PICOBOOT_OK` is the one status that is zero.
pub record IsValid (sdk : Sdk) : Type 0 where
  pub rom_below : 8192 ≤ sdk.xip_main_base
  pub flash_below : sdk.xip_main_base < sdk.xip_sram_base
  pub cache_order : sdk.xip_sram_base < sdk.xip_sram_end
  pub cache_below : sdk.xip_sram_end + 4096 < sdk.sram_base
  pub flash_aligned : sdk.xip_main_base % 4096 ≡ 0
  pub flash_end_aligned : sdk.sram_base % 4096 ≡ 0
  pub sram_order : sdk.sram_base < sdk.sram_end
  pub sram_fits : sdk.sram_end < 2 ^ 31
  pub ok_zero : sdk.picoboot_ok ≡ 0
  pub alignment_ne : sdk.picoboot_bad_alignment ≢ 0
  pub address_ne : sdk.picoboot_invalid_address ≢ 0
  pub interleaved_ne : sdk.picoboot_interleaved_write ≢ 0
  pub rebooting_ne : sdk.picoboot_rebooting ≢ 0

abbrev pub rp2040 : Sdk
rp2040 = record {
  sram_base = 0x20000000;
  sram_end = 0x20042000;
  xip_sram_base = 0x15000000;
  xip_sram_end = 0x15004000;
  xip_main_base = 0x10000000;
  uf2_magic_start0 = 0x0A324655;
  uf2_magic_start1 = 0x9E5D5157;
  uf2_magic_end = 0x0AB16F30;
  rp2040_family_id = 0xe48bff56;
  uf2_flag_not_main_flash_bit = 0;
  uf2_flag_family_id_present_bit = 13;
  picoboot_ok = 0;
  picoboot_bad_alignment = 4;
  picoboot_invalid_address = 3;
  picoboot_interleaved_write = 5;
  picoboot_rebooting = 6;
  exclusive_and_eject = 2;
}

pub rp2040-IsValid : IsValid rp2040
rp2040-IsValid = omega arith

module _ (sdk : Sdk) where
  open sdk use {sram_base, sram_end, xip_sram_base, xip_sram_end, xip_main_base}

  unfoldable pub is_address_ram : ℕ → Bool
  is_address_ram addr =
      (leb sram_base addr && leb addr sram_end) || (leb xip_sram_base addr && leb addr xip_sram_end)

  unfoldable pub is_address_flash : ℕ → Bool
  is_address_flash addr = leb xip_main_base addr && leb addr sram_base

-- The one test that needs no constant of the SDK.
unfoldable pub is_address_rom : ℕ → Bool
is_address_rom addr = ltb addr 8192
