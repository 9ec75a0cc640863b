-- ===== src/Tests/Boot.antt =====
-- The boot device with some of its interfaces.
use pico_bootrom_crashdump.Prelude.{
  ℕ, ◌≡◌, refl, true, false, Option, none, some, arith, ℕ_discrete,
}
use pico_bootrom_crashdump.Prelude.Bits.{set_bit}
use pico_bootrom_crashdump.Buffer.{Buffer}
use pico_bootrom_crashdump.Boot.Clocks.{Pll, usb_clock_setup}
use pico_bootrom_crashdump.Boot.Reboot.{
  Watchdog, WatchdogBits, reboot_magic, Chip, request_usb_boot, usb_boot_reboot_wrapper,
}
use pico_bootrom_crashdump.Boot.Restart.{IsBootRom, IsBooted, reset-boots}
use pico_bootrom_crashdump.Boot.{usb_boot_device_init, write_six_msb_hex_chars}
use pico_bootrom_crashdump.Boot.Config.{IsSetUpFor, init-IsSetUpFor}
use pico_bootrom_crashdump.Boot.Serial.{read_hex, read_hex-write}

-- Without the disk.
init-IsSetUpFor_example : IsSetUpFor 1 (usb_boot_device_init 1)
init-IsSetUpFor_example = init-IsSetUpFor 1 (omega arith)

read_back : read_hex (write_six_msb_hex_chars 0xe0c91234) 0 ≡ 0xe0c912
read_back = read_hex-write 0xe0c91234 (omega arith)

-- The boot ROM, as far as its datasheet says.
abbrev rom_entry : Buffer → Option (ℕ × ℕ)
rom_entry scratch = elim (ℕ_discrete (scratch 4) reboot_magic) [
  | yes _ ↦ some (scratch 7, scratch 6)
  | no _ ↦ none
]

rom_entry-IsBootRom : IsBootRom rom_entry
rom_entry-IsBootRom = record {
  marked = λ scratch e x. ground (arith, e);
  unmarked = λ scratch n. ground arith;
}

abbrev watchdog : Buffer → Watchdog
watchdog scratch = record {
  wdsel = 0;
  ctrl = 0;
  load = 0;
  clk_ref_src = 0;
  tick_cycles = 0;
  tick_enabled = false;
  scratch = scratch;
  rebooting = false;
}

abbrev watchdog_bits : WatchdogBits
watchdog_bits = record {
  enable = 30;
  pause_dbg0 = 25;
  pause_dbg1 = 26;
  pause_jtag = 24;
  psm_wdsel = 0x1ffff;
  wdsel_rosc = 0;
  wdsel_xosc = 1;
  clksrc_xosc = 2;
}

abbrev pll_off : Pll
pll_off = record {
  refdiv = 1;
  fbdiv_int = 0;
  postdiv1 = 7;
  postdiv2 = 7;
  pd = true;
  vcopd = true;
  postdivpd = true;
}

abbrev chip : Buffer → Chip
chip scratch = record {
  clocks = record {
    rosc_enabled = true;
    xosc_enabled = false;
    ref_src = 0;
    resus_enabled = false;
    sys_src = 0;
    sys_auxsrc = 0;
    sys_div = 0x100;
    usb_enabled = false;
    usb_auxsrc = 0;
    usb_div = 0x100;
    pll = pll_off;
  };
  watchdog = watchdog scratch;
  xip_cache = true;
  usb_dpram = λ a. 7;
  usb_activity_gpio_pin_mask = 0;
}

-- The reset of a device without its disk, and with the crystal running.
abbrev kept : Buffer
kept =
    (request_usb_boot watchdog_bits false 0x20000301 0x20042000 0x2000000 1
      (watchdog (λ k. 0))).scratch

reset-boots_example :
    (rom_entry kept ≡ some (0x20000301, 0x20042000))
    × IsBooted 0x2000000 1 0 4096
        (usb_boot_reboot_wrapper (usb_clock_setup (λ w c. true) pll_off 0) false 4096 (chip kept))
unfolding set_bit
reset-boots_example =
    reset-boots (λ w c. true) pll_off 0 4096 rom_entry rom_entry-IsBootRom watchdog_bits 0x20000301
      0x20042000 0x2000000 1 (watchdog (λ k. 0)) (chip kept) (omega arith) (omega arith) refl
