-- ===== src/Boot/Reboot.antt =====
-- The reboot by the watchdog: watchdog_reboot of usb_device_tiny/runtime.c with safe_reboot of
-- bootrom/usb_boot_device.c, and reset_usb_boot, _usb_boot_reboot_wrapper and _usb_boot of
-- bootrom/bootrom_main.c. A register of which single fields are written is known by these fields.
use pico_bootrom_crashdump.Prelude.{ℕ, ◌*◌, ◌-◌, ◌%◌, ◌^◌, Bool, true, false, ◌==◌, if◌then◌else◌}
use pico_bootrom_crashdump.Prelude.Bits.{set_bit, clear_bit, xor}
use pico_bootrom_crashdump.Buffer.{Buffer, store, memset0}
use pico_bootrom_crashdump.Boot.{BootSetup, usb_boot_device_init}
use pico_bootrom_crashdump.Boot.Clocks.{Clocks, Wait, ClockSetup, waiting, ready}

-- The registers PSM_WDSEL and of the watchdog, the source of clk_ref, and the flag `rebooting`.
pub record Watchdog : Type 0 where
  pub wdsel : ℕ
  pub ctrl : ℕ
  pub load : ℕ
  pub clk_ref_src : ℕ
  pub tick_cycles : ℕ
  pub tick_enabled : Bool
  pub scratch : Buffer
  pub rebooting : Bool

-- The bits by their numbers: those of WATCHDOG_CTRL and of PSM_WDSEL, all of which are `psm_wdsel`;
-- and the number of the crystal as source of clk_ref.
pub record WatchdogBits : Type 0 where
  pub enable : ℕ
  pub pause_dbg0 : ℕ
  pub pause_dbg1 : ℕ
  pub pause_jtag : ℕ
  pub psm_wdsel : ℕ
  pub wdsel_rosc : ℕ
  pub wdsel_xosc : ℕ
  pub clksrc_xosc : ℕ

-- `scratch[4]` if the boot ROM shall go on at a program counter
abbrev pub reboot_magic : ℕ
reboot_magic = 0xb007c0d3

-- What the firmware changes before it runs its worker.
pub record Chip : Type 0 where
  pub clocks : Clocks
  pub watchdog : Watchdog
  pub xip_cache : Bool
  pub usb_dpram : Buffer
  pub usb_activity_gpio_pin_mask : ℕ

-- The firmware waits for a clock, or its worker runs beside the device that is set up.
pub data Booted : Type 0 where
  hangs : Wait → Clocks → Booted
  works : Chip → BootSetup → Booted

-- The scratch registers that mark a program counter and a stack pointer as valid.
unfoldable pub mark_scratch : ℕ → ℕ → Buffer → Buffer
mark_scratch pc sp scratch =
    let magic = store scratch 4 reboot_magic in
    let checked = store magic 5 (xor 32 pc ((2 ^ 32 - magic 4) % 2 ^ 32)) in
    store (store checked 6 sp) 7 pc

-- What `watchdog_reboot` writes to the scratch registers.
unfoldable pub point_scratch : ℕ → ℕ → Buffer → Buffer
point_scratch pc sp scratch =
    if pc == 0 then store scratch 4 0 else mark_scratch (set_bit pc 0) sp scratch

module _ (bits : WatchdogBits) (running_on_fpga : Bool) where
  -- `watchdog_reboot`, if clk_ref can be switched to the crystal.
  unfoldable pub watchdog_reboot : ℕ → ℕ → ℕ → Watchdog → Watchdog
  watchdog_reboot pc sp delay_ms w =
      let off = clear_bit w.ctrl bits.enable in
      let awake =
        clear_bit (clear_bit (clear_bit off bits.pause_dbg0) bits.pause_dbg1) bits.pause_jtag in
      record {
        wdsel = clear_bit (clear_bit bits.psm_wdsel bits.wdsel_rosc) bits.wdsel_xosc;
        ctrl = set_bit awake bits.enable;
        load = delay_ms * 1000 % 2 ^ 32;
        tick_cycles = 12;
        clk_ref_src = if running_on_fpga then w.clk_ref_src else bits.clksrc_xosc;
        tick_enabled = true;
        scratch = point_scratch pc sp w.scratch;
        rebooting = true;
      }

  -- `safe_reboot`
  abbrev pub safe_reboot : ℕ → ℕ → ℕ → Watchdog → Watchdog
  safe_reboot addr sp delay_ms = watchdog_reboot addr sp delay_ms

  -- `reset_usb_boot`, where `wrapper` is the address of `_usb_boot_reboot_wrapper`. It does not return.
  unfoldable pub request_usb_boot : ℕ → ℕ → ℕ → ℕ → Watchdog → Watchdog
  request_usb_boot wrapper sram_end usb_activity_gpio_pin_mask disable_interface_mask w =
      let scratch = store (store w.scratch 0 usb_activity_gpio_pin_mask) 1 disable_interface_mask in
      watchdog_reboot wrapper sram_end 10 (record w { scratch = scratch })

-- `_usb_boot` from where the clocks are set up on, but for the reset of the USB controller around it.
unfoldable pub boot_clocked : ℕ → ℕ → ℕ → Chip → ClockSetup → Booted
boot_clocked size pin_mask disable_interface_mask m (waiting w clocks) = hangs w clocks
boot_clocked size pin_mask disable_interface_mask m (ready clocks) =
    works
      (record {
        clocks = clocks;
        watchdog = record (m.watchdog) { tick_cycles = 12; tick_enabled = true };
        xip_cache = false;
        usb_dpram = memset0 m.usb_dpram 0 size;
        usb_activity_gpio_pin_mask = pin_mask;
      })
      (usb_boot_device_init disable_interface_mask)

module _ (clock_setup : Clocks → ClockSetup) (running_on_fpga : Bool) (usb_dpram_size : ℕ) where
  -- `_usb_boot`
  unfoldable pub usb_boot : ℕ → ℕ → Chip → Booted
  usb_boot pin_mask disable_interface_mask m =
      boot_clocked usb_dpram_size pin_mask disable_interface_mask m
        (if running_on_fpga then ready m.clocks else clock_setup m.clocks)

  -- `_usb_boot_reboot_wrapper`
  unfoldable pub usb_boot_reboot_wrapper : Chip → Booted
  usb_boot_reboot_wrapper m = usb_boot (m.watchdog.scratch 0) (m.watchdog.scratch 1) m
