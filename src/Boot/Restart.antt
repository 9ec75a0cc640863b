-- ===== src/Boot/Restart.antt =====
-- Proofs about the reboot: where the boot ROM goes on, and what the firmware then finds.
use pico_bootrom_crashdump.Prelude.{
  ℕ, ◌-◌, ◌^◌, ◌<◌, ◌≡◌, ◌≢◌, refl, ap, ◌∙◌, Bool, false, Option, none, some, arith, zero, suc,
}
use pico_bootrom_crashdump.Prelude.Bits.{set_bit, xor, xor-xor}
use pico_bootrom_crashdump.Buffer.{Buffer, store}
use pico_bootrom_crashdump.Boot.Config.{IsSetUpFor, init-IsSetUpFor}
use pico_bootrom_crashdump.Boot.Clocks.{
  Pll, Clocks, Wait, ClockSetup, waiting, ready, usb_clock_setup, IsSafe, clock_setup-IsSafe,
}
use pico_bootrom_crashdump.Boot.Reboot.{
  Chip, Booted, hangs, works, request_usb_boot, boot_clocked, usb_boot, usb_boot_reboot_wrapper,
  WatchdogBits, Watchdog, reboot_magic, point_scratch, mark_scratch, watchdog_reboot,
}

-- The RP2040 datasheet documents where the ROM of the chip goes on after a reset by the watchdog, from
-- the scratch registers, which the reset keeps: at the program counter and stack pointer found there
-- if they are marked as valid, and with a normal boot, `none`, if the mark is not there.
pub record IsBootRom (goes_on : Buffer → Option (ℕ × ℕ)) : Type 0 where
  pub marked :
      (scratch : Buffer)
      → scratch 4 ≡ reboot_magic
      → xor 32 (scratch 5) (scratch 7) ≡ 2 ^ 32 - reboot_magic
      → goes_on scratch ≡ some (scratch 7, scratch 6)
  pub unmarked : (scratch : Buffer) → scratch 4 ≢ reboot_magic → goes_on scratch ≡ none

-- With a program counter, the ROM goes on there in Thumb mode, with the stack pointer; with 0, boots.
abbrev pub entry_of : ℕ → ℕ → Option (ℕ × ℕ)
entry_of zero sp = none
entry_of (suc pc) sp = some (set_bit (suc pc) 0, sp)

-- The firmware waits for a clock, safely, or it works: with the activity pin, the interfaces that the
-- mask leaves, both clocks from the PLL, the cache given up for RAM, and its own memory cleared.
abbrev pub IsBooted : ℕ → ℕ → ℕ → ℕ → Booted → Type 0
IsBooted pin_mask mask pll_sys size (hangs w clocks) = IsSafe pll_sys (waiting w clocks)
IsBooted pin_mask mask pll_sys size (works m device) =
    (m.usb_activity_gpio_pin_mask ≡ pin_mask)
    × IsSetUpFor mask device
    × IsSafe pll_sys (ready m.clocks)
    × (m.xip_cache ≡ false)
    × ((a : ℕ) → a < size → m.usb_dpram a ≡ 0)

pointed-marked :
    (pc sp : ℕ) (scratch : Buffer)
    → pc ≢ 0
    → point_scratch pc sp scratch ≡ mark_scratch (set_bit pc 0) sp scratch
unfolding point_scratch
pointed-marked zero sp scratch n = absurd (n refl)
pointed-marked (suc pc) sp scratch n = ground arith

module _ (goes_on : Buffer → Option (ℕ × ℕ)) (rom : IsBootRom goes_on) where
  mark_scratch-entry :
      (pc sp : ℕ) (scratch : Buffer) → goes_on (mark_scratch pc sp scratch) ≡ some (pc, sp)
  unfolding mark_scratch
  mark_scratch-entry pc sp scratch =
      rom.marked (mark_scratch pc sp scratch) refl
        (xor-xor 32 pc (2 ^ 32 - reboot_magic) (omega arith))

  point_scratch-entry :
      (pc sp : ℕ) (scratch : Buffer) → goes_on (point_scratch pc sp scratch) ≡ entry_of pc sp
  unfolding point_scratch
  point_scratch-entry zero sp scratch = rom.unmarked (point_scratch 0 sp scratch) (omega arith)
  point_scratch-entry (suc pc) sp scratch =
      ap goes_on (pointed-marked (suc pc) sp scratch (omega arith))
      ∙ mark_scratch-entry (set_bit (suc pc) 0) sp scratch

  -- After a reset by the watchdog, the chip goes on where watchdog_reboot said.
  pub reboot-entry :
      (bits : WatchdogBits) (fpga : Bool) (pc sp delay_ms : ℕ) (w : Watchdog)
      → goes_on (watchdog_reboot bits fpga pc sp delay_ms w).scratch ≡ entry_of pc sp
  unfolding watchdog_reboot
  reboot-entry bits fpga pc sp delay_ms w = point_scratch-entry pc sp w.scratch

module _ (comes : Wait → Clocks → Bool) (pll_reset : Pll) (pll_sys size : ℕ) where
  clocked-IsBooted :
      (pin_mask mask : ℕ) (m : Chip) (setup : ClockSetup)
      → mask < 4
      → IsSafe pll_sys setup
      → IsBooted pin_mask mask pll_sys size (boot_clocked size pin_mask mask m setup)
  unfolding boot_clocked
  clocked-IsBooted pin_mask mask m (waiting w clocks) l safe = safe
  clocked-IsBooted pin_mask mask m (ready clocks) l safe =
      (refl, init-IsSetUpFor mask l, safe, refl, λ a h. ground arith)

  usb_boot-IsBooted :
      (pin_mask mask : ℕ) (m : Chip)
      → mask < 4
      → IsBooted pin_mask mask pll_sys size
          (usb_boot (usb_clock_setup comes pll_reset pll_sys) false size pin_mask mask m)
  unfolding usb_boot
  usb_boot-IsBooted pin_mask mask m l =
      clocked-IsBooted pin_mask mask m (usb_clock_setup comes pll_reset pll_sys m.clocks) l
        (clock_setup-IsSafe comes pll_reset pll_sys m.clocks)

  -- The same with the words that the wrapper reads.
  read-IsBooted :
      (p q pin_mask mask : ℕ) (m : Chip)
      → p ≡ pin_mask
      → q ≡ mask
      → mask < 4
      → IsBooted pin_mask mask pll_sys size
          (usb_boot (usb_clock_setup comes pll_reset pll_sys) false size p q m)
  read-IsBooted p q pin_mask mask m e f l = rw (e, f) (usb_boot-IsBooted pin_mask mask m l)

  -- When the firmware resets itself into its USB mode, the ROM of the chip goes on at the address of the
  -- wrapper, in Thumb mode and with the end of SRAM as stack. The wrapper then finds the activity pin and
  -- the mask of interfaces that it was reset with, as the scratch registers keep them: it sets up just
  -- the interfaces that the mask leaves, with its memory cleared, the XIP cache off and its clocks from
  -- the PLL, or waits for a clock that does not come, with clk_sys on clk_ref before the PLL is locked.
  -- The address is not 0, the mask has two bits, and the ROM does what is documented.
  pub reset-boots :
      (goes_on : Buffer → Option (ℕ × ℕ)) (rom : IsBootRom goes_on) (bits : WatchdogBits)
      (wrapper sram_end pin_mask mask : ℕ) (w : Watchdog) (m : Chip)
      → wrapper ≢ 0
      → mask < 4
      → m.watchdog.scratch ≡ (request_usb_boot bits false wrapper sram_end pin_mask mask w).scratch
      → (goes_on m.watchdog.scratch ≡ some (set_bit wrapper 0, sram_end))
        × IsBooted pin_mask mask pll_sys size
            (usb_boot_reboot_wrapper (usb_clock_setup comes pll_reset pll_sys) false size m)
  unfolding request_usb_boot watchdog_reboot usb_boot_reboot_wrapper mark_scratch
  reset-boots goes_on rom bits wrapper sram_end pin_mask mask w m n l kept =
      let marked =
        kept ∙ pointed-marked wrapper sram_end (store (store w.scratch 0 pin_mask) 1 mask) n in
      (
        ap goes_on marked
            ∙ mark_scratch-entry goes_on rom (set_bit wrapper 0) sram_end
                (store (store w.scratch 0 pin_mask) 1 mask),
        read-IsBooted (m.watchdog.scratch 0) (m.watchdog.scratch 1) pin_mask mask m
            (ap (λ (b : Buffer). b 0) marked) (ap (λ (b : Buffer). b 1) marked) l,
      )
