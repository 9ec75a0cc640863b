-- ===== src/Flash/Setup.antt =====
-- The set-up of the SSI and of the pads of the flash chip in bootrom/program_flash_generic.c, and what
-- the chip sees of it: the edges of its chip select and the bytes clocked, with the pads at the time.
-- Reading a register to flush a write or to clear errors leaves the state as it is.
use pico_bootrom_crashdump.Prelude.{ℕ, zero, suc, ◌+◌, ◌*◌, ◌^◌, List, [], ◌∷◌}
use pico_bootrom_crashdump.Prelude.Bits.{set_bit, clear_bit}
use pico_bootrom_crashdump.Buffer.{Buffer, for_up, store}
use pico_bootrom_crashdump.Flash.Commands.{flashcmd_read_data}

-- `outover_t`
pub data Outover : Type 0 where
  outover_normal outover_invert outover_low outover_high : Outover

abbrev pub outover_value : Outover → ℕ
outover_value outover_normal = 0
outover_value outover_invert = 1
outover_value outover_low = 2
outover_value outover_high = 3

-- The constants of the SDK's headers for these registers, bits by their numbers.
pub record FlashRegs : Type 0 where
  pub outover_lsb : ℕ
  pub sd_od : ℕ
  pub sd_pue : ℕ
  pub sd_pde : ℕ
  pub dfs_32_lsb : ℕ
  pub spi_frf_std : ℕ
  pub tmod_tx_and_rx : ℕ
  pub tmod_eeprom_read : ℕ
  pub xip_cmd_lsb : ℕ
  pub inst_l_lsb : ℕ
  pub addr_l_lsb : ℕ
  pub trans_type_1c1a : ℕ

-- `struct sd_padctrl`
pub record SdPadctrl : Type 0 where
  pub sd0 : ℕ
  pub sd1 : ℕ
  pub sd2 : ℕ
  pub sd3 : ℕ

pub record Ssi : Type 0 where
  pub ssienr : ℕ
  pub baudr : ℕ
  pub ctrlr0 : ℕ
  pub ser : ℕ
  pub spi_ctrlr0 : ℕ

-- What the chip sees: the override of its chip select is written, or bytes are clocked to it.
pub data Event : Type 0 where
  selected : (ss_ctrl : ℕ) → Event
  clocked : (pads : SdPadctrl) (bytes : List ℕ) → Event

pub record FlashPort : Type 0 where
  pub ssi : Ssi
  pub ss_ctrl : ℕ
  pub pads : SdPadctrl
  pub xip_cache : ℕ
  -- the last event first
  pub seen : List Event

-- `connect_internal_flash`: the functions of the six pads, at the odd words of IO_QSPI, behind a reset.
unfoldable pub connect_internal_flash : Buffer → Buffer
connect_internal_flash after_reset = for_up 6 0 (λ i io. store io (2 * i + 1) 0) after_reset

-- A pad with one of its pulls in place of the other.
abbrev pub pulled : ℕ → ℕ → ℕ → ℕ
pulled on off pad = set_bit (clear_bit pad off) on

abbrev pub all_pads : ℕ → SdPadctrl
all_pads pad = record { sd0 = pad; sd1 = pad; sd2 = pad; sd3 = pad }

module _ (regs : FlashRegs) where
  -- `flash_init_spi`
  unfoldable pub flash_init_spi : FlashPort → FlashPort
  flash_init_spi p = record p {
    ssi = record (p.ssi) {
      ssienr = 1;
      baudr = 6;
      ctrlr0 = regs.spi_frf_std + 7 * 2 ^ regs.dfs_32_lsb + regs.tmod_tx_and_rx;
      ser = 1;
    };
  }

  -- The write of the register of the chip select.
  abbrev write_ss_ctrl : ℕ → FlashPort → FlashPort
  write_ss_ctrl v p = record p { ss_ctrl = v; seen = selected v ∷ p.seen }

  -- `flash_cs_force`
  unfoldable pub flash_cs_force : Outover → FlashPort → FlashPort
  flash_cs_force over = write_ss_ctrl (outover_value over * 2 ^ regs.outover_lsb)

  -- `flash_put_get`, known by the bytes that it puts, where it is not aborted and the answer is dropped;
  -- its loop is in Flash/Transfer.
  unfoldable pub clock_out : List ℕ → FlashPort → FlashPort
  clock_out bytes p =
      flash_cs_force outover_high (record p { seen = clocked p.pads bytes ∷ p.seen })

  -- The value of the pads in the first round: no output, pulled down.
  unfoldable pub recovery_pad : ℕ → ℕ
  recovery_pad pad =
      set_bit
        (set_bit (clear_bit (clear_bit (clear_bit pad regs.sd_od) regs.sd_pue) regs.sd_pde)
          regs.sd_od)
        regs.sd_pde

  -- The two rounds that clock 32 times, each ended by the choice of the chip.
  unfoldable pub recovery_rounds : ℕ → ℕ → FlashPort → FlashPort
  recovery_rounds zero pad p = p
  recovery_rounds (suc n) pad p = recovery_rounds n (pulled regs.sd_pue regs.sd_pde pad) (
      flash_cs_force outover_low
        (clock_out (0 ∷ 0 ∷ 0 ∷ 0 ∷ []) (record p { pads = all_pads pad })))

  -- What the pads are left with: IO2 and IO3 may be write protect and hold.
  abbrev restored_pads : ℕ → SdPadctrl
  restored_pads pad =
      let up = pulled regs.sd_pue regs.sd_pde pad in
      record { sd0 = pad; sd1 = pad; sd2 = up; sd3 = up }

  -- `flash_exit_xip`
  unfoldable pub flash_exit_xip : FlashPort → FlashPort
  flash_exit_xip port =
      let spi = flash_init_spi port in
      let pad = spi.pads.sd0 in
      let rounds = recovery_rounds 2 (recovery_pad pad) (flash_cs_force outover_high spi) in
      let chosen = flash_cs_force outover_low (record rounds { pads = restored_pads pad }) in
      write_ss_ctrl 0 (clock_out (0xff ∷ 0xff ∷ []) chosen)

  -- `flash_flush_cache`, where bit 0 of XIP_CTRL enables the cache.
  unfoldable pub flash_flush_cache : FlashPort → FlashPort
  flash_flush_cache p =
      flash_cs_force outover_normal (record p { xip_cache = set_bit p.xip_cache 0 })

  -- `flash_enter_cmd_xip`
  unfoldable pub flash_enter_cmd_xip : FlashPort → FlashPort
  flash_enter_cmd_xip p = record p {
    ssi = record (p.ssi) {
      ssienr = 1;
      ctrlr0 = regs.spi_frf_std + 31 * 2 ^ regs.dfs_32_lsb + regs.tmod_eeprom_read;
      spi_ctrlr0 =
          flashcmd_read_data * 2 ^ regs.xip_cmd_lsb
          + 2 * 2 ^ regs.inst_l_lsb
          + 6 * 2 ^ regs.addr_l_lsb
          + regs.trans_type_1c1a;
    };
  }
