-- ===== src/Flash/Recovery.antt =====
-- Proofs about flash_exit_xip of bootrom/program_flash_generic.c: the sequence that brings the chip back
-- to serial commands, whatever mode it was left in.
use pico_bootrom_crashdump.Prelude.{
  ℕ, ◌*◌, ◌^◌, ◌≡◌, ◌≢◌, refl, sym, ◌∙◌, true, false, List, [], ◌∷◌,
}
use pico_bootrom_crashdump.Prelude.Bits.{
  test_bit, set_bit, clear_bit, test_bit-set_bit_self, test_bit-set_bit_ne, test_bit-clear_bit_self,
  test_bit-clear_bit_ne,
}
use pico_bootrom_crashdump.Flash.Setup.{
  outover_low, outover_high, outover_value, FlashRegs, SdPadctrl, Event, selected, clocked,
  FlashPort, pulled, all_pads, flash_init_spi, flash_cs_force, clock_out, recovery_pad,
  recovery_rounds, flash_exit_xip,
}

-- The three bits of a pad's register are different ones.
pub record IsApart (regs : FlashRegs) : Type 0 where
  pub od_pue : regs.sd_od ≢ regs.sd_pue
  pub od_pde : regs.sd_od ≢ regs.sd_pde
  pub pue_pde : regs.sd_pue ≢ regs.sd_pde

-- A pad has the pull `on` and not the pull `off`, and is as it was but for them.
pub record IsPulled (on off old pad : ℕ) : Type 0 where
  pub is_on : test_bit pad on ≡ true
  pub is_off : test_bit pad off ≡ false
  pub others : (j : ℕ) → j ≢ on → j ≢ off → test_bit pad j ≡ test_bit old j

pulled-IsPulled : (on off pad : ℕ) → on ≢ off → IsPulled on off pad (pulled on off pad)
pulled-IsPulled on off pad n = record {
  is_on = test_bit-set_bit_self (clear_bit pad off) on;
  is_off = test_bit-set_bit_ne (clear_bit pad off) on off n ∙ test_bit-clear_bit_self pad off;
  others = λ j a b.
      test_bit-set_bit_ne (clear_bit pad off) on j (λ e. a (sym e))
      ∙ test_bit-clear_bit_ne pad off j (λ e. b (sym e));
}

-- The same with the output of the pad off.
pub record IsFloating (od on off old pad : ℕ) : Type 0 where
  pub no_output : test_bit pad od ≡ true
  pub is_on : test_bit pad on ≡ true
  pub is_off : test_bit pad off ≡ false
  pub others : (j : ℕ) → j ≢ od → j ≢ on → j ≢ off → test_bit pad j ≡ test_bit old j

module _ (regs : FlashRegs) where
  -- The chip select held high, low, and left to the SSI.
  abbrev high : Event
  high = selected (outover_value outover_high * 2 ^ regs.outover_lsb)

  abbrev low : Event
  low = selected (outover_value outover_low * 2 ^ regs.outover_lsb)

  -- What the chip sees, the last event first: 32 clocks while it is not selected, with the pads at
  -- `down`; 32 clocks while it is, with the pads at `up`; a short time not selected; then 16 clocks
  -- with ones put out, while the pads are at `last`; then the chip select is the SSI's.
  abbrev pub recovery : ℕ → ℕ → SdPadctrl → List Event
  recovery down up last =
      selected 0
      ∷ high
      ∷ clocked last (0xff ∷ 0xff ∷ [])
      ∷ low
      ∷ low
      ∷ high
      ∷ clocked (all_pads up) (0 ∷ 0 ∷ 0 ∷ 0 ∷ [])
      ∷ low
      ∷ high
      ∷ clocked (all_pads down) (0 ∷ 0 ∷ 0 ∷ 0 ∷ [])
      ∷ high
      ∷ []

module _ (regs : FlashRegs) (apart : IsApart regs) where
  open regs use {sd_od, sd_pue, sd_pde}

  -- Each bit of the pads in the first round.
  down-IsFloating : (pad : ℕ) → IsFloating sd_od sd_pde sd_pue pad (recovery_pad regs pad)
  unfolding recovery_pad
  down-IsFloating pad =
      let no_od = clear_bit pad sd_od in
      let no_pue = clear_bit no_od sd_pue in
      let no_pde = clear_bit no_pue sd_pde in
      let od = set_bit no_pde sd_od in
      record {
        no_output =
            test_bit-set_bit_ne od sd_pde sd_od (λ e. apart.od_pde (sym e))
            ∙ test_bit-set_bit_self no_pde sd_od;
        is_on = test_bit-set_bit_self od sd_pde;
        is_off =
            test_bit-set_bit_ne od sd_pde sd_pue (λ e. apart.pue_pde (sym e))
            ∙ test_bit-set_bit_ne no_pde sd_od sd_pue apart.od_pue
            ∙ test_bit-clear_bit_ne no_pue sd_pde sd_pue (λ e. apart.pue_pde (sym e))
            ∙ test_bit-clear_bit_self no_od sd_pue;
        others = λ j a b c.
            test_bit-set_bit_ne od sd_pde j (λ e. b (sym e))
            ∙ test_bit-set_bit_ne no_pde sd_od j (λ e. a (sym e))
            ∙ test_bit-clear_bit_ne no_pue sd_pde j (λ e. b (sym e))
            ∙ test_bit-clear_bit_ne no_od sd_pue j (λ e. c (sym e))
            ∙ test_bit-clear_bit_ne pad sd_od j (λ e. a (sym e));
      }

  up-IsFloating :
      (old pad : ℕ)
      → IsFloating sd_od sd_pde sd_pue old pad
      → IsFloating sd_od sd_pue sd_pde old (pulled sd_pue sd_pde pad)
  up-IsFloating old pad down =
      let up = pulled-IsPulled sd_pue sd_pde pad apart.pue_pde in
      record {
        no_output = up.others sd_od apart.od_pue apart.od_pde ∙ down.no_output;
        is_on = up.is_on;
        is_off = up.is_off;
        others = λ j a b c. up.others j b c ∙ down.others j a c b;
      }

  -- Leaving XIP makes the chip see the recovery sequence. In its two times 32 clocks the pads put nothing
  -- out and are pulled down first, up then. Afterwards the pads 0 and 1 are as pad 0 was, and the pads 2
  -- and 3, which may be write protect and hold, are so but for the pull, which is up; the SSI is
  -- enabled. Nothing was seen before, and the bits for the output and for the pulls are different ones.
  pub exit_xip-recovery :
      (p : FlashPort)
      → p.seen ≡ []
      → (down up : ℕ) × IsFloating sd_od sd_pde sd_pue p.pads.sd0 down
        × IsFloating sd_od sd_pue sd_pde p.pads.sd0 up
        × ((flash_exit_xip regs p).seen ≡ recovery regs down up (flash_exit_xip regs p).pads)
        × ((flash_exit_xip regs p).pads.sd0 ≡ p.pads.sd0)
        × ((flash_exit_xip regs p).pads.sd1 ≡ p.pads.sd0)
        × IsPulled sd_pue sd_pde p.pads.sd0 (flash_exit_xip regs p).pads.sd2
        × IsPulled sd_pue sd_pde p.pads.sd0 (flash_exit_xip regs p).pads.sd3
        × ((flash_exit_xip regs p).ssi.ssienr ≡ 1)
        × ((flash_exit_xip regs p).ss_ctrl ≡ 0)
  unfolding flash_exit_xip clock_out flash_cs_force recovery_rounds flash_init_spi
  exit_xip-recovery p e =
      let down = down-IsFloating p.pads.sd0 in
      let last = pulled-IsPulled sd_pue sd_pde p.pads.sd0 apart.pue_pde in
      (
        recovery_pad regs p.pads.sd0,
        pulled sd_pue sd_pde (recovery_pad regs p.pads.sd0),
        down,
        up-IsFloating p.pads.sd0 (recovery_pad regs p.pads.sd0) down,
        rw e refl,
        refl,
        refl,
        last,
        last,
        refl,
        refl,
      )
