-- ===== src/Boot/Clocks.antt =====
-- _usb_clock_setup of bootrom/bootrom_main.c: the registers of the oscillators, of the clocks and of
-- the system PLL that it writes, each field by itself, and the places where it waits.
use pico_bootrom_crashdump.Prelude.{ℕ, ◌*◌, ◌/◌, ◌≡◌, Bool, true, false, arith, if◌then◌else◌}

-- The three power-down bits are set while the part has no power.
pub record Pll : Type 0 where
  pub refdiv : ℕ
  pub fbdiv_int : ℕ
  pub postdiv1 : ℕ
  pub postdiv2 : ℕ
  pub pd : Bool
  pub vcopd : Bool
  pub postdivpd : Bool

pub record Clocks : Type 0 where
  pub rosc_enabled : Bool
  pub xosc_enabled : Bool
  pub ref_src : ℕ
  pub resus_enabled : Bool
  pub sys_src : ℕ
  pub sys_auxsrc : ℕ
  pub sys_div : ℕ
  pub usb_enabled : Bool
  pub usb_auxsrc : ℕ
  pub usb_div : ℕ
  pub pll : Pll

-- What a loop waits for: that clk_sys runs from clk_ref, that the crystal is stable, that the PLL is
-- locked, that clk_sys runs from its auxiliary source.
pub data Wait : Type 0 where
  sys_on_ref xosc_stable pll_locked sys_on_aux : Wait

-- A set-up that waits for ever, or has ended.
pub data ClockSetup : Type 0 where
  waiting : Wait → Clocks → ClockSetup
  ready : Clocks → ClockSetup

-- `comes` says whether the hardware does what a loop waits for, `pll_reset` is the PLL after a reset,
-- and `clksrc_pll_sys` the number of the PLL as auxiliary source of clk_usb.
module _ (comes : Wait → Clocks → Bool) (pll_reset : Pll) (clksrc_pll_sys : ℕ) where
  abbrev wait_for : Wait → Clocks → ClockSetup → ClockSetup
  wait_for w c rest = if comes w c then rest else waiting w c

  -- clk_ref and clk_sys leave the sources that are about to change.
  unfoldable pub to_ref : Clocks → Clocks
  to_ref c = record c { rosc_enabled = true; ref_src = 0; resus_enabled = true; sys_src = 0 }

  unfoldable pub start_xosc : Clocks → Clocks
  start_xosc c = record c { sys_div = 0x100; usb_div = 0x100; xosc_enabled = true }

  -- The PLL is reset and gets its divisors; then its oscillator gets power.
  unfoldable pub start_pll : Clocks → Clocks
  start_pll c =
      let set = record pll_reset { refdiv = 1; fbdiv_int = 100; postdiv1 = 5; postdiv2 = 5 } in
      record c { pll = record set { pd = false; vcopd = false } }

  unfoldable pub to_pll : Clocks → Clocks
  to_pll c = record c {
    pll = record (c.pll) { postdivpd = false };
    sys_auxsrc = 0;
    sys_src = 1;
    usb_enabled = true;
    usb_auxsrc = clksrc_pll_sys;
  }

  -- `_usb_clock_setup`
  unfoldable pub usb_clock_setup : Clocks → ClockSetup
  usb_clock_setup c =
      let on_ref = to_ref c in
      let crystal = start_xosc on_ref in
      let locking = start_pll crystal in
      let on_pll = to_pll locking in
      wait_for sys_on_ref on_ref (
        wait_for xosc_stable crystal
          (wait_for pll_locked locking (wait_for sys_on_aux on_pll (ready on_pll))))

-- The frequency of the PLL from that of the crystal.
abbrev pub pll_hz : Pll → ℕ → ℕ
pll_hz p crystal = crystal / p.refdiv * p.fbdiv_int / (p.postdiv1 * p.postdiv2)

abbrev pub IsPowered : Pll → Type 0
IsPowered p = (p.pd ≡ false) × (p.vcopd ≡ false) × (p.postdivpd ≡ false)

-- Both clocks run from the PLL, undivided, at 48 MHz with a crystal of 12 MHz.
abbrev pub IsFromPll : ℕ → Clocks → Type 0
IsFromPll clksrc_pll_sys c =
    (pll_hz c.pll 12000000 ≡ 48000000)
    × IsPowered c.pll
    × (c.sys_auxsrc ≡ 0)
    × (c.usb_enabled ≡ true)
    × (c.usb_auxsrc ≡ clksrc_pll_sys)
    × (c.sys_div ≡ 0x100)
    × (c.usb_div ≡ 0x100)

-- Wherever the set-up waits for the crystal or for the PLL, clk_sys is switched to clk_ref.
abbrev pub IsSafe : ℕ → ClockSetup → Type 0
IsSafe pll_sys (waiting sys_on_aux c) = (c.sys_src ≡ 1) × IsFromPll pll_sys c
IsSafe pll_sys (waiting w c) = (c.sys_src ≡ 0) × (c.ref_src ≡ 0) × (c.resus_enabled ≡ true)
IsSafe pll_sys (ready c) = (c.sys_src ≡ 1) × IsFromPll pll_sys c

-- Whatever the hardware does and the clocks were, the set-up never hangs but with clk_sys on clk_ref,
-- where resuscitation is on, until the PLL is locked; from then on both clocks are those of the PLL,
-- which gives 48 MHz from a crystal of 12 MHz.
pub clock_setup-IsSafe :
    (comes : Wait → Clocks → Bool) (pll_reset : Pll) (clksrc_pll_sys : ℕ) (c : Clocks)
    → IsSafe clksrc_pll_sys (usb_clock_setup comes pll_reset clksrc_pll_sys c)
unfolding usb_clock_setup to_ref start_xosc start_pll to_pll
clock_setup-IsSafe comes pll_reset clksrc_pll_sys c = grind arith
