-- ===== src/Task/Safety/Rules.antt =====
-- The flash commands and addresses that a task may use, and how a chain of steps keeps a predicate.
use pico_bootrom_crashdump.Prelude.{
  ℕ, zero, suc, ◌+◌, ◌*◌, ◌%◌, ◌^◌, ◌≤◌, ◌<◌, ◌≡◌, ◌⊎◌, inl, inr, refl, ap, true, false, ◌&&◌, List,
  [], ◌∷◌, ◌++◌, arith, ltb, leb, if◌then◌else◌, Bool-cases, length,
}
use pico_bootrom_crashdump.Prelude.Bits.{test_bit}
use pico_bootrom_crashdump.Platform.{Sdk, IsValid, is_address_ram, is_address_flash}
use pico_bootrom_crashdump.Task.At
use pico_bootrom_crashdump.Task.{
  Task, Machine, FlashCommand, flash_enter_cmd_xip, flash_exit_xip, flash_sector_erase,
  flash_page_program, flash_read_data,
}
use pico_bootrom_crashdump.Task.EraseRange.{sectors}
use pico_bootrom_crashdump.Task.Execute.{add32, bytes, Exec, go, stop, ◌>>=◌}

module _ (sdk : Sdk) where
  -- The flash commands that stay within the address range of flash, at whole sectors and pages.
  abbrev pub Allowed : FlashCommand → Type 0
  Allowed flash_enter_cmd_xip = Unit {0}
  Allowed flash_exit_xip = Unit {0}
  Allowed (flash_sector_erase o) = (o % 4096 ≡ 0) × (sdk.xip_main_base + o + 4096 ≤ sdk.sram_base)
  Allowed (flash_page_program o page) =
      (o % 256 ≡ 0) × (sdk.xip_main_base + o + 256 ≤ sdk.sram_base) × (length page ≡ 256)
  Allowed (flash_read_data o n) = sdk.xip_main_base + o + n ≤ sdk.sram_base

  abbrev pub AllAllowed : List FlashCommand → Type 0
  AllAllowed [] = Unit {0}
  AllAllowed (c ∷ cs) = Allowed c × AllAllowed cs

  pub AllAllowed-append :
      (cs ds : List FlashCommand) → AllAllowed cs → AllAllowed ds → AllAllowed (cs ++ ds)
  AllAllowed-append [] ds p q = q
  AllAllowed-append (c ∷ cs) ds p q = (p.0, AllAllowed-append cs ds p.1 q)

  pub AllAllowed-sectors :
      (n o : ℕ)
      → o % 4096 ≡ 0
      → sdk.xip_main_base + o + 4096 * n ≤ sdk.sram_base
      → AllAllowed (sectors o n)
  AllAllowed-sectors zero o a h = tt
  AllAllowed-sectors (suc n) o a h =
      ((a, omega arith), AllAllowed-sectors n (o + 4096) (omega arith) (omega arith))

  -- An address of SRAM or of the XIP cache used as RAM, the end not included.
  abbrev pub InRam : ℕ → Type 0
  InRam a =
      ((sdk.sram_base ≤ a) × (a < sdk.sram_end))
      ⊎ ((sdk.xip_sram_base ≤ a) × (a < sdk.xip_sram_end))

pub flash_range :
    (sdk : Sdk) (a : ℕ)
    → is_address_flash sdk a ≡ true
    → (sdk.xip_main_base ≤ a) × (a ≤ sdk.sram_base)
unfolding is_address_flash
flash_range sdk a h = ground arith

pub length-bytes : (n : ℕ) (ram : ℕ → ℕ) (addr : ℕ) → length (bytes ram addr n) ≡ n
length-bytes zero ram addr = refl
length-bytes (suc n) ram addr = ap suc (length-bytes n ram (addr + 1))

abbrev pub Ensures : (Machine → Type 0) → Exec → Type 0
Ensures P (go m) = P m
Ensures P (stop ret m) = P m

pub Ensures-bind :
    (P : Machine → Type 0) (e : Exec) (f : Machine → Exec)
    → Ensures P e
    → ((m : Machine) → P m → Ensures P (f m))
    → Ensures P (e >>= f)
Ensures-bind P (go m) f h k = k m h
Ensures-bind P (stop ret m) f h k = h

-- The bounds that the callers keep: a transfer of at most a page, a 32-bit size to erase, no call
-- of user code and no table of flash functions set up.
pub record IsBounded (task : Task) : Type 0 where
  pub some_data : 0 < task.data_length
  pub page : task.data_length ≤ 256
  pub size : task.erase_size < 2 ^ 32
  pub no_exec : test_bit task.kind At.exec ≡ false
  pub no_vectorize : test_bit task.kind At.vectorize_flash ≡ false

-- A checked range of at most a page lies in RAM.
pub ram_range :
    (sdk : Sdk) (addr n a : ℕ)
    → IsValid sdk
    → n ≤ 256
    → is_address_ram sdk addr ≡ true
    → is_address_ram sdk (add32 addr n) ≡ true
    → addr ≤ a
    → a < addr + n
    → InRam sdk a
unfolding is_address_ram
ram_range sdk addr n a v small p q lo hi = ground arith

pub patched :
    (lo n a v w : ℕ)
    → n ≤ 256
    → ((if leb lo a && ltb a (lo + n) then v else w) ≡ w) ⊎ ((lo ≤ a) × (a < lo + 256))
patched lo n a v w h = elim (Bool-cases (leb lo a && ltb a (lo + n))) [
  | inl p ↦ inr (ground arith, ground arith)
  | inr p ↦ inl (rw p)
]
