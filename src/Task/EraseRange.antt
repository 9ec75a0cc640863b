-- ===== src/Task/EraseRange.antt =====
-- The loop of `_do_flash_erase_range` with the default flash functions.
use pico_bootrom_crashdump.Prelude.{
  ℕ, zero, suc, ◌+◌, ◌-◌, ◌*◌, ◌^◌, ◌≤◌, ◌<◌, ◌≡◌, ap, ◌∙◌, List, [], ◌∷◌, ◌++◌, arith, lt→ltb,
}
use mathlib.Core.List.{append-nil, append_assoc}
use pico_bootrom_crashdump.Platform.{IsValid}
use pico_bootrom_crashdump.Task.{
  Machine, FlashCommand, flash_sector_erase, do_flash_erase_range, Env,
}
use pico_bootrom_crashdump.Task.Execute.{
  add32, sub32, send, erase_loop, erase_fuel, default_erase_sector, call_erase_sector, default_call,
}

-- The commands that erase `n` sectors from an offset on.
abbrev pub sectors : ℕ → ℕ → List FlashCommand
sectors offset zero = []
sectors offset (suc n) = flash_sector_erase offset ∷ sectors (offset + 4096) n

module _ (erase : ℕ → Machine → ℕ × Machine) (fuel addr end : ℕ) (m : Machine) where
  erase_stop : end ≤ addr → erase_loop erase (suc fuel) addr end 0 m ≡ (0, m)
  unfolding erase_loop
  erase_stop h = ground arith

  erase_step :
      (m' : Machine)
      → addr < end
      → erase addr m ≡ (0, m')
      → erase_loop erase (suc fuel) addr end 0 m ≡ erase_loop erase fuel (add32 addr 4096) end 0 m'
  unfolding erase_loop
  erase_step m' h e = rw (erase_loop, lt→ltb addr end h, e)

module _ (env : Env) where
  open env use {sdk}

  call_erase_sector_lem :
      (addr : ℕ) (m : Machine)
      → m.flash_funcs ≡ env.default_flash_funcs
      → sdk.xip_main_base ≤ addr
      → addr < 2 ^ 32
      → call_erase_sector env addr m ≡ (0, send (flash_sector_erase (addr - sdk.xip_main_base)) m)
  unfolding call_erase_sector default_erase_sector
  call_erase_sector_lem addr m e lo hi =
      let o : sub32 addr sdk.xip_main_base ≡ addr - sdk.xip_main_base = omega arith in
      ground (arith, o)

  pub erase_loop_lem :
      (n fuel addr : ℕ) (m : Machine)
      → n < fuel
      → m.flash_funcs ≡ env.default_flash_funcs
      → sdk.xip_main_base ≤ addr
      → addr + 4096 * n < 2 ^ 32 - 4096
      → erase_loop (call_erase_sector env) fuel addr (addr + 4096 * n) 0 m
        ≡ (0, record m { commands = m.commands ++ sectors (addr - sdk.xip_main_base) n })
  erase_loop_lem n zero addr m h e lo hi = elim h [ ]
  erase_loop_lem zero (suc fuel) addr m h e lo hi =
      erase_stop (call_erase_sector env) fuel addr (addr + 4096 * zero) m (omega arith)
      ∙ rw append-nil
  erase_loop_lem (suc n) (suc fuel) addr m h e lo hi =
      erase_step (call_erase_sector env) fuel addr (addr + 4096 * suc n) m m' (omega arith)
        (call_erase_sector_lem addr m e lo (omega arith))
      ∙ rw (next, end)
          (erase_loop_lem n fuel (addr + 4096) m' (omega arith) e (omega arith) (omega arith))
      ∙ ap (λ (c : List FlashCommand). (0, record m { commands = c }))
          (append_assoc m.commands (flash_sector_erase first ∷ [])
              (sectors (addr + 4096 - sdk.xip_main_base) n)
            ∙ ap (λ (o : ℕ). m.commands ++ flash_sector_erase first ∷ sectors o n) offset)
    where
      first : ℕ
      first = addr - sdk.xip_main_base

      m' : Machine
      m' = send (flash_sector_erase first) m

      next : add32 addr 4096 ≡ addr + 4096
      next = omega arith

      end : addr + 4096 * suc n ≡ addr + 4096 + 4096 * n
      end = omega arith

      offset : addr + 4096 - sdk.xip_main_base ≡ first + 4096
      offset = omega arith

  -- Erasing a range of whole sectors within flash sends one erase command for each sector, in
  -- order, and succeeds, with the default flash functions in use.
  pub erase_range_lem :
      (n addr : ℕ) (m : Machine)
      → IsValid sdk
      → m.flash_funcs ≡ env.default_flash_funcs
      → sdk.xip_main_base ≤ addr
      → addr + 4096 * n ≤ sdk.sram_base
      → default_call env (do_flash_erase_range addr (4096 * n)) m
        ≡ (0, record m { commands = m.commands ++ sectors (addr - sdk.xip_main_base) n })
  unfolding default_call
  erase_range_lem n addr m v e lo hi =
      ap (λ (end : ℕ). erase_loop (call_erase_sector env) erase_fuel addr end 0 m) no_wrap
      ∙ erase_loop_lem n erase_fuel addr m (omega arith) e lo (omega arith)
    where
      no_wrap : add32 addr (4096 * n) ≡ addr + 4096 * n
      no_wrap = omega arith

  -- A range that wraps past 2 ^ 32 erases nothing.
  pub erase_range_wrapped :
      (addr len : ℕ) (m : Machine)
      → add32 addr len ≤ addr
      → default_call env (do_flash_erase_range addr len) m ≡ (0, m)
  unfolding default_call
  erase_range_wrapped addr len m h =
      erase_stop (call_erase_sector env) (2 ^ 20) addr (add32 addr len) m h
