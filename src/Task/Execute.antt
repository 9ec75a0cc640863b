-- ===== src/Task/Execute.antt =====
-- `_execute_task` of bootrom/async_task.c, in the order of its tests, and the default flash
-- functions.
use pico_bootrom_crashdump.Prelude.{
  ℕ, zero, suc, ◌+◌, ◌-◌, ◌%◌, ◌^◌, Bool, true, false, not, ◌&&◌, ◌||◌, List, [], ◌∷◌, ◌++◌, ltb,
  leb, ◌==◌, if◌then◌else◌, min, max,
}
use pico_bootrom_crashdump.Prelude.Bits.{test_bit}
use pico_bootrom_crashdump.Buffer.{store_list}
use pico_bootrom_crashdump.Platform.{is_address_ram, is_address_flash, is_address_rom}
use pico_bootrom_crashdump.Task.At
use pico_bootrom_crashdump.Task.{
  Task, Machine, FlashCommand, flash_enter_cmd_xip, flash_exit_xip, flash_sector_erase,
  flash_page_program, flash_read_data, FlashCall, do_flash_enter_cmd_xip, do_flash_exit_xip,
  do_flash_erase_sector, do_flash_erase_range, do_flash_page_program, do_flash_page_read, Env,
  flash_page_size, flash_sector_erase_size, flash_funcs_size,
}

-- 32-bit addition and subtraction.
abbrev pub add32 : ℕ → ℕ → ℕ
add32 a b = (a + b) % 2 ^ 32

abbrev pub sub32 : ℕ → ℕ → ℕ
sub32 a b = (a + 2 ^ 32 - b) % 2 ^ 32

-- The `n` bytes of memory from `addr` on.
abbrev pub bytes : (ℕ → ℕ) → ℕ → ℕ → List ℕ
bytes ram addr zero = []
bytes ram addr (suc n) = ram addr ∷ bytes ram (addr + 1) n

-- `memcpy((void *) to, (void *) from, n)` of ranges that do not overlap
abbrev pub copy : (ℕ → ℕ) → ℕ → ℕ → ℕ → ℕ → ℕ
copy ram to from n a = if leb to a && ltb a (to + n) then ram (from + (a - to)) else ram a

abbrev pub send : FlashCommand → Machine → Machine
send c m = record m { commands = m.commands ++ (c ∷ []) }

-- `while (addr < end && !ret) { ret = erase(addr); addr += FLASH_SECTOR_ERASE_SIZE; }`
unfoldable pub erase_loop : (ℕ → Machine → ℕ × Machine) → ℕ → ℕ → ℕ → ℕ → Machine → ℕ × Machine
erase_loop erase zero addr end ret m = (ret, m)
erase_loop erase (suc fuel) addr end ret m = elim (ltb addr end && ret == 0) [
  | true ↦
      let (ret', m') = erase addr m in
      erase_loop erase fuel (add32 addr flash_sector_erase_size) end ret' m'
  | false ↦ (ret, m)
]

-- A 32-bit address range has fewer sectors.
abbrev pub erase_fuel : ℕ
erase_fuel = 2 ^ 20 + 1

module _ (env : Env) where
  open env use {sdk}

  -- `_do_flash_erase_sector`
  unfoldable pub default_erase_sector : ℕ → Machine → ℕ × Machine
  default_erase_sector addr m = (0, send (flash_sector_erase (sub32 addr sdk.xip_main_base)) m)

  -- `flash_funcs->do_flash_erase_sector(addr)`
  unfoldable pub call_erase_sector : ℕ → Machine → ℕ × Machine
  call_erase_sector addr m =
      if m.flash_funcs == env.default_flash_funcs
      then default_erase_sector addr m
      else env.vectored m.flash_funcs (do_flash_erase_sector addr) m

  -- `_do_flash_enter_cmd_xip` to `_do_flash_page_read`. `flash_exit_xip` follows
  -- `connect_internal_flash`.
  unfoldable pub default_call : FlashCall → Machine → ℕ × Machine
  default_call do_flash_enter_cmd_xip m = (0, send flash_enter_cmd_xip m)
  default_call do_flash_exit_xip m = (0, send flash_exit_xip m)
  default_call (do_flash_erase_sector addr) m = default_erase_sector addr m
  default_call (do_flash_erase_range addr len) m =
      erase_loop call_erase_sector erase_fuel addr (add32 addr len) 0 m
  default_call (do_flash_page_program addr data_addr) m = (
    0,
    send (flash_page_program (sub32 addr sdk.xip_main_base) (bytes m.ram data_addr flash_page_size))
        m,
  )
  default_call (do_flash_page_read addr data_addr) m =
      let offset = sub32 addr sdk.xip_main_base in
      (
        0,
        send (flash_read_data offset flash_page_size) (record m {
          ram = λ a.
              if leb data_addr a && ltb a (data_addr + flash_page_size)
              then env.flash_byte m.commands (offset + (a - data_addr))
              else m.ram a;
        }),
      )

  -- A call through `flash_funcs`.
  unfoldable pub call : FlashCall → Machine → ℕ × Machine
  call c m =
      if m.flash_funcs == env.default_flash_funcs
      then default_call c m
      else env.vectored m.flash_funcs c m

-- An early `return ret`, or the end of a step.
pub data Exec : Type 0 where
  go : Machine → Exec
  stop : ℕ → Machine → Exec

infixl 5 ◌>>=◌
abbrev pub ◌>>=◌ : Exec → (Machine → Exec) → Exec
go m >>= f = f m
stop ret m >>= f = stop ret m

-- `if (ret) return ret;`
abbrev pub checked : ℕ × Machine → Exec
checked (ret, m) = if ret == 0 then go m else stop ret m

module _ (env : Env) (task : Task) where
  open env use {sdk}

  unfoldable pub is_address_safe_for_vectoring : ℕ → Bool
  is_address_safe_for_vectoring addr =
      is_address_ram sdk addr
      && (ltb addr sdk.xip_sram_base
          || ltb (sdk.xip_sram_base + (sdk.xip_sram_end - sdk.xip_sram_base)) addr)

  unfoldable pub vectorize : Machine → Exec
  vectorize m =
      if not (test_bit task.kind At.vectorize_flash)
      then go m
      else if task.transfer_addr % 2 == 1
      then stop sdk.picoboot_bad_alignment m
      else if is_address_safe_for_vectoring task.transfer_addr
          && is_address_safe_for_vectoring (add32 task.transfer_addr flash_funcs_size)
      then go (record m {
        ram = store_list m.ram task.transfer_addr env.default_table;
        flash_funcs = task.transfer_addr;
      })
      else stop sdk.picoboot_invalid_address m

  unfoldable pub exclusive : Machine → Exec
  exclusive m =
      if not (test_bit task.kind At.exclusive)
      then go m
      else go (record m {
        disk_disable = not (task.exclusive_param == 0);
        ejected = m.ejected || task.exclusive_param == sdk.exclusive_and_eject;
      })

  unfoldable pub exit_xip : Machine → Exec
  exit_xip m =
      if test_bit task.kind At.exit_xip then checked (call env do_flash_exit_xip m) else go m

  unfoldable pub exec : Machine → Exec
  exec m = if test_bit task.kind At.exec then go (env.run task.transfer_addr m) else go m

  unfoldable pub mutation : Machine → Exec
  mutation m =
      if test_bit task.kind At.write || test_bit task.kind At.flash_erase
      then (if task.check_last_mutation_source && not (m.last_mutation_source == task.source)
          then stop sdk.picoboot_interleaved_write m
          else go (record m { last_mutation_source = task.source }))
      else go m

  unfoldable pub erase : Machine → Exec
  erase m =
      if not (test_bit task.kind At.flash_erase)
      then go m
      else if not (task.erase_addr % flash_sector_erase_size == 0)
      then stop sdk.picoboot_bad_alignment m
      else if not (task.erase_size % flash_sector_erase_size == 0)
      then stop sdk.picoboot_bad_alignment m
      else if is_address_flash sdk task.erase_addr
          && is_address_flash sdk (add32 task.erase_addr task.erase_size)
      then checked (call env (do_flash_erase_range task.erase_addr task.erase_size) m)
      else stop sdk.picoboot_invalid_address m

  -- The range lies in memory that is accessed directly: RAM, or ROM where nothing is written.
  unfoldable pub direct_access : Bool
  direct_access =
      (is_address_ram sdk task.transfer_addr
        && is_address_ram sdk (add32 task.transfer_addr task.data_length))
      || (not (test_bit task.kind At.write)
          && (is_address_rom task.transfer_addr
              && is_address_rom (add32 task.transfer_addr task.data_length)))

  -- `MAX(ff, transfer_addr) < MIN(ff + sizeof(struct flash_funcs), transfer_addr + data_length)`
  unfoldable pub overlaps_vectors : ℕ → Bool
  overlaps_vectors ff =
      ltb (max ff task.transfer_addr)
        (min (add32 ff flash_funcs_size) (add32 task.transfer_addr task.data_length))

  unfoldable pub write : Machine → Exec
  write m =
      if not (test_bit task.kind At.write)
      then go m
      else if direct_access
      then go (record m {
        flash_funcs =
            if overlaps_vectors m.flash_funcs then env.default_flash_funcs else m.flash_funcs;
        ram = copy m.ram task.transfer_addr task.buffer task.data_length;
      })
      else checked (call env (do_flash_page_program task.transfer_addr task.buffer) m)

  unfoldable pub read : Machine → Exec
  read m =
      if not (test_bit task.kind At.read)
      then go m
      else if direct_access
      then go (record m { ram = copy m.ram task.buffer task.transfer_addr task.data_length })
      else checked (call env (do_flash_page_read task.transfer_addr task.buffer) m)

  unfoldable pub enter_cmd_xip : Machine → Exec
  enter_cmd_xip m =
      if test_bit task.kind At.enter_cmd_xip
      then checked (call env do_flash_enter_cmd_xip m)
      else go m

  -- The address checks before a transfer.
  unfoldable pub check_transfer : Machine → Exec
  check_transfer m =
      if direct_access
      then go m
      else if is_address_flash sdk task.transfer_addr
          && is_address_flash sdk (add32 task.transfer_addr task.data_length)
      then (if task.transfer_addr % flash_page_size == 0
          then go m
          else stop sdk.picoboot_bad_alignment m)
      else stop sdk.picoboot_invalid_address m

  unfoldable pub transfer : Machine → Exec
  transfer m =
      if test_bit task.kind At.write || test_bit task.kind At.read
      then check_transfer m >>= write >>= read >>= enter_cmd_xip
      else go m

  unfoldable pub finish : Exec → ℕ × Machine
  finish (go m) = (sdk.picoboot_ok, m)
  finish (stop ret m) = (ret, m)

  unfoldable pub execute : Machine → ℕ × Machine
  execute m =
      if m.rebooting
      then (sdk.picoboot_rebooting, m)
      else finish
          (vectorize m >>= exclusive >>= exit_xip >>= exec >>= mutation >>= erase >>= transfer)
