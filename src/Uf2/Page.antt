-- ===== src/Uf2/Page.antt =====
-- `vd_write_block`, `_write_uf2_page` and `_write_uf2_page_complete` of bootrom/virtual_disk.c.
-- `_write_uf2_page` begins with `reset_usb_boot` (bootrom/bootrom_main.c), which does not return;
-- what stands behind that call is `queue_page`, the rest of the function.
use pico_bootrom_crashdump.Prelude.{
  ℕ, ◌+◌, ◌-◌, ◌*◌, ◌/◌, ◌%◌, ◌^◌, Bool, true, false, not, ◌&&◌, ◌||◌, Option, none, some, ltb,
  ◌==◌, if◌then◌else◌,
}
use pico_bootrom_crashdump.Prelude.Bits.{set_bit, test_bit}
use pico_bootrom_crashdump.Platform.{Sdk}
use pico_bootrom_crashdump.Task.At
use pico_bootrom_crashdump.Task.{Task, write_uf2_page_complete, flash_sector_erase_size}
use pico_bootrom_crashdump.Task.Queue.{queue_task}
use pico_bootrom_crashdump.Uf2.{Uf2Info, State, Uf2Block}
use pico_bootrom_crashdump.Uf2.Bitset.{has, add}
use pico_bootrom_crashdump.Uf2.Receive.{differ, update_current_uf2_info}

-- How a call of the disk ends: it returns, or the device restarts in the boot mode with the two
-- words left in `scratch` and never returns.
pub data Outcome : Type 0 where
  returns : Bool → State → Outcome
  resets : ℕ → ℕ → Outcome

-- `reset_usb_boot`
unfoldable pub reset_usb_boot : ℕ → ℕ → Outcome
reset_usb_boot usb_activity_gpio_pin_mask disable_interface_mask =
    resets usb_activity_gpio_pin_mask disable_interface_mask

-- `vd_reset`
unfoldable pub vd_reset : State → State
vd_reset s = record s { info = record (s.info) { num_blocks = 0 } }

-- The bit set that `valid_blocks` points to.
abbrev pub valid_words : State → ℕ → ℕ
valid_words s = if s.info.ram then s.ram_words else s.flash_words

-- `_uf2_info.valid_blocks[block_offset] |= block_mask`
abbrev pub mark_block : State → State
mark_block s =
    if s.info.ram
    then record s { ram_words = add s.ram_words s.info.block_no }
    else record s { flash_words = add s.flash_words s.info.block_no }

-- The sector of a flash page is erased with its first page.
unfoldable pub erase_page : State → State
erase_page s =
    let page_no = s.info.block_no * 256 / flash_sector_erase_size in
    let task = s.info.next_task in
    if has s.cleared_words page_no then s else record s {
      info = record (s.info) {
        next_task = record task {
          erase_addr = task.transfer_addr - task.transfer_addr % flash_sector_erase_size;
          erase_size = flash_sector_erase_size;
          kind = set_bit task.kind At.flash_erase;
        };
      };
      cleared_words = add s.cleared_words page_no;
    }

-- The page of an accepted block: the device resets first.
unfoldable pub write_uf2_page : ℕ → State → Outcome
write_uf2_page usb_activity_gpio_pin_mask s = reset_usb_boot usb_activity_gpio_pin_mask 0

module _ (sdk : Sdk) where
  -- The lowest address so far; an address of the XIP cache counts as above RAM.
  unfoldable pub lower : Uf2Info → ℕ
  lower i =
      let next = i.next_task.transfer_addr in
      let xip_cache_next = ltb next sdk.sram_base in
      let xip_cache_lowest = ltb i.lowest_addr sdk.sram_base in
      if (ltb next i.lowest_addr && not (differ xip_cache_next xip_cache_lowest))
        || (xip_cache_lowest && not xip_cache_next)
      then next
      else i.lowest_addr

  -- The rest of `_write_uf2_page`.
  unfoldable pub queue_page : State → Bool × State
  queue_page s =
      if has (valid_words s) s.info.block_no
      then (false, s)
      else let lowered = record s { info = record (s.info) { lowest_addr = lower s.info } } in
        let erased = if s.info.ram then lowered else erase_page lowered in
        let marked = mark_block erased in
        let (disk, task) = queue_task s.disk marked.info.next_task write_uf2_page_complete in
        (
          true,
          record marked {
            info = record (marked.info) {
              valid_block_count = (s.info.valid_block_count + 1) % 2 ^ 32;
              next_task = record task { check_last_mutation_source = true };
            };
            disk = disk;
          },
        )

  unfoldable pub is_uf2 : Uf2Block → Bool
  is_uf2 uf2 =
      uf2.magic_start0 == sdk.uf2_magic_start0
      && (uf2.magic_start1 == sdk.uf2_magic_start1 && uf2.magic_end == sdk.uf2_magic_end)

  unfoldable pub is_for_flash : Uf2Block → Bool
  is_for_flash uf2 =
      test_bit uf2.flags sdk.uf2_flag_family_id_present_bit
      && (uf2.file_size == sdk.rp2040_family_id
          && (not (test_bit uf2.flags sdk.uf2_flag_not_main_flash_bit) && uf2.payload_size == 256))

  unfoldable pub vd_write_block : ℕ → Uf2Block → ℕ → State → Outcome
  vd_write_block usb_activity_gpio_pin_mask uf2 token s =
      if is_uf2 uf2 && is_for_flash uf2
      then (let (valid, s') = update_current_uf2_info sdk uf2 token s in
          if valid then write_uf2_page usb_activity_gpio_pin_mask s' else returns false s')
      else returns false s

-- `_write_uf2_page_complete`: the address and stack pointer of the reboot, if the download is
-- complete.
unfoldable pub write_page_complete : Sdk → Task → Uf2Info → Option (ℕ × ℕ)
write_page_complete sdk task i =
    if task.token == i.token && (task.result == 0 && i.valid_block_count == i.num_blocks)
    then some (if i.ram then i.lowest_addr else 0, sdk.sram_end)
    else none
