-- ===== src/Uf2/Receive.antt =====
-- `_update_current_uf2_info` of bootrom/virtual_disk.c: whether a block belongs to a download, and
-- the task that would write it.
use pico_bootrom_crashdump.Prelude.{
  ℕ, ◌-◌, ◌%◌, Bool, true, false, not, ◌&&◌, ◌||◌, none, some, ltb, ◌==◌, if◌then◌else◌,
}
use pico_bootrom_crashdump.Prelude.Bits.{set_bit}
use pico_bootrom_crashdump.Platform.{Sdk, is_address_ram, is_address_flash}
use pico_bootrom_crashdump.Task.At
use pico_bootrom_crashdump.Task.{reset_task, write_uf2_page_complete, flash_page_size}
use pico_bootrom_crashdump.Task.Execute.{add32}
use pico_bootrom_crashdump.Uf2.{
  ram_blocks, flash_blocks, Uf2Info, State, Uf2Block, max_ram_uf2_blocks, flash_max_valid_blocks,
  flash_max_cleared_pages,
}
use pico_bootrom_crashdump.Uf2.Bitset.{clear_bitset}

-- `memset0(&_uf2_info, sizeof(_uf2_info))`
abbrev pub zero_info : Uf2Info
zero_info = record {
  valid_blocks = none;
  max_valid_blocks = 0;
  has_cleared_pages = false;
  max_cleared_pages = 0;
  num_blocks = 0;
  token = 0;
  valid_block_count = 0;
  lowest_addr = 0;
  block_no = 0;
  next_task = reset_task;
  ram = false;
}

-- `TASK_SOURCE_VIRTUAL_DISK`
abbrev pub task_source_virtual_disk : ℕ
task_source_virtual_disk = 1

-- `a != b` on Booleans.
abbrev pub differ : Bool → Bool → Bool
differ a b = if a then not b else b

module _ (sdk : Sdk) (uf2 : Uf2Block) where
  abbrev pub whole_page : (ℕ → Bool) → Bool
  whole_page test = test uf2.target_addr && test (add32 uf2.target_addr (flash_page_size - 1))

  unfoldable pub is_ram_block : Bool
  is_ram_block = whole_page (is_address_ram sdk)

  unfoldable pub is_flash_block : Bool
  is_flash_block = whole_page (is_address_flash sdk)

  unfoldable pub is_garbage : Bool
  is_garbage =
      not (not (uf2.num_blocks == 0) && (is_ram_block || is_flash_block))
      || (is_flash_block && not (uf2.target_addr % flash_page_size == 0))

  -- The state of a new download, before its size is checked.
  unfoldable pub start_download : State → State
  start_download s = record s {
    info = record zero_info {
      ram = is_ram_block;
      valid_blocks = some (if is_ram_block then ram_blocks else flash_blocks);
      max_valid_blocks = if is_ram_block then max_ram_uf2_blocks else flash_max_valid_blocks sdk;
      has_cleared_pages = is_flash_block;
      max_cleared_pages = if is_flash_block then flash_max_cleared_pages sdk else 0;
    };
    ram_words = if is_ram_block then clear_bitset s.ram_words max_ram_uf2_blocks else s.ram_words;
    flash_words =
        if is_ram_block
        then s.flash_words
        else clear_bitset s.flash_words (flash_max_valid_blocks sdk);
    cleared_words =
        if is_flash_block
        then clear_bitset s.cleared_words (flash_max_cleared_pages sdk)
        else s.cleared_words;
  }

  -- `_uf2_info.num_blocks = 0; return false;`
  abbrev pub invalid : State → Bool × State
  invalid s = (false, record s { info = record (s.info) { num_blocks = 0 } })

  -- The checks of a block against the current download, and the task that writes it.
  unfoldable pub prepare : ℕ → ℕ → State → Bool × State
  prepare token kind s =
      if differ is_ram_block s.info.ram
      then invalid s
      else if ltb uf2.block_no uf2.num_blocks
      then (
        true,
        record s {
          info = record (s.info) {
            block_no = uf2.block_no;
            token = token;
            next_task = record reset_task {
              token = token;
              transfer_addr = uf2.target_addr;
              kind = kind;
              buffer = uf2.buffer;
              callback = some write_uf2_page_complete;
              data_length = flash_page_size;
              source = task_source_virtual_disk;
            };
          };
        },
      )
      else invalid s

  unfoldable pub update_current_uf2_info : ℕ → State → Bool × State
  update_current_uf2_info token s =
      if is_garbage
      then invalid s
      else if s.disable
      then invalid s
      else if s.info.num_blocks == uf2.num_blocks
      then prepare token (set_bit 0 At.write) s
      else let fresh = start_download s in
        if ltb fresh.info.max_valid_blocks uf2.num_blocks
        then (false, fresh)
        else prepare token
            (if is_flash_block
              then set_bit (set_bit 0 At.write) At.exit_xip
              else set_bit 0 At.write)
            (record fresh {
              info = record (fresh.info) {
                num_blocks = uf2.num_blocks;
                valid_block_count = 0;
                lowest_addr = 0xffffffff;
              };
            })
