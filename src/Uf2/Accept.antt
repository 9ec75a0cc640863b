-- ===== src/Uf2/Accept.antt =====
-- What `_update_current_uf2_info` promises of a block that it accepts or rejects.
use pico_bootrom_crashdump.Prelude.{
  ℕ, ◌%◌, ◌≤◌, ◌<◌, ◌≡◌, ◌≢◌, ◌⊎◌, true, false, arith, if◌then◌else◌,
}
use pico_bootrom_crashdump.Prelude.Bits.{set_bit, test_bit}
use pico_bootrom_crashdump.Platform.{Sdk}
use pico_bootrom_crashdump.Task.At
use pico_bootrom_crashdump.Uf2.{State, Uf2Block, max_ram_uf2_blocks, flash_max_valid_blocks}
use pico_bootrom_crashdump.Uf2.Bitset.{has, has-clear_bitset}
use pico_bootrom_crashdump.Uf2.Receive.{
  is_ram_block, is_flash_block, is_garbage, start_download, prepare, update_current_uf2_info,
}

module _ (sdk : Sdk) (uf2 : Uf2Block) where
  -- The number of blocks that a download of the kind of this block can have.
  abbrev pub capacity : ℕ
  capacity = if is_ram_block sdk uf2 then max_ram_uf2_blocks else flash_max_valid_blocks sdk

  -- A block that is not accepted leaves no download in progress.
  pub update-rejected :
      (token : ℕ) (s : State)
      → (update_current_uf2_info sdk uf2 token s).0 ≡ false
      → (update_current_uf2_info sdk uf2 token s).1.info.num_blocks ≡ 0
  unfolding update_current_uf2_info prepare start_download
  update-rejected token s h = ground arith

  pub update_disk :
      (token : ℕ) (s : State) → (update_current_uf2_info sdk uf2 token s).1.disk ≡ s.disk
  unfolding update_current_uf2_info prepare start_download
  update_disk token s = ground arith

  -- A block that is accepted is one of the blocks of a download that fits its bit set, is of the
  -- kind of the download (RAM or flash), and its task writes the 256 bytes of the block to its
  -- target, a page within RAM or an aligned page of flash: the task is a write and nothing else, but
  -- that it may leave XIP first for flash. The state has a download that fits, or none, before.
  pub update-accepted :
      (token : ℕ) (s : State)
      → (s.info.num_blocks ≢ 0 → s.info.ram ≡ is_ram_block sdk uf2 → s.info.num_blocks ≤ capacity)
      → (update_current_uf2_info sdk uf2 token s).0 ≡ true
      → let i = (update_current_uf2_info sdk uf2 token s).1.info in
        (i.block_no ≡ uf2.block_no)
        × (i.block_no < i.num_blocks)
        × (i.num_blocks ≡ uf2.num_blocks)
        × (i.num_blocks ≤ capacity)
        × (i.ram ≡ is_ram_block sdk uf2)
        × (test_bit i.next_task.kind At.write ≡ true)
        × ((i.next_task.kind ≡ 0x08)
            ⊎ ((i.next_task.kind ≡ 0x09) × (is_flash_block sdk uf2 ≡ true)))
        × (i.next_task.transfer_addr ≡ uf2.target_addr)
        × (i.next_task.data_length ≡ 256)
        × (i.next_task.buffer ≡ uf2.buffer)
        × ((is_ram_block sdk uf2 ≡ true)
            ⊎ ((is_flash_block sdk uf2 ≡ true) × (uf2.target_addr % 256 ≡ 0)))
  unfolding update_current_uf2_info prepare start_download is_garbage set_bit test_bit
  update-accepted token s fits h = ground (arith, fits)

  -- When a block starts a download, no block of it is marked as written.
  pub update-fresh :
      (token i : ℕ) (s : State)
      → s.info.num_blocks ≢ uf2.num_blocks
      → (update_current_uf2_info sdk uf2 token s).0 ≡ true
      → i < capacity
      → let s' = (update_current_uf2_info sdk uf2 token s).1 in
        has (if s'.info.ram then s'.ram_words else s'.flash_words) i ≡ false
  unfolding update_current_uf2_info prepare start_download
  update-fresh token i s ne h small = ground (
    arith,
    has-clear_bitset s.ram_words 1280 i,
    has-clear_bitset s.flash_words (flash_max_valid_blocks sdk) i,
  )
