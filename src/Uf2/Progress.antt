-- ===== src/Uf2/Progress.antt =====
-- The count of the blocks of a download, and what the completion of a write and a write to the
-- disk promise.
use pico_bootrom_crashdump.Prelude.{
  ℕ, ◌%◌, ◌^◌, ◌≤◌, ◌<◌, ◌≡◌, ◌≢◌, ◌↔◌, ◌⊎◌, refl, Bool, true, false, some, arith,
}
use pico_bootrom_crashdump.Prelude.Bits.{test_bit}
use pico_bootrom_crashdump.Platform.{Sdk}
use pico_bootrom_crashdump.Task.{Task}
use pico_bootrom_crashdump.Task.Queue.{queue_task}
use pico_bootrom_crashdump.Uf2.{State, Uf2Block, flash_max_valid_blocks}
use pico_bootrom_crashdump.Uf2.Bitset.{
  has, add, cardinal, cardinal-le, cardinal_full, cardinal-empty, cardinal-add, has-clear_bitset,
  clear_bitset,
}
use pico_bootrom_crashdump.Uf2.Receive.{
  is_ram_block, is_flash_block, is_garbage, start_download, prepare, update_current_uf2_info,
}
use pico_bootrom_crashdump.Uf2.Accept.{capacity, update-rejected, update_disk}
use pico_bootrom_crashdump.Uf2.Page.{
  returns, resets, reset_usb_boot, valid_words, erase_page, queue_page, write_uf2_page, is_uf2,
  is_for_flash, vd_write_block, write_page_complete,
}

-- The count is that of the marked blocks.
abbrev pub IsCounted : State → Type 0
IsCounted s =
    (s.info.valid_block_count ≡ cardinal (valid_words s) s.info.num_blocks)
    × (s.info.num_blocks < 2 ^ 32)

-- A block that makes the device restart.
pub record IsWanted (sdk : Sdk) (uf2 : Uf2Block) (s : State) : Type 0 where
  pub start0 : uf2.magic_start0 ≡ sdk.uf2_magic_start0
  pub start1 : uf2.magic_start1 ≡ sdk.uf2_magic_start1
  pub end : uf2.magic_end ≡ sdk.uf2_magic_end
  pub has_family : test_bit uf2.flags sdk.uf2_flag_family_id_present_bit ≡ true
  pub family : uf2.file_size ≡ sdk.rp2040_family_id
  pub main_flash : test_bit uf2.flags sdk.uf2_flag_not_main_flash_bit ≡ false
  pub page : uf2.payload_size ≡ 256
  pub target : (is_ram_block sdk uf2 ≡ true) ⊎ (is_flash_block sdk uf2 ≡ true)
  pub aligned : is_flash_block sdk uf2 ≡ true → uf2.target_addr % 256 ≡ 0
  pub number : uf2.block_no < uf2.num_blocks
  pub enabled : s.disable ≡ false
  pub download :
      ((s.info.num_blocks ≡ uf2.num_blocks) × (s.info.ram ≡ is_ram_block sdk uf2))
      ⊎ ((s.info.num_blocks ≢ uf2.num_blocks) × (uf2.num_blocks ≤ capacity sdk uf2))

module _ (sdk : Sdk) where
  -- Queueing the page of a block of the download keeps the count right.
  pub queue_page-IsCounted :
      (s : State)
      → IsCounted s
      → s.info.block_no < s.info.num_blocks
      → IsCounted (queue_page sdk s).1
  unfolding queue_page erase_page queue_task
  queue_page-IsCounted s counted inside = ground (
    arith,
    cardinal-add s.ram_words s.info.num_blocks s.info.block_no inside,
    cardinal-add s.flash_words s.info.num_blocks s.info.block_no inside,
    cardinal-le (add s.ram_words s.info.block_no) s.info.num_blocks,
    cardinal-le (add s.flash_words s.info.block_no) s.info.num_blocks,
  )

  -- An accepted block keeps the count right, also when it starts a download; the block has 32-bit
  -- fields, and the count was right.
  pub update-IsCounted :
      (uf2 : Uf2Block) (token : ℕ) (s : State)
      → uf2.num_blocks < 2 ^ 32
      → IsCounted s
      → (update_current_uf2_info sdk uf2 token s).0 ≡ true
      → IsCounted (update_current_uf2_info sdk uf2 token s).1
  unfolding update_current_uf2_info prepare start_download
  update-IsCounted uf2 token s word counted h = ground (arith, empty_ram, empty_flash)
    where
      empty_ram :
          uf2.num_blocks ≤ 1280 → cardinal (clear_bitset s.ram_words 1280) uf2.num_blocks ≡ 0
      empty_ram fits =
          cardinal-empty (clear_bitset s.ram_words 1280) uf2.num_blocks
            (λ i p. has-clear_bitset s.ram_words 1280 i refl (omega arith))

      empty_flash :
          uf2.num_blocks ≤ flash_max_valid_blocks sdk
          → cardinal (clear_bitset s.flash_words (flash_max_valid_blocks sdk)) uf2.num_blocks ≡ 0
      empty_flash fits =
          cardinal-empty (clear_bitset s.flash_words (flash_max_valid_blocks sdk)) uf2.num_blocks
            (λ i p.
              has-clear_bitset s.flash_words (flash_max_valid_blocks sdk) i (omega arith)
                (omega arith))

  -- A reboot into a download happens only once every block of it is marked, and the write that
  -- completed had succeeded. The count of the state is right.
  pub complete-all :
      (s : State) (task : Task) (target : ℕ × ℕ) (i : ℕ)
      → IsCounted s
      → write_page_complete sdk task s.info ≡ some target
      → i < s.info.num_blocks
      → (has (valid_words s) i ≡ true) × (task.result ≡ 0)
  unfolding write_page_complete
  complete-all s task target i counted h inside =
      ground (arith, cardinal_full (valid_words s) s.info.num_blocks i)

  -- A write to the disk restarts the device, in the boot mode, just if the block is a UF2 block for
  -- flash of this chip with a page of 256 bytes, its target is a page of RAM or an aligned page of
  -- flash, its number is below the number of blocks, the disk is not disabled, and it goes on with
  -- the download in progress or starts another one that fits.
  pub write-resets :
      (mask : ℕ) (uf2 : Uf2Block) (token : ℕ) (s : State)
      → (vd_write_block sdk mask uf2 token s ≡ resets mask 0) ↔ IsWanted sdk uf2 s
  unfolding vd_write_block write_uf2_page reset_usb_boot is_uf2 is_for_flash update_current_uf2_info
      prepare start_download is_garbage
  write-resets mask uf2 token s = (λ h. ground arith, λ w. ground (arith, w))

  -- A write to the disk that returns is not asynchronous, queues nothing, and either changes
  -- nothing or leaves no download in progress.
  pub write-returns :
      (mask : ℕ) (uf2 : Uf2Block) (token : ℕ) (s s' : State) (async : Bool)
      → vd_write_block sdk mask uf2 token s ≡ returns async s'
      → (async ≡ false) × (s'.disk ≡ s.disk) × ((s' ≡ s) ⊎ (s'.info.num_blocks ≡ 0))
  unfolding vd_write_block write_uf2_page reset_usb_boot
  write-returns mask uf2 token s s' async h =
      ground (arith, update-rejected sdk uf2 token s, update_disk sdk uf2 token s)
