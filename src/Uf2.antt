-- ===== src/Uf2.antt =====
-- The download of UF2 files: the state `_uf2_info` of bootrom/virtual_disk.c, the blocks that the
-- host writes, and the bit sets of blocks and of erased pages.
-- The bit sets are arrays of 32-bit words. The two of a flash download stand in the XIP cache used
-- as RAM; they are modelled apart from memory, as no task of the disk writes there meanwhile.
pub mod Bitset
pub mod Receive
pub mod Accept
pub mod Page
pub mod Progress
use pico_bootrom_crashdump.Prelude.{ℕ, ◌+◌, ◌-◌, ◌*◌, ◌/◌, Bool, Option}
use pico_bootrom_crashdump.Platform.{Sdk}
use pico_bootrom_crashdump.Task.Queue.{TaskQueue}
use pico_bootrom_crashdump.Task.{Task, flash_page_size, flash_sector_erase_size}

-- Where the bit set of the blocks stands.
pub data Region : Type 0 where
  ram_blocks flash_blocks : Region

-- `struct uf2_info`. The pointer `cleared_pages` has one target or is null.
pub record Uf2Info : Type 0 where
  pub valid_blocks : Option Region
  pub max_valid_blocks : ℕ
  pub has_cleared_pages : Bool
  pub max_cleared_pages : ℕ
  pub num_blocks : ℕ
  pub token : ℕ
  pub valid_block_count : ℕ
  pub lowest_addr : ℕ
  pub block_no : ℕ
  pub next_task : Task
  pub ram : Bool

-- The state with the arrays that it points to, the disk queue and its flag `disable`.
pub record State : Type 0 where
  pub info : Uf2Info
  pub ram_words : ℕ → ℕ
  pub flash_words : ℕ → ℕ
  pub cleared_words : ℕ → ℕ
  pub disk : TaskQueue
  pub disable : Bool

-- What is read of a `struct uf2_block` (boot/uf2.h of the SDK); `buffer` is the address of `data`.
pub record Uf2Block : Type 0 where
  pub magic_start0 : ℕ
  pub magic_start1 : ℕ
  pub flags : ℕ
  pub target_addr : ℕ
  pub payload_size : ℕ
  pub block_no : ℕ
  pub num_blocks : ℕ
  pub file_size : ℕ
  pub magic_end : ℕ
  pub buffer : ℕ

abbrev pub max_ram_uf2_blocks : ℕ
max_ram_uf2_blocks = 1280

module _ (sdk : Sdk) where
  abbrev pub flash_bitmaps_size : ℕ
  flash_bitmaps_size = sdk.xip_sram_end - sdk.xip_sram_base

  abbrev pub flash_max_valid_blocks : ℕ
  flash_max_valid_blocks =
      flash_bitmaps_size
      * 8
      * flash_sector_erase_size
      / (flash_page_size + flash_sector_erase_size)
      / 32
      * 32

  abbrev pub flash_max_cleared_pages : ℕ
  flash_max_cleared_pages = flash_max_valid_blocks * flash_page_size / flash_sector_erase_size
