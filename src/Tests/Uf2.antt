-- ===== src/Tests/Uf2.antt =====
-- Blocks of a flash download on the RP2040.
use pico_bootrom_crashdump.Prelude.{◌%◌, ◌↔◌, some, ◌≤◌, ◌<◌, ◌≡◌, ◌⊎◌, refl, true, false, arith}
use pico_bootrom_crashdump.Prelude.Bits.{test_bit}
use pico_bootrom_crashdump.Platform.{rp2040, is_address_ram, is_address_flash}
use pico_bootrom_crashdump.Task.At
use pico_bootrom_crashdump.Task.{reset_task}
use pico_bootrom_crashdump.Uf2.{State, Uf2Block}
use pico_bootrom_crashdump.Uf2.Bitset.{has, cardinal}
use pico_bootrom_crashdump.Uf2.Receive.{
  zero_info, is_ram_block, is_flash_block, is_garbage, start_download, prepare,
  update_current_uf2_info,
}
use pico_bootrom_crashdump.Uf2.Page.{
  returns, resets, valid_words, queue_page, is_uf2, vd_write_block, write_page_complete,
}
use pico_bootrom_crashdump.Uf2.Progress.{
  IsCounted, IsWanted, queue_page-IsCounted, update-IsCounted, complete-all, write-resets,
  write-returns,
}
use pico_bootrom_crashdump.Uf2.Accept.{capacity, update-accepted}

-- The third of ten blocks for flash.
abbrev flash_block : Uf2Block
flash_block = record {
  magic_start0 = 0x0A324655;
  magic_start1 = 0x9E5D5157;
  flags = 0x2000;
  target_addr = 0x10000200;
  payload_size = 256;
  block_no = 2;
  num_blocks = 10;
  file_size = 0xe48bff56;
  magic_end = 0x0AB16F30;
  buffer = 0x50100020;
}

abbrev garbage_block : Uf2Block
garbage_block = record flash_block { target_addr = 0x10000201 }

abbrev pub idle : State
idle = record {
  info = zero_info;
  ram_words = λ k. 0xffffffff;
  flash_words = λ k. 0xffffffff;
  cleared_words = λ k. 0xffffffff;
  disk = record { task = reset_task; full = false };
  disable = false;
}

accepted : (update_current_uf2_info rp2040 flash_block 7 idle).0 ≡ true
unfolding update_current_uf2_info prepare start_download is_garbage is_ram_block is_flash_block
    is_address_ram is_address_flash
accepted = refl

rejected : (update_current_uf2_info rp2040 garbage_block 7 idle).0 ≡ false
unfolding update_current_uf2_info prepare start_download is_garbage is_ram_block is_flash_block
    is_address_ram is_address_flash
rejected = refl

update-accepted_example :
    let i = (update_current_uf2_info rp2040 flash_block 7 idle).1.info in
    (i.block_no ≡ 2)
    × (i.block_no < i.num_blocks)
    × (i.num_blocks ≡ 10)
    × (i.num_blocks ≤ capacity rp2040 flash_block)
    × (i.ram ≡ is_ram_block rp2040 flash_block)
    × (test_bit i.next_task.kind At.write ≡ true)
    × ((i.next_task.kind ≡ 0x08)
        ⊎ ((i.next_task.kind ≡ 0x09) × (is_flash_block rp2040 flash_block ≡ true)))
    × (i.next_task.transfer_addr ≡ 0x10000200)
    × (i.next_task.data_length ≡ 256)
    × (i.next_task.buffer ≡ 0x50100020)
    × ((is_ram_block rp2040 flash_block ≡ true)
        ⊎ ((is_flash_block rp2040 flash_block ≡ true) × (0x10000200 % 256 ≡ 0)))
update-accepted_example =
    update-accepted rp2040 flash_block 7 idle (λ ne e. omega (arith, ne)) accepted

flash_capacity : 100 < capacity rp2040 flash_block
unfolding is_ram_block is_address_ram
flash_capacity = omega arith

idle-IsCounted : IsCounted idle
unfolding cardinal
idle-IsCounted = (refl, omega arith)

update-IsCounted_example : IsCounted (update_current_uf2_info rp2040 flash_block 7 idle).1
update-IsCounted_example =
    update-IsCounted rp2040 flash_block 7 idle (omega arith) idle-IsCounted accepted

-- A download of two blocks to RAM, of which the first is marked.
abbrev half_done : State
half_done = record idle {
  info = record zero_info {
    ram = true;
    num_blocks = 2;
    valid_block_count = 1;
    block_no = 1;
    lowest_addr = 0x20000000;
    next_task = record reset_task { transfer_addr = 0x20000100; kind = 8 };
  };
  ram_words = λ k. 1;
}

half_done-IsCounted : IsCounted half_done
unfolding cardinal has test_bit
half_done-IsCounted = (refl, omega arith)

queue_page-IsCounted_example : IsCounted (queue_page rp2040 half_done).1
queue_page-IsCounted_example =
    queue_page-IsCounted rp2040 half_done half_done-IsCounted (omega arith)

-- Both blocks are marked.
abbrev all_done : State
all_done = record half_done {
  info = record (half_done.info) { valid_block_count = 2 };
  ram_words = λ k. 3;
}

all_done-IsCounted : IsCounted all_done
unfolding cardinal has test_bit
all_done-IsCounted = (refl, omega arith)

all_done-reboots :
    write_page_complete rp2040 reset_task all_done.info ≡ some (0x20000000, 0x20042000)
unfolding write_page_complete
all_done-reboots = refl

complete-all_example : (has (valid_words all_done) 1 ≡ true) × (reset_task.result ≡ 0)
complete-all_example =
    complete-all rp2040 all_done reset_task (0x20000000, 0x20042000) 1 all_done-IsCounted
      all_done-reboots (omega arith)

write-resets_example :
    (vd_write_block rp2040 0 flash_block 7 idle ≡ resets 0 0) ↔ IsWanted rp2040 flash_block idle
write-resets_example = write-resets rp2040 0 flash_block 7 idle

abbrev foreign_block : Uf2Block
foreign_block = record flash_block { magic_end = 0 }

foreign-returns : vd_write_block rp2040 0 foreign_block 7 idle ≡ returns false idle
unfolding vd_write_block is_uf2
foreign-returns = refl

write-returns_example :
    (false ≡ false) × (idle.disk ≡ idle.disk) × ((idle ≡ idle) ⊎ (idle.info.num_blocks ≡ 0))
write-returns_example = write-returns rp2040 0 foreign_block 7 idle idle false foreign-returns
