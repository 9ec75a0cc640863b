-- ===== src/Lib.antt =====
-- The boot firmware of pico-bootrom-crashdump: a USB boot mode for the RP2040 whose disk shows the
-- content of SRAM as a text file, CRASHDMP.XXD.
--
-- The host reads and writes sectors of a virtual disk and sends PICOBOOT commands. Interrupt code
-- answers reads at once (vd_read_block), checks written UF2 blocks (vd_write_block), and queues
-- tasks for the worker, which changes memory and flash (async_task_worker). Here the parts are:
--
--   Prelude, Buffer   shared names, Boolean tests, bits, byte buffers and counting loops
--   Platform          the constants of the Pico SDK (a parameter; the SDK is a submodule) and the
--                     address tests of bootrom/usb_boot_device.h
--   Disk/Layout       the macros of bootrom/virtual_disk.c and usb_device_tiny/virtual_disk.h
--   Disk/Xxd          hex and xxd of bootrom/virtual_disk.c; Fields and Image describe each character
--                     of the result, Decode reads it back
--   Disk/Read         vd_read_block, one function for each region of the disk, init_dir_entry,
--                     msc_get_serial_number32 of bootrom/usb_boot_device.c and the decompressor
--                     poor_mans_text_decompress of bootrom/bootrom_misc.S; Fat, Host, Confined and
--                     Isolation have the proofs
--   Task              the data of bootrom/async_task.h; Task/Execute is _execute_task of
--                     bootrom/async_task.c, one function for each of its tests, and the default flash
--                     functions; Task/Queue the queues and the worker; Task/EraseRange, Task/Safety
--                     and Task/Errors the proofs
--   Uf2               struct uf2_info; Uf2/Bitset its bit sets; Uf2/Receive is
--                     _update_current_uf2_info; Uf2/Page is vd_write_block, _write_uf2_page and
--                     _write_uf2_page_complete; Uf2/Accept and Uf2/Progress the proofs
--   Picoboot          bootrom/usb_boot_device.c: Picoboot/Command is _picoboot_cmd_packet_internal and
--                     _picoboot_reset, Picoboot/Chunks the tasks for the data of a command;
--                     Picoboot/Replies has proofs. Picoboot/Data joins the command, the stream, the
--                     queue and the worker for the data that the host receives, Picoboot/Write for the
--                     data that it sends; their children have the proofs
--   Stream            usb_device_tiny/usb_stream_helper.c; Stream/Out the proofs for packets from
--                     the host
--   Msc               usb_device_tiny/usb_msc.c: the phases of a command; Msc/Command is
--                     _msc_cmd_packet_internal; Msc/Phases and Msc/Eject the proofs. Msc/Sectors joins
--                     the command, the stream and the disk for the sectors of a READ(10) or a
--                     WRITE(10); Reading, ReadCommand, Dump, Writing and WriteCommand have the proofs
--   Generator         generator/main.c: compress and decompress; Generator/Search has the search for
--                     repetitions, Roundtrip and Size the proofs
--   Flash             bootrom/program_flash_generic.c: Flash/Transfer is flash_put_get, Flash/Fifo the
--                     SSI with its FIFOs beside it, Flash/Commands the commands to the chip with
--                     flash_range_program, flash_range_erase and flash_user_erase, Flash/Detect the
--                     size of the chip, Flash/Setup the registers of the SSI and of the pads with
--                     flash_exit_xip; Exchange, Live, Erase and Recovery have the proofs
--   Device            usb_device_tiny/usb_device.c: endpoints with their buffers and halts;
--                     Device/Packets the transfers of any number of packets, Device/Control those of
--                     the control pipe, Device/Requests the setup packets, Device/Memory the packet
--                     buffers in the memory of the controller, Device/Events the interrupt handler;
--                     Device/Handlers is msc_setup_request_handler and
--                     _picoboot_setup_request_handler, with the boot device that has them; the other
--                     modules have proofs
--   Boot              bootrom/usb_boot_device.c: usb_boot_device_init with the descriptors of the
--                     configuration and usb_interface_init, and the serial number; Boot/Clocks is
--                     _usb_clock_setup of bootrom/bootrom_main.c, Boot/Reboot watchdog_reboot of
--                     usb_device_tiny/runtime.c with reset_usb_boot and _usb_boot of
--                     bootrom/bootrom_main.c; Boot/Config, Boot/Serial and Boot/Restart the proofs
--   Tests             runs on concrete values
--
-- Memory is a function from an address to its byte, a buffer a function from an index to its byte;
-- 32-bit arithmetic has its wrap-around written out. A change of state is an explicit new state. An
-- early return of _execute_task is the constructor stop of Exec. The flash chip is known by the log of
-- commands sent to it; what it returns for a read, the code of a table of flash functions set up by
-- the user, and the code run by AT_EXEC are parameters, and so are the texts that the build generates
-- and the layout of a UF2 block, which is the SDK's.
--
-- Loops of the source are for_up, a recursion on the number of rounds, but for those that run on fuel:
-- the mirroring of the allocation tables, with FAT_COUNT rounds, as many as there are tables; the
-- erasure of a range by a task, with one round more than a 32-bit range has sectors of 4096 bytes; the
-- compression of a text, with as many rounds as it has bytes; the erasure of a range of the flash chip
-- and the waiting for the chip, whose rounds are arguments of the theorem; the logarithm of the size of
-- the chip, with 32 rounds, the width of a word; the walk over descriptors, with as many rounds as they
-- have bytes; and the calls of the functions of transfers within one another, of which eight are enough
-- where packets are done at once. The exchange with the SSI is a relation of steps of the code and the
-- hardware.
--
-- The transfers of the control pipe have one packet, and their data is less than a packet, as the
-- source asserts. The call of a function through on_stall_change is counted.
--
-- The assertions of the source are empty, as CMakeLists.txt builds it with NDEBUG: the model goes on
-- where one of them fails. An address that flash_put_cmd_addr sends has 32 bits, of which those from
-- 2 ^ 24 up fall on the byte of the command, as in the source.
--
-- _write_uf2_page begins with a call of reset_usb_boot, which does not return. The rest of the function is
-- modelled apart, as queue_page, since the bookkeeping of blocks stands there.
--
-- The registers of the clocks, of the watchdog, of the SSI and of the pads are known by the values
-- written to them. Where the code waits for a clock, whether the clock comes is a parameter; the boot ROM
-- of the chip, which reads the scratch registers after a reset, is one too, with what its datasheet says
-- of it as hypothesis.
--
-- Not modelled: the registers of the USB controller but those of buffers, endpoints and interrupts; the
-- descriptor of the device, chained transfers and initialization functions of transfers; the pins and
-- the interrupt enables; the reading and printing of files by the generator; the assembly routines but
-- for the decompressor, the floating point library and the tests. For a write to the disk, the reboot
-- is the outcome resets, or the target that _write_uf2_page_complete passes on.
pub mod Prelude
pub mod Buffer
pub mod Platform
pub mod Disk
pub mod Task
pub mod Uf2
pub mod Picoboot
pub mod Stream
pub mod Msc
pub mod Generator
pub mod Flash
pub mod Device
pub mod Boot
pub mod Tests
