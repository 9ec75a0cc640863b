-- ===== src/Disk/Layout.antt =====
-- The geometry of the disk: the macros of bootrom/virtual_disk.c, usb_device_tiny/virtual_disk.h and
-- usb_device_tiny/usb_msc.h, with `USE_INFO_UF2` defined and `NO_PARTITION_TABLE` not, as built.
use pico_bootrom_crashdump.Prelude.{ℕ, ◌+◌, ◌-◌, ◌*◌, ◌/◌, ◌^◌, List, [], ◌∷◌, ◌++◌, codes}
use pico_bootrom_crashdump.Buffer.{le16, le32}
use pico_bootrom_crashdump.Platform.{Sdk}

abbrev pub sector_size : ℕ
sector_size = 512

abbrev pub volume_size : ℕ
volume_size = 128 * 1024 * 1024

abbrev pub sector_count : ℕ
sector_count = volume_size / sector_size

abbrev pub cluster_size : ℕ
cluster_size = 4096

abbrev pub cluster_shift : ℕ
cluster_shift = 3

abbrev pub cluster_count : ℕ
cluster_count = volume_size / cluster_size

abbrev pub first_cluster : ℕ
first_cluster = 2

abbrev pub clus_index : ℕ
clus_index = 2

abbrev pub clus_info : ℕ
clus_info = 3

abbrev pub clus_crash_start : ℕ
clus_crash_start = 4

abbrev pub xxd_chars_per_byte : ℕ
xxd_chars_per_byte = 4

abbrev pub bytes_dumped_per_sector : ℕ
bytes_dumped_per_sector = sector_size / xxd_chars_per_byte

abbrev pub bytes_dumped_per_cluster : ℕ
bytes_dumped_per_cluster = cluster_size / xxd_chars_per_byte

abbrev pub mem_size : Sdk → ℕ
mem_size sdk = sdk.sram_end - sdk.sram_base

abbrev pub clus_crash_last : Sdk → ℕ
clus_crash_last sdk = clus_crash_start + mem_size sdk / bytes_dumped_per_cluster

abbrev pub crash_len : Sdk → ℕ
crash_len sdk = xxd_chars_per_byte * mem_size sdk

abbrev pub volume_sector_count : ℕ
volume_sector_count = sector_count - 1

abbrev pub fat_count : ℕ
fat_count = 2

abbrev pub max_root_directory_entries : ℕ
max_root_directory_entries = 512

abbrev pub root_directory_sectors : ℕ
root_directory_sectors = max_root_directory_entries * 32 / sector_size

abbrev pub sectors_per_fat : ℕ
sectors_per_fat = 2 * (cluster_count + sector_size - 1) / sector_size

abbrev pub media_type : ℕ
media_type = 0xf8

-- `boot_sector`, 0x40 bytes. `volume_sector_count` needs the 32-bit field at 0x20.
abbrev pub boot_sector : List ℕ
boot_sector =
    0xeb ∷ 0x3c ∷ 0x90 ∷ codes "MSWIN4.1"
    ++ (le16 512
        ++ (cluster_size / sector_size ∷ []
            ++ (le16 1
                ++ (fat_count ∷ []
                    ++ (le16 max_root_directory_entries
                        ++ (le16 0
                            ++ (media_type ∷ []
                                ++ (le16 sectors_per_fat
                                    ++ (le16 1
                                        ++ (le16 1
                                            ++ (le32 (sector_count - volume_sector_count)
                                                ++ (le32 volume_sector_count
                                                    ++ (0
                                                          ∷ 0
                                                          ∷ 0x29
                                                          ∷ 0
                                                          ∷ 0
                                                          ∷ 0
                                                          ∷ 0
                                                          ∷ codes "RPI-RP2    FAT16   "
                                                        ++ (0xeb ∷ 0xfe ∷ []))))))))))))))

abbrev pub boot_offset_serial_number : ℕ
boot_offset_serial_number = 0x27

abbrev pub boot_offset_label : ℕ
boot_offset_label = 0x2b

abbrev pub mbr_offset_serial_number : ℕ
mbr_offset_serial_number = 0x1b8

abbrev pub attr_readonly : ℕ
attr_readonly = 0x01

abbrev pub attr_volume_label : ℕ
attr_volume_label = 0x08

abbrev pub attr_archive : ℕ
attr_archive = 0x20

abbrev pub raspberry_pi_time_frac : ℕ
raspberry_pi_time_frac = 100

abbrev pub raspberry_pi_time : ℕ
raspberry_pi_time = 16 * 2 ^ 11 + 20 * 2 ^ 5 + 51 / 2

abbrev pub raspberry_pi_date : ℕ
raspberry_pi_date = 28 * 2 ^ 9 + 9 * 2 ^ 5 + 5
