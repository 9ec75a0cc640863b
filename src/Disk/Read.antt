-- ===== src/Disk/Read.antt =====
-- `vd_read_block` of bootrom/virtual_disk.c: the sector that the host reads at `lba`, as it is built
-- in a buffer of `sector_size` bytes, and the text decompressor of bootrom/bootrom_misc.S.
pub mod Fat
pub mod Host
pub mod Confined
pub mod Isolation
use pico_bootrom_crashdump.Prelude.{
  ℕ, zero, suc, ◌+◌, ◌-◌, ◌*◌, ◌/◌, ◌%◌, ◌^◌, min, max, Bool, true, false, ◌&&◌, List, [], ◌∷◌, ltb,
  leb, ◌==◌, if◌then◌else◌, codes, length, take, drop,
}
use pico_bootrom_crashdump.Buffer.{Buffer, store, memset0, store_list, le16, le32, for_up}
use pico_bootrom_crashdump.Platform.{Sdk}
use pico_bootrom_crashdump.Disk.Layout.{
  sector_size, sector_count, cluster_shift, first_cluster, clus_index, clus_info, clus_crash_start,
  bytes_dumped_per_sector, bytes_dumped_per_cluster, clus_crash_last, crash_len, fat_count,
  root_directory_sectors, sectors_per_fat, media_type, boot_sector, boot_offset_serial_number,
  boot_offset_label, mbr_offset_serial_number, attr_readonly, attr_volume_label, attr_archive,
  raspberry_pi_time_frac, raspberry_pi_time, raspberry_pi_date,
}
use pico_bootrom_crashdump.Disk.Xxd.{xxd}

-- What the disk takes from elsewhere: the SDK, memory, the timer, the text that the build
-- generates (generated.h) and the serial number string.
pub record Env : Type 0 where
  pub sdk : Sdk
  pub ram : ℕ → ℕ
  pub time_us : ℕ
  pub welcome_html_z : List ℕ
  pub welcome_html_len : ℕ
  pub welcome_html_version_offset_1 : ℕ
  pub welcome_html_version_offset_2 : ℕ
  pub info_uf2_txt : List ℕ
  pub serial_number_string : List ℕ

-- `boot_device_state` of bootrom/usb_boot_device.c
pub record BootDeviceState : Type 0 where
  pub serial_number32 : ℕ
  pub serial_number_valid : Bool

unfoldable pub msc_get_serial_number32 : ℕ → BootDeviceState → ℕ × BootDeviceState
msc_get_serial_number32 time_us s =
    let s' =
      if s.serial_number_valid
      then s
      else record { serial_number32 = time_us; serial_number_valid = true } in
    (s'.serial_number32, s')

-- The inner loop of `poor_mans_text_decompress`: `len` bytes from `off` bytes back. An offset beyond
-- the start, which the generator never emits, gives the first byte, where the code reads what lies in
-- front of the buffer.
unfoldable pub copy_match : ℕ → ℕ → ℕ → Buffer → Buffer
copy_match len off n buf = for_up len 0 (λ k b. store b (n + k) (b (n + k - off))) buf

-- The outer loop, at index `n` of the destination. Text that ends within a match is not what the
-- generator emits; nothing is written for it.
unfoldable pub poor_mans_text_decompress : List ℕ → ℕ → Buffer → Buffer
poor_mans_text_decompress [] n buf = buf
poor_mans_text_decompress (b ∷ []) n buf = if ltb b 0x80 then store buf n b else buf
poor_mans_text_decompress (b ∷ off ∷ src) n buf = elim (ltb b 0x80) [
  | true ↦ poor_mans_text_decompress (off ∷ src) (n + 1) (store buf n b)
  | false ↦ poor_mans_text_decompress src (n + (0x100 - b)) (copy_match (0x100 - b) off n buf)
]

-- `init_dir_entry`, on the entry at index `at`
unfoldable pub init_dir_entry : Buffer → ℕ → List ℕ → ℕ → ℕ → Buffer
init_dir_entry buf at fn cluster len =
    let time =
      store_list (store buf (at + 13) raspberry_pi_time_frac) (at + 14) (le16 raspberry_pi_time) in
    let date = store_list time (at + 16) (le16 raspberry_pi_date) in
    let mtime = store_list date (at + 22) (le16 raspberry_pi_time) in
    let mdate = store_list mtime (at + 24) (le16 raspberry_pi_date) in
    let name = store_list mdate at fn in
    let attr = store name (at + 11) (attr_readonly + attr_archive) in
    store_list (store_list attr (at + 26) (le16 cluster)) (at + 28) (le32 len)

abbrev pub name_index : List ℕ
name_index = codes "INDEX   HTM"

abbrev pub name_info : List ℕ
name_info = codes "INFO_UF2TXT"

abbrev pub name_crashdump : List ℕ
name_crashdump = codes "CRASHDMPXXD"

abbrev pub label : List ℕ
label = take 11 (drop boot_offset_label boot_sector)

-- A FAT16 partition from sector 1 on; `_ptable_data4`
abbrev pub ptable_data4 : List ℕ
ptable_data4 =
    0xe
    ∷ 0
    ∷ 0
    ∷ 0
    ∷ 1
    ∷ 0
    ∷ 0
    ∷ 0
    ∷ (sector_count - 1) % 256
    ∷ (sector_count - 1) / 256 % 256
    ∷ (sector_count - 1) / 65536 % 256
    ∷ []

-- The sector before the volume: partition table and serial number.
unfoldable pub mbr_sector : ℕ → Buffer → Buffer
mbr_sector sn buf =
    let ptable = sector_size - 2 - 64 in
    let entry = store_list buf (ptable + 4) ptable_data4 in
    store_list (store (store entry (ptable + 64) 0x55) (ptable + 65) 0xaa) mbr_offset_serial_number
      (le32 sn)

unfoldable pub first_sector : ℕ → Buffer → Buffer
first_sector sn buf = store_list (store_list buf 0 boot_sector) boot_offset_serial_number (le32 sn)

-- `while (lba >= SECTORS_PER_FAT) lba -= SECTORS_PER_FAT;`
unfoldable pub fat_mirror : ℕ → ℕ → ℕ
fat_mirror zero lba = lba
fat_mirror (suc fuel) lba =
    if leb sectors_per_fat lba then fat_mirror fuel (lba - sectors_per_fat) else lba

-- `p[index++] = v`
abbrev pub push16 : ℕ → ℕ × Buffer → ℕ × Buffer
push16 v s = (s.0 + 1, store_list s.1 (2 * s.0) (le16 v))

-- `p[index++] = clus_crash + 1`
abbrev pub link : ℕ → ℕ × Buffer → ℕ × Buffer
link clus_crash = push16 (clus_crash + 1)

-- The fixed entries at the start of a table.
unfoldable pub fat_head : ℕ → Buffer → ℕ × Buffer
fat_head lba buf =
    if lba == 0
    then push16 0xffff (push16 0xffff (push16 0xffff (push16 (0xff00 + media_type) (0, buf))))
    else (0, buf)

-- The loop over `clus_crash`.
unfoldable pub fat_links : Sdk → ℕ → ℕ × Buffer → ℕ × Buffer
fat_links sdk lba =
    let min_index = lba * (sector_size / 2) in
    let max_index = min_index + sector_size / 2 - 1 in
    let first = max min_index clus_crash_start in
    let last = min max_index (clus_crash_last sdk) in for_up (last + 1 - first) first link

-- A sector of one table; `index - 1` is a `size_t` and wraps.
unfoldable pub fat_sector : Sdk → ℕ → Buffer → Buffer
fat_sector sdk lba buf =
    let (index, filled) = fat_links sdk lba (fat_head lba buf) in
    if (index + 2 ^ 32 - 1) % 2 ^ 32 == clus_crash_last sdk
    then store_list filled (2 * (index - 1)) (le16 0xffff)
    else filled

unfoldable pub root_directory : Env → Buffer → Buffer
root_directory env buf =
    let volume = store (store_list buf 0 label) 11 (attr_volume_label + attr_archive) in
    let index = init_dir_entry volume 32 name_index clus_index env.welcome_html_len in
    let info = init_dir_entry index 64 name_info clus_info (length env.info_uf2_txt) in
    init_dir_entry info 96 name_crashdump clus_crash_start (crash_len env.sdk)

unfoldable pub welcome_page : Env → Buffer → Buffer
welcome_page env buf =
    store_list
      (store_list (poor_mans_text_decompress env.welcome_html_z 0 buf)
        env.welcome_html_version_offset_1 (take 12 env.serial_number_string))
      env.welcome_html_version_offset_2 (take 12 env.serial_number_string)

-- `lba` counts from the first sector of the data region.
unfoldable pub data_sector : Env → ℕ → Buffer → Buffer
data_sector env lba buf =
    let cluster = lba / 2 ^ cluster_shift + first_cluster in
    let cluster_offset = lba % 2 ^ cluster_shift in
    let text =
      if cluster_offset == 0
      then (if cluster == clus_index
          then welcome_page env buf
          else if cluster == clus_info
          then store_list buf 0 env.info_uf2_txt
          else buf)
      else buf in
    if leb clus_crash_start cluster && leb cluster (clus_crash_last env.sdk)
    then xxd env.ram
        (env.sdk.sram_base
          + (cluster - clus_crash_start) * bytes_dumped_per_cluster
          + cluster_offset * bytes_dumped_per_sector)
        text
    else text

-- A sector of the volume after the first, counted from the first table.
unfoldable pub volume_sector : Env → ℕ → Buffer → Buffer
volume_sector env lba buf =
    if ltb lba (sectors_per_fat * fat_count)
    then fat_sector env.sdk (fat_mirror fat_count lba) buf
    else let lba' = lba - sectors_per_fat * fat_count in
      if ltb lba' root_directory_sectors
      then (if lba' == 0 then root_directory env buf else buf)
      else data_sector env (lba' - root_directory_sectors) buf

-- Returns whether the operation is asynchronous, with the buffer and the state left behind.
unfoldable pub vd_read_block : Env → BootDeviceState → ℕ → Buffer → Bool × Buffer × BootDeviceState
vd_read_block env s lba buf =
    let blank = memset0 buf 0 sector_size in
    let (sn, s') = msc_get_serial_number32 env.time_us s in
    if lba == 0
    then (false, mbr_sector sn blank, s')
    else if lba == 1
    then (false, first_sector sn blank, s')
    else (false, volume_sector env (lba - 2) blank, s)
