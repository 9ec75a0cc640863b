-- ===== src/Disk/Read/Host.antt =====
-- What the host reads through `vd_read_block`: the tables, the crash dump, the directory.
use pico_bootrom_crashdump.Prelude.{
  ℕ, ◌+◌, ◌-◌, ◌*◌, ◌/◌, ◌%◌, ◌^◌, ◌≤◌, ◌<◌, ◌≡◌, refl, ap, ◌∙◌, arith, length,
}
use pico_bootrom_crashdump.Buffer.{Buffer, memset0, load16, load32}
use pico_bootrom_crashdump.Disk.Layout.{
  sector_size, clus_crash_last, clus_crash_start, clus_index, clus_info, crash_len, mem_size,
  sectors_per_fat, fat_count, root_directory_sectors,
}
use pico_bootrom_crashdump.Disk.Xxd.{xxd}
use pico_bootrom_crashdump.Disk.Xxd.Decode.{undump, undump-xxd}
use pico_bootrom_crashdump.Disk.Read.{
  Env, BootDeviceState, fat_mirror, fat_sector, init_dir_entry, root_directory, data_sector,
  volume_sector, vd_read_block,
}
use pico_bootrom_crashdump.Disk.Read.Fat.{fat_value, fat_sector-entry}

fat_mirror_lem :
    (lba : ℕ) → lba < 2 * sectors_per_fat → fat_mirror fat_count lba ≡ lba % sectors_per_fat
unfolding fat_mirror
fat_mirror_lem lba h = ground arith

-- The sector that the host reads at `lba`.
abbrev pub read : Env → BootDeviceState → ℕ → Buffer → Buffer
read env s lba buf = (vd_read_block env s lba buf).1

module _ (env : Env) (s : BootDeviceState) (buf : Buffer) where
  open env use {sdk, ram}

  blanked : Buffer
  blanked = memset0 buf 0 sector_size

  read_volume : (lba : ℕ) → 2 ≤ lba → read env s lba buf ≡ volume_sector env (lba - 2) blanked
  unfolding vd_read_block blanked
  read_volume lba h = ground arith

  blank : (j : ℕ) → j < 512 → blanked j ≡ 0
  unfolding blanked
  blank j h = ground arith

  read_table :
      (lba : ℕ)
      → 2 ≤ lba
      → lba < 2 + sectors_per_fat * fat_count
      → read env s lba buf ≡ fat_sector sdk ((lba - 2) % sectors_per_fat) blanked
  unfolding volume_sector
  read_table lba lo hi = read_volume lba lo ∙ ground (arith, fat_mirror_lem (lba - 2) (omega arith))

  -- Both copies of the table hold `fat_value` for every cluster that they describe: the fixed
  -- entries, the links of the crash dump, and free entries behind it. The clusters of the dump have
  -- 16-bit numbers.
  pub read-fat :
      (copy c : ℕ)
      → clus_crash_last sdk < 65535
      → copy < fat_count
      → c < 256 * sectors_per_fat
      → load16 (read env s (2 + sectors_per_fat * copy + c / 256) buf) (2 * (c % 256))
        ≡ fat_value sdk c
  read-fat copy c small first fits =
      ap (λ (b : Buffer). load16 b (2 * (c % 256)))
        (read_table (2 + sectors_per_fat * copy + c / 256) (omega arith) (omega arith)
          ∙ ap (λ (k : ℕ). fat_sector sdk k blanked) (omega arith))
      ∙ fat_sector-entry sdk small blanked blank (c / 256) (c % 256) (omega arith)
      ∙ ap (fat_value sdk) together
    where
      together : 256 * (c / 256) + c % 256 ≡ c
      together = omega arith

  read_data : (k : ℕ) → read env s (292 + k) buf ≡ data_sector env k blanked
  unfolding volume_sector
  read_data k = read_volume (292 + k) (omega arith) ∙ ground (arith, shift)
    where
      shift : 292 + k - 2 - sectors_per_fat * fat_count - root_directory_sectors ≡ k
      shift = omega arith

  -- The sector `n` of the crash dump, counted from the first sector of its first cluster.
  read_dump :
      (n : ℕ)
      → n / 8 ≤ mem_size sdk / 1024
      → read env s (308 + n) buf ≡ xxd ram (sdk.sram_base + 128 * n) blanked
  unfolding data_sector
  read_dump n h =
      ap (λ (k : ℕ). read env s k buf) shift
      ∙ read_data (16 + n)
      ∙ ground (arith, cluster, offset, address)
    where
      shift : 308 + n ≡ 292 + (16 + n)
      shift = omega arith

      cluster : (16 + n) / 8 + 2 ≡ 4 + n / 8
      cluster = omega arith

      offset : (16 + n) % 8 ≡ n % 8
      offset = omega arith

      address : sdk.sram_base + (4 + n / 8 - 4) * 1024 + n % 8 * 128 ≡ sdk.sram_base + 128 * n
      address = omega arith

  -- The crash dump file holds memory: the byte at the offset `d` of SRAM is found, in two hex
  -- digits, in the sector of the file that covers it. Memory holds a byte there, below 256.
  pub undump-read :
      (d : ℕ)
      → d < mem_size sdk
      → ram (sdk.sram_base + d) < 256
      → undump (read env s (308 + d / 128) buf) (d % 128) ≡ ram (sdk.sram_base + d)
  undump-read d inside byte =
      ap (λ (b : Buffer). undump b (d % 128)) (read_dump (d / 128) (omega arith))
      ∙ undump-xxd ram (sdk.sram_base + 128 * (d / 128)) (d % 128) blanked (omega arith)
          (rw whole byte)
      ∙ ap ram whole
    where
      whole : sdk.sram_base + 128 * (d / 128) + d % 128 ≡ sdk.sram_base + d
      whole = omega arith

  -- The cluster that the tables link behind the last whole cluster of memory shows the bytes from
  -- the end of SRAM on, if SRAM is a whole number of clusters and memory holds bytes there.
  pub undump-read_overrun :
      (d : ℕ)
      → mem_size sdk % 1024 ≡ 0
      → d < 1024
      → ram (sdk.sram_base + mem_size sdk + d) < 256
      → undump (read env s (308 + (mem_size sdk + d) / 128) buf) ((mem_size sdk + d) % 128)
        ≡ ram (sdk.sram_base + mem_size sdk + d)
  undump-read_overrun d whole_clusters small byte =
      ap (λ (b : Buffer). undump b (e % 128)) (read_dump (e / 128) (omega arith))
      ∙ undump-xxd ram (sdk.sram_base + 128 * (e / 128)) (e % 128) blanked (omega arith)
          (rw whole byte)
      ∙ ap ram whole
    where
      e : ℕ
      e = mem_size sdk + d

      whole : sdk.sram_base + 128 * (e / 128) + e % 128 ≡ sdk.sram_base + mem_size sdk + d
      whole = omega arith

  -- Behind the clusters of the dump every sector is blank.
  pub read_free : (n j : ℕ) → mem_size sdk / 1024 < n / 8 → j < 512 → read env s (308 + n) buf j ≡ 0
  unfolding data_sector
  read_free n j h small =
      ap (λ (k : ℕ). read env s k buf j) shift
      ∙ ap (λ (b : Buffer). b j) (read_data (16 + n))
      ∙ ground (arith, cluster, blank j small)
    where
      shift : 308 + n ≡ 292 + (16 + n)
      shift = omega arith

      cluster : (16 + n) / 8 + 2 ≡ 4 + n / 8
      cluster = omega arith

  read_root : read env s 260 buf ≡ root_directory env blanked
  unfolding volume_sector
  read_root = read_volume 260 (omega arith)

  -- The three files of the root directory: where each begins, and how long it is, given lengths of
  -- 32 bits.
  pub read_directory :
      (env.welcome_html_len < 2 ^ 32)
      → (length env.info_uf2_txt < 2 ^ 32)
      → (crash_len sdk < 2 ^ 32)
      → let root = read env s 260 buf in
        (load16 root (32 + 26) ≡ clus_index)
        × (load32 root (32 + 28) ≡ env.welcome_html_len)
        × (load16 root (64 + 26) ≡ clus_info)
        × (load32 root (64 + 28) ≡ length env.info_uf2_txt)
        × (load16 root (96 + 26) ≡ clus_crash_start)
        × (load32 root (96 + 28) ≡ crash_len sdk)
  unfolding root_directory init_dir_entry
  read_directory a b c = rw read_root (refl, omega arith, refl, omega arith, refl, omega arith)
