-- ===== src/Disk/Read/Isolation.antt =====
-- A sector that the host reads depends on nothing that was in the buffer, and nothing beyond the
-- sector is written.
use pico_bootrom_crashdump.Prelude.{
  ℕ, zero, suc, ◌+◌, ◌-◌, ◌*◌, ◌%◌, ◌/◌, ◌≤◌, ◌<◌, ◌≡◌, ◌⊎◌, inl, inr, refl, sym, ap, ◌∙◌, arith,
  ltb, leb, ◌==◌, ◌&&◌, if◌then◌else◌, false, length, List, [], ◌∷◌, take,
}
use pico_bootrom_crashdump.Buffer.{Buffer, le32, memset0, store_list}
use pico_bootrom_crashdump.Disk.Layout.{
  clus_crash_last, clus_crash_start, clus_index, clus_info, boot_sector, root_directory_sectors,
  sectors_per_fat, fat_count,
}
use pico_bootrom_crashdump.Disk.Read.{
  Env, BootDeviceState, msc_get_serial_number32, root_directory, welcome_page, mbr_sector,
  first_sector, data_sector, volume_sector, vd_read_block, label, ptable_data4, name_index,
  name_info, name_crashdump, fat_mirror,
}
use pico_bootrom_crashdump.Disk.Read.Host.{read}
use pico_bootrom_crashdump.Disk.Read.Confined.{
  IsConfined, then_, if-IsConfined, case-IsConfined, skip, store-IsConfined, store_list-IsConfined,
  xxd-IsConfined, decompressed_length, decompress-IsConfined, init_dir_entry-IsConfined,
  fat_sector-IsConfined,
}

-- What the build promises of the generated text, and the SDK of the memory map: each text fits a
-- sector, and so do the two places for the serial number in the welcome page.
pub record TextFits (env : Env) : Type 0 where
  pub welcome : decompressed_length env.welcome_html_z ≤ 512
  pub version_1 : env.welcome_html_version_offset_1 + 12 ≤ 512
  pub version_2 : env.welcome_html_version_offset_2 + 12 ≤ 512
  pub info : length env.info_uf2_txt ≤ 512
  pub chain : clus_crash_last env.sdk < 65535

length-take-le {ℓ} : {A : Type ℓ} (n : ℕ) (xs : List A) → length (take n xs) ≤ n
length-take-le zero xs = omega arith
length-take-le (suc n) [] = omega arith
length-take-le (suc n) (x ∷ xs) = omega (arith, length-take-le n xs)

mbr-IsConfined : (sn : ℕ) → IsConfined (mbr_sector sn)
unfolding mbr_sector
mbr-IsConfined sn = then_ (store_list-IsConfined _ ptable_data4 (omega arith)) (
    then_ (store-IsConfined _ _ (omega arith)) (
      then_ (store-IsConfined _ _ (omega arith)) (store_list-IsConfined _ (le32 sn) (omega arith))))

first-IsConfined : (sn : ℕ) → IsConfined (first_sector sn)
unfolding first_sector
first-IsConfined sn =
    then_ (store_list-IsConfined 0 boot_sector (omega arith))
      (store_list-IsConfined _ (le32 sn) (omega arith))

-- The sectors that hold a generated text: the first ones of the clusters of the two text files.
abbrev pub IsTextSector : ℕ → Type 0
IsTextSector lba =
    let first = 2 + sectors_per_fat * fat_count + root_directory_sectors in
    (lba ≡ first + (clus_index - 2) * 8) ⊎ (lba ≡ first + (clus_info - 2) * 8)

module _ (env : Env) where
  root-IsConfined : IsConfined (root_directory env)
  unfolding root_directory
  root-IsConfined = then_ (store_list-IsConfined 0 label (omega arith)) (
      then_ (store-IsConfined 11 _ (omega arith)) (
        then_ (init_dir_entry-IsConfined 32 _ _ name_index (omega arith) refl) (
          then_ (init_dir_entry-IsConfined 64 _ _ name_info (omega arith) refl)
            (init_dir_entry-IsConfined 96 _ _ name_crashdump (omega arith) refl))))

  welcome-IsConfined : TextFits env → IsConfined (welcome_page env)
  unfolding welcome_page
  welcome-IsConfined fits = then_ (decompress-IsConfined env.welcome_html_z 0 (omega arith)) (
      then_ (store_list-IsConfined env.welcome_html_version_offset_1 serial (omega (arith, short)))
        (store_list-IsConfined env.welcome_html_version_offset_2 serial (omega (arith, short))))
    where
      serial : List ℕ
      serial = take 12 env.serial_number_string

      short : length serial ≤ 12
      short = length-take-le 12 env.serial_number_string

  info-IsConfined : TextFits env → IsConfined (λ b. store_list b 0 env.info_uf2_txt)
  info-IsConfined fits = store_list-IsConfined 0 env.info_uf2_txt (omega arith)

  data-IsConfined :
      (lba : ℕ)
      → ((lba ≡ (clus_index - 2) * 8) ⊎ (lba ≡ (clus_info - 2) * 8) → TextFits env)
      → IsConfined (data_sector env lba)
  unfolding data_sector
  data-IsConfined lba fits =
      let text =
        case-IsConfined (lba % 8 == 0)
          (λ first.
            case-IsConfined (lba / 8 + 2 == clus_index)
              (λ e. welcome-IsConfined (fits (inl (ground (arith, first, e)))))
              (λ _.
                case-IsConfined (lba / 8 + 2 == clus_info)
                  (λ e. info-IsConfined (fits (inr (ground (arith, first, e))))) (λ _. skip)))
          (λ _. skip) in
      if-IsConfined
        (leb clus_crash_start (lba / 8 + 2) && leb (lba / 8 + 2) (clus_crash_last env.sdk))
        (then_ text (xxd-IsConfined env.ram _)) text

module _ (env : Env) (chain : clus_crash_last env.sdk < 65535) where
  volume-IsConfined :
      (lba : ℕ) → (IsTextSector (lba + 2) → TextFits env) → IsConfined (volume_sector env lba)
  unfolding volume_sector
  volume-IsConfined lba fits =
      case-IsConfined (ltb lba (sectors_per_fat * fat_count))
        (λ _. fat_sector-IsConfined env.sdk (fat_mirror fat_count lba) chain)
        (λ p.
          case-IsConfined (ltb (lba - sectors_per_fat * fat_count) root_directory_sectors)
            (λ _. if-IsConfined (lba - sectors_per_fat * fat_count == 0) (root-IsConfined env) skip)
            (λ q.
              data-IsConfined env (lba - sectors_per_fat * fat_count - root_directory_sectors)
                (λ e. fits (ground (arith, p, q, e)))))

  body : ℕ → ℕ → Buffer → Buffer
  body sn lba b =
      if lba == 0
      then mbr_sector sn b
      else if lba == 1
      then first_sector sn b
      else volume_sector env (lba - 2) b

  body-IsConfined : (sn lba : ℕ) → (IsTextSector lba → TextFits env) → IsConfined (body sn lba)
  unfolding body
  body-IsConfined sn lba fits =
      case-IsConfined (lba == 0) (λ _. mbr-IsConfined sn)
        (λ p.
          case-IsConfined (lba == 1) (λ _. first-IsConfined sn)
            (λ q. volume-IsConfined (lba - 2) (λ e. fits (ground (arith, p, q, e)))))

  serial : BootDeviceState → ℕ
  serial s = (msc_get_serial_number32 env.time_us s).0

  read-body :
      (s : BootDeviceState) (lba : ℕ) (a : Buffer)
      → read env s lba a ≡ body (serial s) lba (memset0 a 0 512)
  unfolding vd_read_block body serial
  read-body s lba a = ground arith

  read_sync : (s : BootDeviceState) (lba : ℕ) (a : Buffer) → (vd_read_block env s lba a).0 ≡ false
  unfolding vd_read_block
  read_sync s lba a = ground arith

  -- Reading any sector leaves in the buffer what does not depend on the buffer's old content, and
  -- writes nothing beyond the 512 bytes of the sector. It is never asynchronous. The clusters of the
  -- dump have numbers of 16 bits. Only for the two sectors of the text files it is assumed that the
  -- generated texts fit: the welcome page, decompressed, the places for the serial number in it and
  -- the text of INFO_UF2.TXT lie within 512 bytes.
  pub read_isolated :
      (s : BootDeviceState) (lba : ℕ) (a b : Buffer)
      → (IsTextSector lba → TextFits env)
      → ((vd_read_block env s lba a).0 ≡ false)
        × ((j : ℕ) → j < 512 → read env s lba a j ≡ read env s lba b j)
        × ((j : ℕ) → 512 ≤ j → read env s lba a j ≡ a j)
  read_isolated s lba a b fits = (
    read_sync s lba a,
    λ j h.
        ap (λ (x : Buffer). x j) (read-body s lba a)
        ∙ (body-IsConfined (serial s) lba fits).same (memset0 a 0 512) (memset0 b 0 512)
            (λ k q. ground arith) j h
        ∙ ap (λ (x : Buffer). x j) (sym (read-body s lba b)),
    λ j h.
        ap (λ (x : Buffer). x j) (read-body s lba a)
        ∙ (body-IsConfined (serial s) lba fits).outside (memset0 a 0 512) j h
        ∙ ground arith,
  )

  -- What is read depends on the state by the serial number only.
  pub read_same :
      (s s' : BootDeviceState) (lba : ℕ) (a b : Buffer) (j : ℕ)
      → TextFits env
      → (msc_get_serial_number32 env.time_us s).0 ≡ (msc_get_serial_number32 env.time_us s').0
      → j < 512
      → read env s lba a j ≡ read env s' lba b j
  unfolding serial
  read_same s s' lba a b j fits e h =
      (read_isolated s lba a b (λ _. fits)).1 j h
      ∙ ap (λ (x : Buffer). x j) (read-body s lba b)
      ∙ ap (λ (sn : ℕ). body sn lba (memset0 b 0 512) j) e
      ∙ ap (λ (x : Buffer). x j) (sym (read-body s' lba b))

  pub read-serial :
      (s : BootDeviceState) (lba : ℕ) (a : Buffer)
      → (msc_get_serial_number32 env.time_us (vd_read_block env s lba a).2).0
        ≡ (msc_get_serial_number32 env.time_us s).0
  unfolding vd_read_block msc_get_serial_number32
  read-serial s lba a = ground arith
