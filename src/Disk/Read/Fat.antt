-- ===== src/Disk/Read/Fat.antt =====
-- The entries of the file allocation tables.
use pico_bootrom_crashdump.Prelude.{
  ℕ, zero, suc, ◌+◌, ◌-◌, ◌*◌, ◌%◌, ◌^◌, ◌≤◌, ◌<◌, ◌≡◌, ◌≢◌, ◌⊎◌, inl, inr, refl, ap, ◌∙◌, arith,
  ltb, leb, ◌==◌, ◌&&◌, if◌then◌else◌, dec_lt, min, max, get_or,
}
use pico_bootrom_crashdump.Buffer.{
  Buffer, store_list, store_list-inside, within, le16, load16, for_up,
}
use pico_bootrom_crashdump.Platform.{Sdk}
use pico_bootrom_crashdump.Disk.Layout.{clus_crash_last, clus_crash_start}
use pico_bootrom_crashdump.Disk.Read.{push16, link, fat_head, fat_links, fat_sector}

index-link : (n first index : ℕ) (buf : Buffer) → (for_up n first link (index, buf)).0 ≡ index + n
unfolding for_up
index-link zero first index buf = omega arith
index-link (suc n) first index buf =
    omega (arith, index-link n (first + 1) (index + 1) (push16 (first + 1) (index, buf)).1)

link-outside :
    (n first index j : ℕ) (buf : Buffer)
    → (j < 2 * index) ⊎ (2 * (index + n) ≤ j)
    → (for_up n first link (index, buf)).1 j ≡ buf j
unfolding for_up
link-outside zero first index j buf out = refl
link-outside (suc n) first index j buf out =
    link-outside n (first + 1) (index + 1) j (push16 (first + 1) (index, buf)).1 (omega arith)
    ∙ ground arith

link-inside :
    (n first index e o : ℕ) (buf : Buffer)
    → e < n
    → o < 2
    → (for_up n first link (index, buf)).1 (2 * (index + e) + o) ≡ get_or (le16 (first + e + 1)) o 0
unfolding for_up
link-inside zero first index e o buf small bit = absurd (omega arith)
link-inside (suc n) first index zero o buf small bit =
    link-outside n (first + 1) (index + 1) (2 * (index + 0) + o) _ (omega arith)
    ∙ ap (store_list buf (2 * index) (le16 (first + 1))) here
    ∙ store_list-inside buf (2 * index) (le16 (first + 1)) o bit
    ∙ ap (λ (v : ℕ). get_or (le16 v) o 0) (omega arith)
  where
    here : 2 * (index + 0) + o ≡ 2 * index + o
    here = omega arith
link-inside (suc n) first index (suc e) o buf small bit =
    let place : index + suc e ≡ index + 1 + e = omega arith in
    ap (λ (i : ℕ). (for_up (suc n) first link (index, buf)).1 (2 * i + o)) place
    ∙ link-inside n (first + 1) (index + 1) e o _ (omega arith) bit
    ∙ ap (λ (v : ℕ). get_or (le16 v) o 0) (omega arith)

-- A table entry of a filled table, as a number.
link-entry :
    (n first index e : ℕ) (buf : Buffer)
    → e < n
    → load16 (for_up n first link (index, buf)).1 (2 * (index + e)) ≡ (first + e + 1) % 2 ^ 16
link-entry n first index e buf small = omega (
  arith,
  link-inside n first index e 0 buf small (omega arith),
  link-inside n first index e 1 buf small (omega arith),
  ap (for_up n first link (index, buf)).1 start,
)
  where
    start : 2 * (index + e) + 0 ≡ 2 * (index + e)
    start = omega arith

-- What the table holds for cluster `c`: the media type, the end of a file, the next cluster of the
-- dump, or free.
abbrev pub fat_value : Sdk → ℕ → ℕ
fat_value sdk c =
    if c == 0
    then 0xfff8
    else if ltb c clus_crash_start
    then 0xffff
    else if leb c (clus_crash_last sdk)
    then (if c == clus_crash_last sdk && ltb c 256 then 0xffff else c + 1)
    else 0

link-none :
    (n first index e : ℕ) (buf : Buffer)
    → (e < index) ⊎ (index + n ≤ e)
    → load16 (for_up n first link (index, buf)).1 (2 * e) ≡ load16 buf (2 * e)
link-none n first index e buf out = omega (
  arith,
  link-outside n first index (2 * e) buf (omega arith),
  link-outside n first index (2 * e + 1) buf (omega arith),
)

-- A table entry after the loop.
link-load :
    (n first index e : ℕ) (buf : Buffer)
    → load16 (for_up n first link (index, buf)).1 (2 * e)
      ≡ (if within index n e then (first + (e - index) + 1) % 2 ^ 16 else load16 buf (2 * e))
link-load n first index e buf = elim (dec_lt e index) [
  | yes p ↦ ground (arith, link-none n first index e buf (inl p))
  | no p ↦ elim (dec_lt e (index + n)) [
    | yes q ↦
        ap (λ (i : ℕ). load16 (for_up n first link (index, buf)).1 (2 * i)) (omega arith)
        ∙ link-entry n first index (e - index) buf (omega arith)
        ∙ ground arith
    | no q ↦ ground (arith, link-none n first index e buf (inr (omega arith)))
  ]
]

head-entry :
    (buf : Buffer) (e : ℕ)
    → e < 4
    → load16 (fat_head 0 buf).1 (2 * e) ≡ (if e == 0 then 0xfff8 else 0xffff)
unfolding fat_head
head-entry buf zero h = refl
head-entry buf (suc zero) h = refl
head-entry buf (suc (suc zero)) h = refl
head-entry buf (suc (suc (suc zero))) h = refl
head-entry buf (suc (suc (suc (suc e)))) h = absurd (omega arith)

pub head_later : (lba : ℕ) (buf : Buffer) → fat_head (suc lba) buf ≡ (0, buf)
unfolding fat_head
head_later lba buf = ground arith

head-outside : (buf : Buffer) (j : ℕ) → 8 ≤ j → (fat_head 0 buf).1 j ≡ buf j
unfolding fat_head
head-outside buf j h = ground arith

module _ (sdk : Sdk) where
  -- What the loop alone leaves for cluster `c`.
  abbrev linked : ℕ → ℕ
  linked c =
      if c == 0
      then 0xfff8
      else if ltb c clus_crash_start
      then 0xffff
      else if leb c (clus_crash_last sdk)
      then c + 1
      else 0

  pub index_first :
      (buf : Buffer)
      → (fat_links sdk 0 (fat_head 0 buf)).0 ≡ 4 + (min 255 (clus_crash_last sdk) + 1 - 4)
  unfolding fat_links fat_head
  index_first buf = index-link (min 255 (clus_crash_last sdk) + 1 - 4) 4 4 (fat_head 0 buf).1

  pub index_later :
      (buf : Buffer) (lba : ℕ) → lba ≢ 0 → (fat_links sdk lba (0, buf)).0 < clus_crash_last sdk
  unfolding fat_links
  index_later buf lba ne = omega (
    arith,
    index-link (min (lba * 256 + 256 - 1) (clus_crash_last sdk) + 1 - max (lba * 256) 4)
        (max (lba * 256) 4) 0 buf,
  )

  module _ (small : clus_crash_last sdk < 65535) (buf : Buffer)
      (blank : (j : ℕ) → j < 512 → buf j ≡ 0) where
    blank16 : (e : ℕ) → e < 256 → load16 buf (2 * e) ≡ 0
    blank16 e h = omega (arith, blank (2 * e) (omega arith), blank (2 * e + 1) (omega arith))

    links_first : (e : ℕ) → e < 256 → load16 (fat_links sdk 0 (fat_head 0 buf)).1 (2 * e) ≡ linked e
    unfolding fat_links fat_head
    links_first e h = elim (dec_lt e 4) [
      | yes p ↦ ground (
        arith,
        link-load (min 255 (clus_crash_last sdk) + 1 - 4) 4 4 e (fat_head 0 buf).1,
        head-entry buf e p,
      )
      | no p ↦ ground (
        arith,
        link-load (min 255 (clus_crash_last sdk) + 1 - 4) 4 4 e (fat_head 0 buf).1,
        head-outside buf (2 * e) (omega arith),
        head-outside buf (2 * e + 1) (omega arith),
        blank16 e h,
      )
    ]

    links_later :
        (lba e : ℕ)
        → lba ≢ 0
        → e < 256
        → load16 (fat_links sdk lba (0, buf)).1 (2 * e) ≡ linked (256 * lba + e)
    unfolding fat_links
    links_later lba e ne h = ground (
      arith,
      link-load (min (lba * 256 + 256 - 1) (clus_crash_last sdk) + 1 - max (lba * 256) 4)
          (max (lba * 256) 4) 0 e buf,
      blank16 e h,
    )

    -- The entry `e` of the sector `lba` of a table.
    pub fat_sector-entry :
        (lba e : ℕ)
        → e < 256
        → load16 (fat_sector sdk lba buf) (2 * e) ≡ fat_value sdk (256 * lba + e)
    unfolding fat_sector fat_head
    fat_sector-entry zero e h = elim (dec_lt 255 (clus_crash_last sdk)) [
      | yes p ↦ ground (arith, index_first buf, links_first e h)
      | no p ↦ ground (arith, index_first buf, links_first e h)
    ]
    fat_sector-entry (suc lba) e h =
        ground (arith, index_later buf (suc lba), links_later (suc lba) e)
