-- ===== src/Disk/Read/Confined.antt =====
-- A sector depends on nothing that was in the buffer, and nothing beyond the sector is written.
use pico_bootrom_crashdump.Prelude.{
  ℕ, zero, suc, ◌+◌, ◌-◌, ◌*◌, ◌≤◌, ◌<◌, ◌≡◌, inl, inr, refl, sym, ap, ◌∙◌, arith, ltb,
  if◌then◌else◌, Bool, true, false, Bool-cases, length, List, [], ◌∷◌, min, max, dec_lt,
}
use pico_bootrom_crashdump.Buffer.{Buffer, store, store_list, le16, for_up}
use pico_bootrom_crashdump.Platform.{Sdk}
use pico_bootrom_crashdump.Disk.Xxd.{xxd}
use pico_bootrom_crashdump.Disk.Xxd.Image.{xxd_image, xxd_bounds}
use pico_bootrom_crashdump.Disk.Read.Fat.{head_later, index_first, index_later}
use pico_bootrom_crashdump.Disk.Layout.{clus_crash_last}
use pico_bootrom_crashdump.Disk.Read.{
  copy_match, poor_mans_text_decompress, link, fat_head, fat_links, fat_sector, init_dir_entry,
}

-- The two buffers hold the same sector.
abbrev pub Agree : Buffer → Buffer → Type 0
Agree a b = (j : ℕ) → j < 512 → a j ≡ b j

pub record IsConfined (f : Buffer → Buffer) : Type 0 where
  pub outside : (b : Buffer) (j : ℕ) → 512 ≤ j → f b j ≡ b j
  pub same : (a b : Buffer) → Agree a b → Agree (f a) (f b)

pub then_ : {f g : Buffer → Buffer} → IsConfined f → IsConfined g → IsConfined (λ b. g (f b))
then_ {f} {g} cf cg = record {
  outside = λ b j h. cg.outside (f b) j h ∙ cf.outside b j h;
  same = λ a b e. cg.same (f a) (f b) (cf.same a b e);
}

pub ext : {f g : Buffer → Buffer} → ((b : Buffer) → f b ≡ g b) → IsConfined g → IsConfined f
ext e c = record {
  outside = λ b j h. ap (λ (x : Buffer). x j) (e b) ∙ c.outside b j h;
  same = λ a b h j p.
      ap (λ (x : Buffer). x j) (e a) ∙ c.same a b h j p ∙ ap (λ (x : Buffer). x j) (sym (e b));
}

-- A test outside the buffer chooses between confined routines.
pub if-IsConfined :
    {f g : Buffer → Buffer} (t : Bool)
    → IsConfined f
    → IsConfined g
    → IsConfined (λ b. if t then f b else g b)
if-IsConfined true cf cg = cf
if-IsConfined false cf cg = cg

pub case-IsConfined :
    {f g : Buffer → Buffer} (t : Bool)
    → (t ≡ true → IsConfined f)
    → (t ≡ false → IsConfined g)
    → IsConfined (λ b. if t then f b else g b)
case-IsConfined true cf cg = cf refl
case-IsConfined false cf cg = cg refl

pub skip : IsConfined (λ b. b)
skip = record { outside = λ b j h. refl; same = λ a b e. e }

pub store-IsConfined : (i v : ℕ) → i < 512 → IsConfined (λ b. store b i v)
store-IsConfined i v h = record {
  outside = λ b j p. ground arith;
  same = λ a b e j p. ground (arith, e j p);
}

pub store_list-IsConfined :
    (at : ℕ) (bytes : List ℕ) → at + length bytes ≤ 512 → IsConfined (λ b. store_list b at bytes)
store_list-IsConfined at bytes h = record {
  outside = λ b j p. ground arith;
  same = λ a b e j p. ground (arith, e j p);
}

pub xxd-IsConfined : (ram : ℕ → ℕ) (mem : ℕ) → IsConfined (xxd ram mem)
xxd-IsConfined ram mem = record {
  outside = λ b j p. xxd_bounds ram mem j b p;
  same = λ a b e j p. xxd_image ram mem j a p ∙ sym (xxd_image ram mem j b p);
}

-- A loop of confined rounds is confined.
for_up-IsConfined :
    (n i : ℕ) (body : ℕ → Buffer → Buffer)
    → ((k : ℕ) → i ≤ k → k < i + n → IsConfined (body k))
    → IsConfined (for_up n i body)
unfolding for_up
for_up-IsConfined zero i body h = skip
for_up-IsConfined (suc n) i body h =
    then_ (h i (omega arith) (omega arith))
      (for_up-IsConfined n (i + 1) body (λ k p q. h k (omega arith) (omega arith)))

copy_match-IsConfined : (len off n : ℕ) → n + len ≤ 512 → IsConfined (copy_match len off n)
unfolding copy_match
copy_match-IsConfined len off n h = for_up-IsConfined len 0 _ (λ k p q. record {
  outside = λ b j r. ground arith;
  same = λ a b e j r. ground (arith, e j r, e (n + k - off) (omega arith));
})

-- How many bytes the decompressor writes.
abbrev pub decompressed_length : List ℕ → ℕ
decompressed_length [] = 0
decompressed_length (b ∷ []) = if ltb b 0x80 then 1 else 0
decompressed_length (b ∷ off ∷ src) = elim (ltb b 0x80) [
  | true ↦ suc (decompressed_length (off ∷ src))
  | false ↦ 0x100 - b + decompressed_length src
]

pub decompress-IsConfined :
    (src : List ℕ) (n : ℕ)
    → n + decompressed_length src ≤ 512
    → IsConfined (poor_mans_text_decompress src n)
unfolding poor_mans_text_decompress
decompress-IsConfined [] n h = skip
decompress-IsConfined (b ∷ []) n h = elim (Bool-cases (ltb b 0x80)) [
  | inl p ↦ ext (λ buf. rw p) (store-IsConfined n b (ground arith))
  | inr p ↦ ext (λ buf. rw p) skip
]
decompress-IsConfined (b ∷ off ∷ src) n h = elim (Bool-cases (ltb b 0x80)) [
  | inl p ↦
      ext (λ buf. ground arith)
        (then_ (store-IsConfined n b (ground arith))
          (decompress-IsConfined (off ∷ src) (n + 1) (ground arith)))
  | inr p ↦
      ext (λ buf. ground arith)
        (then_ (copy_match-IsConfined (0x100 - b) off n (ground arith))
          (decompress-IsConfined src (n + (0x100 - b)) (ground arith)))
]

pub init_dir_entry-IsConfined :
    (at cluster len : ℕ) (fn : List ℕ)
    → at + 32 ≤ 512
    → length fn ≡ 11
    → IsConfined (λ b. init_dir_entry b at fn cluster len)
unfolding init_dir_entry
init_dir_entry-IsConfined at cluster len fn h e = record {
  outside = λ b j p. ground arith;
  same = λ a b q j p. ground (arith, q j p);
}

-- The state of the loop over the links: an index within the sector, and a buffer.
links-IsConfined :
    (n first index : ℕ) → index + n ≤ 256 → IsConfined (λ b. (for_up n first link (index, b)).1)
unfolding for_up
links-IsConfined zero first index h = skip
links-IsConfined (suc n) first index h =
    then_ (store_list-IsConfined (2 * index) (le16 (first + 1)) (omega arith))
      (links-IsConfined n (first + 1) (index + 1) (omega arith))

head-IsConfined : (lba : ℕ) → IsConfined (λ b. (fat_head lba b).1)
unfolding fat_head
head-IsConfined zero = record {
  outside = λ b j p. ground arith;
  same = λ a b q j p. ground (arith, q j p);
}
head-IsConfined (suc lba) = ext (λ b. rw (head_later lba b)) skip

module _ (sdk : Sdk) where
  filled-IsConfined : (lba : ℕ) → IsConfined (λ b. (fat_links sdk lba (fat_head lba b)).1)
  unfolding fat_links fat_head
  filled-IsConfined zero =
      then_ (head-IsConfined zero)
        (links-IsConfined (min 255 (clus_crash_last sdk) + 1 - 4) 4 4 (omega arith))
  filled-IsConfined (suc lba) =
      ext (λ b. ap (λ (s : ℕ × Buffer). (fat_links sdk (suc lba) s).1) (head_later lba b))
        (links-IsConfined
          (min (suc lba * 256 + 256 - 1) (clus_crash_last sdk) + 1 - max (suc lba * 256) 4)
          (max (suc lba * 256) 4) 0 (omega arith))

  pub fat_sector-IsConfined :
      (lba : ℕ) → clus_crash_last sdk < 65535 → IsConfined (fat_sector sdk lba)
  unfolding fat_sector
  fat_sector-IsConfined zero small = elim (dec_lt 255 (clus_crash_last sdk)) [
    | yes p ↦ ext (λ b. ground (arith, index_first sdk b)) (filled-IsConfined 0)
    | no p ↦
        ext (λ b. ground (arith, index_first sdk b))
          (then_ (filled-IsConfined 0)
            (store_list-IsConfined (2 * clus_crash_last sdk) (le16 0xffff) (omega arith)))
  ]
  fat_sector-IsConfined (suc lba) small =
      ext (λ b. ground (arith, head_later lba b, index_later sdk b (suc lba)))
        (filled-IsConfined (suc lba))
