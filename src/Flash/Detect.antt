-- ===== src/Flash/Detect.antt =====
-- `flash_size_log2` of bootrom/program_flash_generic.c: the size of the flash chip, from its SFDP
-- table or its JEDEC ID.
use pico_bootrom_crashdump.Prelude.{
  ℕ, zero, suc, ◌+◌, ◌-◌, ◌/◌, ◌%◌, ◌^◌, ◌≤◌, ◌<◌, ◌≡◌, ◌⊎◌, inl, inr, false, not, ◌||◌, Option,
  none, some, List, [], ◌∷◌, arith, ltb, leb, ◌==◌, if◌then◌else◌,
}
use native.Mathlib.Nat.{pow-le-pow_right}
use pico_bootrom_crashdump.Buffer.{Buffer, load32}
use pico_bootrom_crashdump.Flash.Commands.{
  Sent, flash_do_cmd, flash_read_sfdp, flashcmd_read_jedec_id,
}

-- 'S' | ('F' << 8) | ('D' << 16) | ('P' << 24)
abbrev pub sfdp_magic : ℕ
sfdp_magic = 0x50444653

-- `while (array_size_word >>= 1) ++ctr;`, where 32 rounds are enough for a word.
unfoldable pub log2_loop : ℕ → ℕ → ℕ → ℕ
log2_loop zero word ctr = ctr
log2_loop (suc fuel) word ctr =
    let rest = log2_loop fuel (word / 2) (1 + ctr) in if word / 2 == 0 then ctr else rest

-- The logarithm of the number of bits from the word of the table.
unfoldable pub array_bits_log2 : ℕ → ℕ
array_bits_log2 word =
    if leb (2 ^ 31) word then word - 2 ^ 31 else log2_loop 32 ((word + 1) % 2 ^ 32) 0

module _ (reply : Sent → List ℕ → Buffer) where
  -- From the label `sfdp_fail` on: the logarithm of the number of bytes, `none` for -1.
  unfoldable pub size_by_jedec_id : Sent → Option ℕ × Sent
  size_by_jedec_id sent =
      let (rxbuf, sent') = flash_do_cmd reply flashcmd_read_jedec_id (0 ∷ 0 ∷ 0 ∷ []) sent in
      (if ltb (rxbuf 2) 8 || ltb 34 (rxbuf 2) then none else some (rxbuf 2), sent')

  -- `flash_size_log2`
  unfoldable pub flash_size_log2 : Sent → Option ℕ × Sent
  flash_size_log2 sent =
      let (header, sent1) = flash_read_sfdp reply 0 16 sent in
      let (table, sent2) = flash_read_sfdp reply (load32 header 12 % 2 ^ 24) 8 sent1 in
      let bits = array_bits_log2 (load32 table 4) in
      if not (load32 header 0 == sfdp_magic)
      then size_by_jedec_id sent1
      else if not (header 8 == 0)
      then size_by_jedec_id sent1
      else if ltb bits 11 || ltb 37 bits
      then size_by_jedec_id sent2
      else (some (bits - 3), sent2)

  jedec_id-bounds : (sent : Sent) (n : ℕ) → (size_by_jedec_id sent).0 ≡ some n → (8 ≤ n) × (n ≤ 34)
  unfolding size_by_jedec_id
  jedec_id-bounds sent n h = ground arith

  -- A size that is found is between 2 ^ 8 and 2 ^ 34 bytes, by either way.
  pub size-bounds : (sent : Sent) (n : ℕ) → (flash_size_log2 sent).0 ≡ some n → (8 ≤ n) × (n ≤ 34)
  unfolding flash_size_log2
  size-bounds sent n h =
      let sent1 = (flash_read_sfdp reply 0 16 sent).1 in
      let sent2 =
        (flash_read_sfdp reply (load32 (flash_read_sfdp reply 0 16 sent).0 12 % 2 ^ 24) 8
          sent1).1 in
      ground (arith, jedec_id-bounds sent1 n, jedec_id-bounds sent2 n)

pow-pos : (k : ℕ) → 0 < 2 ^ k
pow-pos zero = omega arith
pow-pos (suc k) = let h = pow-pos k in omega arith

log2_loop-pow : (k fuel c : ℕ) → k < fuel → log2_loop fuel (2 ^ k) c ≡ k + c
unfolding log2_loop
log2_loop-pow k zero c h = absurd (omega arith)
log2_loop-pow zero (suc fuel) c h = omega arith
log2_loop-pow (suc k) (suc fuel) c h =
    let half : 2 ^ suc k / 2 ≡ 2 ^ k = grind arith in
    rw half (ground (arith, log2_loop-pow k fuel (1 + c) (omega arith), pow-pos k))

-- A number of bits that the table can hold, as its word.
abbrev pub Encodes : ℕ → ℕ → Type 0
Encodes word k = ((k < 32) × (word + 1 ≡ 2 ^ k)) ⊎ (word ≡ 2 ^ 31 + k)

array_bits-encoded : (word k : ℕ) → k ≤ 37 → Encodes word k → array_bits_log2 word ≡ k
unfolding array_bits_log2
array_bits-encoded word k h (inl (small, e)) =
    let most : 2 ^ k ≤ 2 ^ 31 =
      pow-le-pow_right {n = 2} (omega arith) {i = k} {j = 31} (omega arith) in
    let low : leb (2 ^ 31) word ≡ false = ground (arith, e) in
    let same : (word + 1) % 2 ^ 32 ≡ 2 ^ k = omega (arith, e) in
    rw (low, same, log2_loop-pow k 32 0 small) (omega arith)
array_bits-encoded word k h (inr e) = ground (arith, e)

module _ (reply : Sent → List ℕ → Buffer) (sent : Sent) where
  -- What the code reads of the chip's SFDP data: the header and the start of its first table.
  abbrev pub sfdp_header : Buffer
  sfdp_header = (flash_read_sfdp reply 0 16 sent).0

  abbrev pub sfdp_table : Buffer
  sfdp_table =
      (flash_read_sfdp reply (load32 sfdp_header 12 % 2 ^ 24) 8
        (flash_read_sfdp reply 0 16 sent).1).0

  -- A chip whose SFDP header has the magic number and the identifier of the mandatory table, which
  -- says that the chip has 2 ^ k bits by either encoding, has 2 ^ (k - 3) bytes.
  pub size-encoded :
      (k : ℕ)
      → 11 ≤ k
      → k ≤ 37
      → load32 sfdp_header 0 ≡ sfdp_magic
      → sfdp_header 8 ≡ 0
      → Encodes (load32 sfdp_table 4) k
      → (flash_size_log2 reply sent).0 ≡ some (k - 3)
  unfolding flash_size_log2
  size-encoded k low high magic id e =
      ground (arith, array_bits-encoded (load32 sfdp_table 4) k high e, magic, id)
