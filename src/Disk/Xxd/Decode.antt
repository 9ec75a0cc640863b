-- ===== src/Disk/Xxd/Decode.antt =====
-- Reading a dump of `xxd` back.
use pico_bootrom_crashdump.Prelude.{
  ℕ, ◌+◌, ◌-◌, ◌*◌, ◌/◌, ◌%◌, ◌≤◌, ◌<◌, ◌≡◌, ◌≢◌, ◌⊎◌, inl, inr, ℕ_discrete, ap, ◌∙◌, arith, leb,
  if◌then◌else◌,
}
use pico_bootrom_crashdump.Buffer.{Buffer}
use pico_bootrom_crashdump.Disk.Xxd.{hex_digit, printable, xxd}
use pico_bootrom_crashdump.Disk.Xxd.Fields.{hex_at, line_at}
use pico_bootrom_crashdump.Disk.Xxd.Image.{xxd_at, xxd_image}

-- The value of a lower-case hexadecimal character.
abbrev pub unhex : ℕ → ℕ
unhex c = if leb c b'9' then c - b'0' else c + 10 - b'a'

unhex-hex_digit : (n : ℕ) → n < 16 → unhex (hex_digit n) ≡ n
unfolding hex_digit
unhex-hex_digit n h = ground arith

-- Where the dump has the two characters of the byte `i`.
abbrev pub column : ℕ → ℕ
column i = 64 * (i / 16) + 6 + 5 * (i % 16 / 2) + 2 * (i % 2)

abbrev pub undump : Buffer → ℕ → ℕ
undump buf i = 16 * unhex (buf (column i)) + unhex (buf (column i + 1))

module _ (ram : ℕ → ℕ) (mem i : ℕ) where
  at_column : (o : ℕ) → o < 2 → i < 128 → xxd_at ram mem (column i + o) ≡ hex_at (ram (mem + i)) 2 o
  at_column o small h = ground (arith, line, field, half, which, byte)
    where
      line : (column i + o) / 64 ≡ i / 16
      line = omega arith

      field : (column i + o) % 64 ≡ 6 + 5 * (i % 16 / 2) + (2 * (i % 2) + o)
      field = omega arith

      half : (6 + 5 * (i % 16 / 2) + (2 * (i % 2) + o) - 6) / 5 ≡ i % 16 / 2
      half = omega arith

      which : (6 + 5 * (i % 16 / 2) + (2 * (i % 2) + o) - 6) % 5 ≡ 2 * (i % 2) + o
      which = omega arith

      byte :
          (16 * (i / 16) + 2 * (i % 16 / 2) + (2 * (i % 2) + o) / 2 ≡ i)
          × ((2 * (i % 2) + o) % 2 ≡ o)
      byte = omega arith

  -- Each of the 128 bytes of memory, if it is below 256, is read back from its dump.
  pub undump-xxd :
      (buf : Buffer) → i < 128 → ram (mem + i) < 256 → undump (xxd ram mem buf) i ≡ ram (mem + i)
  undump-xxd buf h byte = omega (
    arith,
    ap unhex (xxd_image ram mem (column i + 0) buf (omega arith) ∙ at_column 0 (omega arith) h),
    ap unhex (xxd_image ram mem (column i + 1) buf (omega arith) ∙ at_column 1 (omega arith) h),
    unhex-hex_digit (ram (mem + i) / 16 % 16) (omega arith),
    unhex-hex_digit (ram (mem + i) / 1 % 16) (omega arith),
    ap (λ (c : ℕ). unhex (xxd ram mem buf c)) start,
  )
    where
      start : column i + 0 ≡ column i
      start = omega arith

module _ (ram : ℕ → ℕ) (mem line k : ℕ) where
  pub line_text : k < 63 → (b' ' ≤ line_at ram mem line k) × (line_at ram mem line k ≤ b'~')
  unfolding printable hex_digit
  line_text h = ground arith

-- The dump is text: printable characters, with a newline just at the end of each line.
pub xxd_text :
    (ram : ℕ → ℕ) (mem j : ℕ) (buf : Buffer)
    → j < 512
    → ((j % 64 ≡ 63) × (xxd ram mem buf j ≡ 0x0a))
      ⊎ ((j % 64 ≢ 63) × (b' ' ≤ xxd ram mem buf j) × (xxd ram mem buf j ≤ b'~'))
xxd_text ram mem j buf h = rw (xxd_image ram mem j buf h) (elim (ℕ_discrete (j % 64) 63) [
  | yes e ↦ inl (e, ground arith)
  | no ne ↦ let t = line_text ram mem (j / 64) (j % 64) (omega arith) in inr (ne, t.0, t.1)
])
