-- ===== src/Disk/Xxd.antt =====
-- `hex` and `xxd` of bootrom/virtual_disk.c: 128 bytes of memory as 512 characters in eight lines.
-- Memory is a function from an address to its byte.
pub mod Fields
pub mod Image
pub mod Decode
use pico_bootrom_crashdump.Prelude.{
  ℕ, ◌+◌, ◌-◌, ◌*◌, ◌/◌, ◌%◌, ◌^◌, Bool, ◌&&◌, ltb, leb, if◌then◌else◌,
}
use pico_bootrom_crashdump.Buffer.{Buffer, store, for_up}

-- '0' + nibble, or 'a' + nibble - 10
unfoldable pub hex_digit : ℕ → ℕ
hex_digit nibble = if ltb nibble 10 then b'0' + nibble else b'a' + nibble - 10

-- `hex(&buf[at], word, nibbles)`
unfoldable pub hex : Buffer → ℕ → ℕ → ℕ → Buffer
hex buf at word nibbles =
    for_up nibbles (8 - nibbles)
      (λ hexit b.
        store b (at + (hexit - (8 - nibbles))) (hex_digit (word / 2 ^ ((7 - hexit) * 4) % 16)))
      buf

unfoldable pub printable : ℕ → ℕ
printable c = if leb b' ' c && leb c b'~' then c else b'.'

module _ (ram : ℕ → ℕ) (mem : ℕ) where
  -- One round of the loop over `hword`.
  unfoldable pub xxd_hword : ℕ → ℕ → Buffer → Buffer
  xxd_hword line hword buf =
      let buf_offset_h = 64 * line + 5 * hword in
      let mem_offset_h = 16 * line + 2 * hword in
      store
        (hex (hex buf (buf_offset_h + 0x06) (ram (mem + (mem_offset_h + 0))) 2)
          (buf_offset_h + 0x08) (ram (mem + (mem_offset_h + 1))) 2)
        (buf_offset_h + 0x0a) b' '

  -- One round of the loop over `b`.
  unfoldable pub xxd_char : ℕ → ℕ → Buffer → Buffer
  xxd_char line b buf = store buf (64 * line + b + 0x2f) (printable (ram (mem + (16 * line + b))))

  -- One round of the loop over `line`.
  unfoldable pub xxd_line : ℕ → Buffer → Buffer
  xxd_line line buf =
      let buf_offset = 64 * line in
      let address =
        store (hex buf (buf_offset + 0x00) (mem + 16 * line) 5) (buf_offset + 0x05) b' ' in
      let hwords = store (for_up 8 0 (xxd_hword line) address) (buf_offset + 0x2e) b' ' in
      store (for_up 16 0 (xxd_char line) hwords) (buf_offset + 0x3f) 0x0a

  unfoldable pub xxd : Buffer → Buffer
  xxd buf = for_up 8 0 xxd_line buf
