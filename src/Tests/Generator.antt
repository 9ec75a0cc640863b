-- ===== src/Tests/Generator.antt =====
-- The compression of a text that repeats itself.
use pico_bootrom_crashdump.Prelude.{ℕ, ◌≡◌, refl, true, some, List, [], ◌∷◌, arith, codes, get_or}
use pico_bootrom_crashdump.Buffer.{Buffer, for_up}
use pico_bootrom_crashdump.Disk.Read.{copy_match, poor_mans_text_decompress}
use pico_bootrom_crashdump.Generator.{
  same_bytes, is_text, find_from, find_match, compress_from, compressed, decompress_from,
  decompress, compress,
}
use pico_bootrom_crashdump.Generator.Roundtrip.{compress_total, poor_mans-compress}
use pico_bootrom_crashdump.Generator.Size.{Fits, compressed-Fits}

abbrev text : Buffer
text j = get_or (codes "abcabcabcabc") j 0

abbrev old_buffer : Buffer
old_buffer j = 0x5a

-- Three bytes, then nine of three bytes before.
abbrev text_z : List ℕ
text_z = 0x61 ∷ 0x62 ∷ 0x63 ∷ 0xf7 ∷ 3 ∷ []

text-is_text : is_text text 12 ≡ true
unfolding is_text
text-is_text = refl

text-compress : compress text 12 old_buffer ≡ some text_z
unfolding compress is_text compress_from find_match find_from same_bytes decompress decompress_from
    copy_match for_up
text-compress = refl

poor_mans-compress_example : poor_mans_text_decompress text_z 0 old_buffer 7 ≡ text 7
poor_mans-compress_example =
    poor_mans-compress text old_buffer old_buffer 12 text_z (omega arith) text-compress 7
      (omega arith)

compress_total_example : compress text 12 old_buffer ≡ some (compressed text 12)
compress_total_example = compress_total text old_buffer 12 text-is_text (omega arith)

smaller_text : Fits 12 (compressed text 12)
smaller_text = compressed-Fits text 12 text-is_text
