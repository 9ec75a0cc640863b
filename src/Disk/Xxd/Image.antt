-- ===== src/Disk/Xxd/Image.antt =====
-- What `xxd` leaves at each index of its buffer: a table of characters.
use pico_bootrom_crashdump.Prelude.{
  ℕ, ◌+◌, ◌-◌, ◌*◌, ◌/◌, ◌%◌, ◌≤◌, ◌<◌, ◌≡◌, ◌⊎◌, inl, sym, ap, ◌∙◌, arith, dec_lt,
}
use pico_bootrom_crashdump.Buffer.{Buffer, store, for_up, for_up_at, for_up_outside}
use pico_bootrom_crashdump.Disk.Xxd.{hex, xxd_hword, xxd_line, xxd}
use pico_bootrom_crashdump.Disk.Xxd.Fields.{
  line_at, hex-inside, hex-outside, hwords-inside, hwords-outside, chars-inside, chars-outside,
}

module _ (ram : ℕ → ℕ) (mem line : ℕ) where
  addressed : Buffer → Buffer
  addressed buf = store (hex buf (64 * line + 0x00) (mem + 16 * line) 5) (64 * line + 0x05) b' '

  dumped : Buffer → Buffer
  dumped buf = store (for_up 8 0 (xxd_hword ram mem line) (addressed buf)) (64 * line + 0x2e) b' '

  line-inside :
      (k : ℕ) (buf : Buffer)
      → k < 64
      → xxd_line ram mem line buf (64 * line + k) ≡ line_at ram mem line k
  unfolding xxd_line addressed dumped
  line-inside k buf small = elim (dec_lt k 6) [
    | yes p ↦ ground (
      arith,
      chars-outside ram mem line j (dumped buf) (inl (omega arith)),
      hwords-outside ram mem line j (addressed buf) (inl (omega arith)),
      hex-inside buf (64 * line + 0x00) (mem + 16 * line) 5 j,
      column,
    )
    | no p ↦ elim (dec_lt k 47) [
      | yes q ↦ ground (
        arith,
        chars-outside ram mem line j (dumped buf) (inl (omega arith)),
        hwords-inside ram mem line j (addressed buf) (omega arith),
        from_six,
      )
      | no q ↦ ground (
        arith,
        chars-inside ram mem line j (dumped buf) (omega arith),
        from_text,
        chars-outside ram mem line j (dumped buf),
      )
    ]
  ]
    where
      j : ℕ
      j = 64 * line + k

      column : 64 * line + k - (64 * line + 0x00) ≡ k
      column = omega arith

      from_six : 64 * line + k - (64 * line + 6) ≡ k - 6
      from_six = omega arith

      from_text : 64 * line + k - (64 * line + 47) ≡ k - 47
      from_text = omega arith

  line-outside :
      (j : ℕ) (buf : Buffer)
      → (j < 64 * line) ⊎ (64 * line + 64 ≤ j)
      → xxd_line ram mem line buf j ≡ buf j
  unfolding xxd_line addressed dumped
  line-outside j buf out = ground (
    arith,
    chars-outside ram mem line j (dumped buf) (omega arith),
    hwords-outside ram mem line j (addressed buf) (omega arith),
    hex-outside buf (64 * line + 0x00) (mem + 16 * line) 5 j (omega arith),
  )

-- The character at index `j` of the dump of the 128 bytes from address `mem` on.
abbrev pub xxd_at : (ℕ → ℕ) → ℕ → ℕ → ℕ
xxd_at ram mem j = line_at ram mem (j / 64) (j % 64)

-- Each of the 512 characters that `xxd` leaves in the buffer is the one that `xxd_at` gives by its
-- line and column, whatever the buffer held.
pub xxd_image :
    (ram : ℕ → ℕ) (mem j : ℕ) (buf : Buffer) → j < 512 → xxd ram mem buf j ≡ xxd_at ram mem j
unfolding xxd
xxd_image ram mem j buf small =
    for_up_at (xxd_line ram mem) j 8 0 (j / 64) _ buf (omega arith) (omega arith) (λ t. own t)
      (λ l t p q ne. line-outside ram mem l j t (omega arith))
  where
    place : 64 * (j / 64) + j % 64 ≡ j
    place = omega arith

    own : (t : Buffer) → xxd_line ram mem (j / 64) t j ≡ xxd_at ram mem j
    own t =
        ap (xxd_line ram mem (j / 64) t) (sym place)
        ∙ line-inside ram mem (j / 64) (j % 64) t (omega arith)

-- `xxd` writes no byte beyond the sector.
pub xxd_bounds : (ram : ℕ → ℕ) (mem j : ℕ) (buf : Buffer) → 512 ≤ j → xxd ram mem buf j ≡ buf j
unfolding xxd
xxd_bounds ram mem j buf out =
    for_up_outside (xxd_line ram mem) j 8 0 buf
      (λ k t p q. line-outside ram mem k j t (omega arith))
