-- ===== src/Disk/Xxd/Fields.antt =====
-- What the loops inside a line of `xxd` leave at each index of the buffer.
use pico_bootrom_crashdump.Prelude.{
  ℕ, ◌+◌, ◌-◌, ◌*◌, ◌/◌, ◌%◌, ◌^◌, ◌≤◌, ◌<◌, ◌≡◌, ◌⊎◌, inl, sym, ap, ◌∙◌, arith, ltb, ◌==◌,
  if◌then◌else◌, dec_lt,
}
use pico_bootrom_crashdump.Buffer.{Buffer, store, for_up, for_up_at, for_up_outside}
use pico_bootrom_crashdump.Disk.Xxd.{hex_digit, hex, printable, xxd_hword, xxd_char}

-- The character that `hex` writes `o` places into its field.
abbrev pub hex_at : ℕ → ℕ → ℕ → ℕ
hex_at word nibbles o = hex_digit (word / 2 ^ ((nibbles - 1 - o) * 4) % 16)

pub hex-inside :
    (buf : Buffer) (at word nibbles j : ℕ)
    → nibbles ≤ 8
    → at ≤ j
    → j < at + nibbles
    → hex buf at word nibbles j ≡ hex_at word nibbles (j - at)
unfolding hex
hex-inside buf at word nibbles j small lo hi =
    for_up_at _ j nibbles (8 - nibbles) (8 - nibbles + (j - at)) _ buf (omega arith) (omega arith)
      (λ t. own t) (λ l t p q ne. ground arith)
  where
    shift : 7 - (8 - nibbles + (j - at)) ≡ nibbles - 1 - (j - at)
    shift = omega arith

    here : at + (8 - nibbles + (j - at) - (8 - nibbles)) ≡ j
    here = omega arith

    own :
        (t : Buffer)
        → store t
            (at + (8 - nibbles + (j - at) - (8 - nibbles)))
            (hex_digit (word / 2 ^ ((7 - (8 - nibbles + (j - at))) * 4) % 16))
            j
          ≡ hex_at word nibbles (j - at)
    own t = rw (shift, here) (ground arith)

pub hex-outside :
    (buf : Buffer) (at word nibbles j : ℕ)
    → (j < at) ⊎ (at + nibbles ≤ j)
    → hex buf at word nibbles j ≡ buf j
unfolding hex
hex-outside buf at word nibbles j out =
    for_up_outside _ j nibbles (8 - nibbles) buf (λ k t p q. ground arith)

module _ (ram : ℕ → ℕ) (mem line : ℕ) where
  -- The five characters of a half word: two bytes in hex and a blank.
  abbrev pub hword_at : ℕ → ℕ → ℕ
  hword_at h r =
      if ltb r 4 then hex_at (ram (mem + (16 * line + 2 * h + r / 2))) 2 (r % 2) else b' '

  -- The character at column `k` of a line.
  abbrev pub line_at : ℕ → ℕ
  line_at k =
      if ltb k 5
      then hex_at (mem + 16 * line) 5 k
      else if k == 5
      then b' '
      else if ltb k 46
      then hword_at ((k - 6) / 5) ((k - 6) % 5)
      else if k == 46
      then b' '
      else if ltb k 63
      then printable (ram (mem + (16 * line + (k - 47))))
      else 0x0a

  first : ℕ → Buffer → Buffer
  first h buf = hex buf (64 * line + 5 * h + 0x06) (ram (mem + (16 * line + 2 * h + 0))) 2

  second : ℕ → Buffer → Buffer
  second h buf =
      hex (first h buf) (64 * line + 5 * h + 0x08) (ram (mem + (16 * line + 2 * h + 1))) 2

  first_at :
      (h o : ℕ) (buf : Buffer)
      → o < 2
      → second h buf (64 * line + 5 * h + 6 + o) ≡ hex_at (ram (mem + (16 * line + 2 * h + 0))) 2 o
  unfolding first second
  first_at h o buf small =
      hex-outside (first h buf) (64 * line + 5 * h + 0x08) (ram (mem + (16 * line + 2 * h + 1))) 2
        (64 * line + 5 * h + 6 + o) (inl (omega arith))
      ∙ hex-inside buf (64 * line + 5 * h + 6) _ 2 (64 * line + 5 * h + 6 + o) (omega arith)
          (omega arith) (omega arith)
      ∙ ap (hex_at (ram (mem + (16 * line + 2 * h + 0))) 2) (omega arith)

  second_at :
      (h o : ℕ) (buf : Buffer)
      → o < 2
      → second h buf (64 * line + 5 * h + 8 + o) ≡ hex_at (ram (mem + (16 * line + 2 * h + 1))) 2 o
  unfolding second
  second_at h o buf small =
      hex-inside (first h buf) (64 * line + 5 * h + 8) _ 2 (64 * line + 5 * h + 8 + o) (omega arith)
        (omega arith) (omega arith)
      ∙ ap (hex_at (ram (mem + (16 * line + 2 * h + 1))) 2) (omega arith)

  hword-inside :
      (h r : ℕ) (buf : Buffer)
      → r < 5
      → xxd_hword ram mem line h buf (64 * line + 5 * h + 6 + r) ≡ hword_at h r
  unfolding xxd_hword first second
  hword-inside h r buf small = elim (dec_lt r 2) [
    | yes p ↦ ground (arith, first_at h r buf p, halves p)
    | no p ↦ elim (dec_lt r 4) [
      | yes q ↦ ground (arith, second_at h (r - 2) buf (omega arith), upper p q, place p)
      | no q ↦ ground arith
    ]
  ]
    where
      halves : r < 2 → (r / 2 ≡ 0) × (r % 2 ≡ r)
      halves p = omega arith

      upper : ¬ r < 2 → r < 4 → (r / 2 ≡ 1) × (r % 2 ≡ r - 2)
      upper p q = omega arith

      place : ¬ r < 2 → 64 * line + 5 * h + 8 + (r - 2) ≡ 64 * line + 5 * h + 6 + r
      place p = omega arith

  hword-outside :
      (h j : ℕ) (buf : Buffer)
      → (j < 64 * line + 5 * h + 6) ⊎ (64 * line + 5 * h + 11 ≤ j)
      → xxd_hword ram mem line h buf j ≡ buf j
  unfolding xxd_hword
  hword-outside h j buf out = ground (
    arith,
    hex-outside buf (64 * line + 5 * h + 6) (ram (mem + (16 * line + 2 * h + 0))) 2 j,
    hex-outside (hex buf (64 * line + 5 * h + 6) (ram (mem + (16 * line + 2 * h + 0))) 2)
        (64 * line + 5 * h + 8) (ram (mem + (16 * line + 2 * h + 1))) 2 j,
  )

  pub hwords-inside :
      (j : ℕ) (buf : Buffer)
      → 64 * line + 6 ≤ j
      → j < 64 * line + 46
      → for_up 8 0 (xxd_hword ram mem line) buf j
        ≡ hword_at ((j - (64 * line + 6)) / 5) ((j - (64 * line + 6)) % 5)
  hwords-inside j buf lo hi =
      for_up_at _ j 8 0 (o / 5) _ buf (omega arith) (omega arith) (λ t. own t)
        (λ l t p q ne. hword-outside l j t (omega arith))
    where
      o : ℕ
      o = j - (64 * line + 6)

      place : 64 * line + 5 * (o / 5) + 6 + o % 5 ≡ j
      place = omega arith

      own : (t : Buffer) → xxd_hword ram mem line (o / 5) t j ≡ hword_at (o / 5) (o % 5)
      own t =
          ap (xxd_hword ram mem line (o / 5) t) (sym place)
          ∙ hword-inside (o / 5) (o % 5) t (omega arith)

  pub hwords-outside :
      (j : ℕ) (buf : Buffer)
      → (j < 64 * line + 6) ⊎ (64 * line + 46 ≤ j)
      → for_up 8 0 (xxd_hword ram mem line) buf j ≡ buf j
  hwords-outside j buf out =
      for_up_outside _ j 8 0 buf (λ k t p q. hword-outside k j t (omega arith))

  pub chars-inside :
      (j : ℕ) (buf : Buffer)
      → 64 * line + 47 ≤ j
      → j < 64 * line + 63
      → for_up 16 0 (xxd_char ram mem line) buf j
        ≡ printable (ram (mem + (16 * line + (j - (64 * line + 47)))))
  unfolding xxd_char
  chars-inside j buf lo hi =
      for_up_at _ j 16 0 (j - (64 * line + 47)) _ buf (omega arith) (omega arith)
        (λ t. ground arith) (λ l t p q ne. ground arith)

  pub chars-outside :
      (j : ℕ) (buf : Buffer)
      → (j < 64 * line + 47) ⊎ (64 * line + 63 ≤ j)
      → for_up 16 0 (xxd_char ram mem line) buf j ≡ buf j
  unfolding xxd_char
  chars-outside j buf out = for_up_outside _ j 16 0 buf (λ k t p q. ground arith)
