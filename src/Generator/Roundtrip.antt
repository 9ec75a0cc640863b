-- ===== src/Generator/Roundtrip.antt =====
-- What is compressed is decompressed to the same text, by the generator and by the firmware.
use pico_bootrom_crashdump.Prelude.{
  ℕ, zero, suc, ◌+◌, ◌-◌, ◌≤◌, ◌<◌, ◌≡◌, inl, inr, refl, sym, ap, ◌∙◌, min, true, false, none, some,
  List, [], ◌∷◌, arith, ltb, leb, ◌==◌, ℕ_discrete, Bool-cases, Option-cases, dec_lt,
}
use pico_bootrom_crashdump.Buffer.{Buffer, store, for_up}
use pico_bootrom_crashdump.Disk.Read.{copy_match, poor_mans_text_decompress}
use pico_bootrom_crashdump.Generator.{
  is_text, find_match, compress_from, compressed, decompress_from, decompress, compress, buf_size,
}
use pico_bootrom_crashdump.Generator.Search.{same_bytes-true, is_text-at, IsMatch, find_match-some}

-- The first `n` bytes are those of the text.
abbrev pub Agree : Buffer → Buffer → ℕ → Type 0
Agree src buf n = (j : ℕ) → j < n → buf j ≡ src j

module _ (src : Buffer) where
  Agree-store : (buf : Buffer) (n : ℕ) → Agree src buf n → Agree src (store buf n (src n)) (n + 1)
  Agree-store buf n a j h = elim (ℕ_discrete n j) [
    | yes e ↦ rw e (ground arith)
    | no ne ↦ ground (arith, a j (omega arith))
  ]

  -- The copy of a repetition, from its round `i` on.
  Agree-rounds :
      (n off m i : ℕ) (buf : Buffer)
      → 0 < off
      → off ≤ n
      → ((k : ℕ) → k < i + m → src (n + k) ≡ src (n + k - off))
      → Agree src buf (n + i)
      → Agree src (for_up m i (λ k b. store b (n + k) (b (n + k - off))) buf) (n + (i + m))
  unfolding for_up
  Agree-rounds n off zero i buf lo hi same a j h = a j (omega arith)
  Agree-rounds n off (suc m) i buf lo hi same a j h =
      Agree-rounds n off m (i + 1) (store buf (n + i) (buf (n + i - off))) lo hi
        (λ k p. same k (omega arith))
        (λ l p.
          rw (a (n + i - off) (omega arith), sym (same i (omega arith)))
            (Agree-store buf (n + i) a l (omega arith)))
        j (omega arith)

  Agree-copy_match :
      (n off len : ℕ) (buf : Buffer)
      → 0 < off
      → off ≤ n
      → ((k : ℕ) → k < len → src (n + k) ≡ src (n + k - off))
      → Agree src buf n
      → Agree src (copy_match len off n buf) (n + len)
  unfolding copy_match
  Agree-copy_match n off len buf lo hi same a j h =
      Agree-rounds n off len 0 buf lo hi (λ k p. same k (omega arith)) (λ l p. a l (omega arith)) j
        (omega arith)

decompress-literal :
    (size b n : ℕ) (rest : List ℕ) (buf : Buffer)
    → n < size
    → b < 0x80
    → decompress_from size (b ∷ rest) n buf ≡ decompress_from size rest (n + 1) (store buf n b)
unfolding decompress_from
decompress-literal size b n [] buf fits low = ground arith
decompress-literal size b n (c ∷ rest) buf fits low = ground arith

decompress-match :
    (size b off n : ℕ) (rest : List ℕ) (buf : Buffer)
    → n < size
    → 0x80 ≤ b
    → decompress_from size (b ∷ off ∷ rest) n buf
      ≡ decompress_from size rest (n + (0x100 - b)) (copy_match (0x100 - b) off n buf)
unfolding decompress_from
decompress-match size b off n rest buf fits high = ground arith

module _ (src : Buffer) (len : ℕ) where
  pub compress-done : (fuel to : ℕ) → len ≤ to → compress_from src len fuel to ≡ []
  unfolding compress_from
  compress-done zero to h = refl
  compress-done (suc fuel) to h = ground arith

  pub compress-literal :
      (fuel to : ℕ)
      → to < len
      → find_match src to (min 127 (len - to)) ≡ none
      → compress_from src len (suc fuel) to ≡ src to ∷ compress_from src len fuel (to + 1)
  unfolding compress_from
  compress-literal fuel to h e = ground arith

  -- What follows a match.
  unfoldable pub behind : ℕ → ℕ → List ℕ
  behind fuel to = elim (to == len) [
    | true ↦ []
    | false ↦ src to ∷ compress_from src len fuel (to + 1)
  ]

  pub compress-match :
      (fuel to n from : ℕ)
      → to < len
      → find_match src to (min 127 (len - to)) ≡ some (n, from)
      → compress_from src len (suc fuel) to ≡ (0x100 - n) ∷ (to - from) ∷ behind fuel (to + n)
  unfolding compress_from behind
  compress-match fuel to n from h e = ground arith

  pub behind-literal :
      (fuel to : ℕ) → to < len → behind fuel to ≡ src to ∷ compress_from src len fuel (to + 1)
  unfolding behind
  behind-literal fuel to h = ground arith

  pub behind-end : (fuel to : ℕ) → len ≤ to → to ≤ len → behind fuel to ≡ []
  unfolding behind
  behind-end fuel to h k = ground arith

module _ (src : Buffer) (len size : ℕ) (text : is_text src len ≡ true) (fits : len < size) where
  -- Decompression from the index `to` on restores the rest of the text.
  abbrev Restores : List ℕ → ℕ → Buffer → Type 0
  Restores bytes to buf =
      let r = decompress_from size bytes to buf in (r.0 ≡ len) × Agree src r.1 len

  literal-Restores :
      (rest : List ℕ) (to : ℕ) (buf : Buffer)
      → to < len
      → Restores rest (to + 1) (store buf to (src to))
      → Restores (src to ∷ rest) to buf
  literal-Restores rest to buf h r =
      rw (decompress-literal size (src to) to rest buf (omega arith) (is_text-at src len to text h))
        r

  match-Restores :
      (rest : List ℕ) (to n from : ℕ) (buf : Buffer)
      → IsMatch src to (min 127 (len - to)) n from
      → to < len
      → Agree src buf to
      → ((t : Buffer) → Agree src t (to + n) → Restores rest (to + n) t)
      → Restores ((0x100 - n) ∷ (to - from) ∷ rest) to buf
  match-Restores rest to n from buf m h a k =
      rw
        (
          decompress-match size (0x100 - n) (to - from) to rest buf (omega arith)
              (omega (arith, m.1)),
          back,
        )
        (k (copy_match n (to - from) to buf) (
          Agree-copy_match src to (to - from) n buf (omega (arith, m.2)) (omega arith)
            (λ i p. m.4 i p ∙ ap src (omega (arith, m.2))) a))
    where
      back : 0x100 - (0x100 - n) ≡ n
      back = omega (arith, m.1)

  end-Restores : (to : ℕ) (buf : Buffer) → to ≡ len → Agree src buf to → Restores [] to buf
  unfolding decompress_from
  end-Restores to buf e a = (e, λ j h. a j (omega arith))

  behind-Restores :
      (fuel to : ℕ) (buf : Buffer)
      → to ≤ len
      → Agree src buf to
      → (to < len → Restores (compress_from src len fuel (to + 1)) (to + 1) (store buf to (src to)))
      → Restores (behind src len fuel to) to buf
  unfolding behind
  behind-Restores fuel to buf h a k = elim (Bool-cases (to == len)) [
    | inl p ↦ rw (behind, p) (end-Restores to buf (ground arith) a)
    | inr p ↦
        rw (behind, p)
          (literal-Restores (compress_from src len fuel (to + 1)) to buf (ground arith)
            (k (ground arith)))
  ]

  compress_from-Restores :
      (fuel to : ℕ) (buf : Buffer)
      → len ≤ to + fuel
      → to ≤ len
      → Agree src buf to
      → Restores (compress_from src len fuel to) to buf
  compress_from-Restores zero to buf enough h a =
      rw (compress-done src len zero to (omega arith)) (end-Restores to buf (omega arith) a)
  compress_from-Restores (suc fuel) to buf enough h a = elim (dec_lt to len) [
    | no p ↦
        rw (compress-done src len (suc fuel) to (omega arith)) (end-Restores to buf (omega arith) a)
    | yes p ↦ elim (Option-cases (find_match src to (min 127 (len - to)))) [
      | inl e ↦ rw (compress-literal src len fuel to p e) (
          literal-Restores (compress_from src len fuel (to + 1)) to buf p (
            compress_from-Restores fuel (to + 1) (store buf to (src to)) (omega arith) (omega arith)
              (Agree-store src buf to a)))
      | inr (m, e) ↦
          let found = find_match-some src to (min 127 (len - to)) m.0 m.1 e in
          rw (compress-match src len fuel to m.0 m.1 p e) (
            match-Restores (behind src len fuel (to + m.0)) to m.0 m.1 buf found p a (λ t q.
              behind-Restores fuel (to + m.0) t (omega (arith, found.1)) q (λ r.
                compress_from-Restores fuel (to + m.0 + 1) (store t (to + m.0) (src (to + m.0)))
                  (omega (arith, found.0)) (omega arith) (Agree-store src t (to + m.0) q))))
    ]
  ]

  compressed-Restores : (buf : Buffer) → Restores (compressed src len) 0 buf
  compressed-Restores buf =
      compress_from-Restores len 0 buf (omega arith) (omega arith) (λ j h. absurd (omega arith))

  -- The generator restores a text that it compressed, if the buffer has room for a byte more; the
  -- bytes of the text have their top bit clear.
  pub decompress-compressed :
      (buf : Buffer)
      → let r = decompress (compressed src len) buf size in
        (r.0 ≡ len) × ((j : ℕ) → j < len → r.1 j ≡ src j)
  unfolding decompress
  decompress-compressed buf = let r = compressed-Restores buf in (ground (arith, r.0), r.1)

-- The check that `compress` makes of its result never fails: a text of less than 4096 bytes, with
-- their top bits clear, is compressed.
pub compress_total :
    (src check_buf : Buffer) (len : ℕ)
    → is_text src len ≡ true
    → len < buf_size
    → compress src len check_buf ≡ some (compressed src len)
unfolding compress
compress_total src check_buf len text fits =
    let r = decompress-compressed src len buf_size text fits check_buf in
    let check = (decompress (compressed src len) check_buf buf_size).1 in
    let shift : (k : ℕ) → 0 + k ≡ k = λ k. omega arith in
    ground (
      arith,
      r.0,
      same_bytes-true src 0 check 0 len
          (λ k h. ap src (shift k) ∙ sym (r.1 k h) ∙ ap check (sym (shift k))),
    )

decompress_from-le :
    (size : ℕ) (bytes : List ℕ) (n : ℕ) (buf : Buffer) → n ≤ (decompress_from size bytes n buf).0
unfolding decompress_from
decompress_from-le size [] n buf = omega arith
decompress_from-le size (b ∷ []) n buf = ground arith
decompress_from-le size (b ∷ off ∷ rest) n buf = ground (
  arith,
  decompress_from-le size (off ∷ rest) (n + 1) (store buf n b),
  decompress_from-le size rest (n + (0x100 - b)) (copy_match (0x100 - b) off n buf),
)

-- The decompressor of the firmware, which checks no bounds, leaves what the generator's leaves, if
-- that ends before the end of its buffer.
pub poor_mans-decompress :
    (size : ℕ) (bytes : List ℕ) (n : ℕ) (buf : Buffer)
    → (decompress_from size bytes n buf).0 < size
    → poor_mans_text_decompress bytes n buf ≡ (decompress_from size bytes n buf).1
unfolding decompress_from poor_mans_text_decompress
poor_mans-decompress size [] n buf h = refl
poor_mans-decompress size (b ∷ []) n buf h = ground arith
poor_mans-decompress size (b ∷ off ∷ rest) n buf h = elim (Bool-cases (leb size n)) [
  | inl p ↦ absurd (ground (arith, p, h))
  | inr p ↦ elim (Bool-cases (ltb b 0x80)) [
    | inl q ↦
        rw (decompress_from, poor_mans_text_decompress, p, q)
          (poor_mans-decompress size (off ∷ rest) (n + 1) (store buf n b) (ground (arith, h, p, q)))
    | inr q ↦
        rw (decompress_from, poor_mans_text_decompress, p, q)
          (poor_mans-decompress size rest (n + (0x100 - b)) (copy_match (0x100 - b) off n buf)
            (ground (arith, h, p, q)))
  ]
]

-- A text that the generator compresses is restored by the firmware, in any buffer.
pub poor_mans-compress :
    (src check_buf buf : Buffer) (len : ℕ) (bytes : List ℕ)
    → len < buf_size
    → compress src len check_buf ≡ some bytes
    → (j : ℕ) → j < len
    → poor_mans_text_decompress bytes 0 buf j ≡ src j
unfolding compress decompress
poor_mans-compress src check_buf buf len bytes fits h j small =
    let text : is_text src len ≡ true = ground arith in
    let bytes_eq : compressed src len ≡ bytes = ground arith in
    let r = compressed-Restores src len buf_size text fits buf in
    rw (sym bytes_eq) (
      ap (λ (b : Buffer). b j)
        (poor_mans-decompress buf_size (compressed src len) 0 buf (omega (arith, r.0)))
      ∙ r.1 j small)
