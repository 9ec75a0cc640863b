-- ===== src/Generator/Size.antt =====
-- The size of what is compressed.
use pico_bootrom_crashdump.Prelude.{
  ℕ, zero, suc, ◌+◌, ◌-◌, ◌≤◌, ◌<◌, ◌≡◌, inl, inr, min, true, List, [], ◌∷◌, arith, Option-cases,
  dec_lt,
}
use pico_bootrom_crashdump.Buffer.{Buffer}
use pico_bootrom_crashdump.Generator.{is_text, find_match, compressed, compress_from}
use pico_bootrom_crashdump.Generator.Search.{is_text-at, find_match-some}
use pico_bootrom_crashdump.Generator.Roundtrip.{
  behind, compress-done, compress-literal, compress-match, behind-literal, behind-end,
}

-- At most `n` bytes, each of eight bits.
abbrev pub Fits : ℕ → List ℕ → Type 0
Fits n [] = Unit {0}
Fits n (b ∷ rest) = (0 < n) × (b < 256) × Fits (n - 1) rest

Fits-mono : (n m : ℕ) (bytes : List ℕ) → n ≤ m → Fits n bytes → Fits m bytes
Fits-mono n m [] h f = tt
Fits-mono n m (b ∷ rest) h f =
    (omega (arith, f.0), f.1, Fits-mono (n - 1) (m - 1) rest (omega arith) f.2)

module _ (src : Buffer) (len : ℕ) (text : is_text src len ≡ true) where
  behind-Fits :
      (fuel to : ℕ)
      → to ≤ len
      → (to < len → Fits (len - (to + 1)) (compress_from src len fuel (to + 1)))
      → Fits (len - to) (behind src len fuel to)
  behind-Fits fuel to h k = elim (dec_lt to len) [
    | yes p ↦ rw (behind-literal src len fuel to p) (
      omega arith,
      omega (arith, is_text-at src len to text p),
      Fits-mono (len - (to + 1)) (len - to - 1) (compress_from src len fuel (to + 1)) (omega arith)
          (k p),
    )
    | no p ↦ rw (behind-end src len fuel to (omega arith) h) tt
  ]

  compress_from-Fits : (fuel to : ℕ) → Fits (len - to) (compress_from src len fuel to)
  unfolding compress_from
  compress_from-Fits zero to = tt
  compress_from-Fits (suc fuel) to = elim (dec_lt to len) [
    | no p ↦ rw (compress-done src len (suc fuel) to (omega arith)) tt
    | yes p ↦ elim (Option-cases (find_match src to (min 127 (len - to)))) [
      | inl e ↦ rw (compress-literal src len fuel to p e) (
        omega arith,
        omega (arith, is_text-at src len to text p),
        Fits-mono (len - (to + 1)) (len - to - 1) (compress_from src len fuel (to + 1))
            (omega arith) (compress_from-Fits fuel (to + 1)),
      )
      | inr (m, e) ↦
          let found = find_match-some src to (min 127 (len - to)) m.0 m.1 e in
          rw (compress-match src len fuel to m.0 m.1 p e) (
            omega arith,
            omega (arith, found.0),
            (
              omega (arith, found.1),
              omega (arith, found.3),
              Fits-mono (len - (to + m.0)) (len - to - 1 - 1) (behind src len fuel (to + m.0))
                  (omega (arith, found.0))
                  (behind-Fits fuel (to + m.0) (omega (arith, found.1))
                    (λ q. compress_from-Fits fuel (to + m.0 + 1))),
            ),
          )
    ]
  ]

-- The compressed text is not longer than the text, so that it fits the same buffer, and is a list
-- of bytes.
pub compressed-Fits :
    (src : Buffer) (len : ℕ) → is_text src len ≡ true → Fits len (compressed src len)
compressed-Fits src len text =
    Fits-mono (len - 0) len (compressed src len) (omega arith)
      (compress_from-Fits src len text len 0)
