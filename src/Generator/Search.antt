-- ===== src/Generator/Search.antt =====
-- The search for an earlier copy of the text.
use pico_bootrom_crashdump.Prelude.{
  ℕ, zero, suc, ◌+◌, ◌-◌, ◌≤◌, ◌<◌, ◌≡◌, inl, inr, refl, sym, ap, ◌∙◌, true, some, arith, ltb,
  ℕ_discrete, Bool-cases, Option-cases,
}
use pico_bootrom_crashdump.Buffer.{Buffer}
use pico_bootrom_crashdump.Generator.{same_bytes, is_text, find_from, find_match}

pub same_bytes-at :
    (a : Buffer) (i : ℕ) (b : Buffer) (j n k : ℕ)
    → same_bytes a i b j n ≡ true
    → k < n
    → a (i + k) ≡ b (j + k)
unfolding same_bytes
same_bytes-at a i b j zero k h p = absurd (omega arith)
same_bytes-at a i b j (suc n) zero h p = ground arith
same_bytes-at a i b j (suc n) (suc k) h p =
    ap a shift_i ∙ same_bytes-at a (i + 1) b (j + 1) n k (ground arith) (omega arith) ∙ ap b shift_j
  where
    shift_i : i + suc k ≡ i + 1 + k
    shift_i = omega arith

    shift_j : j + 1 + k ≡ j + suc k
    shift_j = omega arith

pub same_bytes-true :
    (a : Buffer) (i : ℕ) (b : Buffer) (j n : ℕ)
    → ((k : ℕ) → k < n → a (i + k) ≡ b (j + k))
    → same_bytes a i b j n ≡ true
unfolding same_bytes
same_bytes-true a i b j zero h = refl
same_bytes-true a i b j (suc n) h =
    ground (arith, first, same_bytes-true a (i + 1) b (j + 1) n later)
  where
    first : a i ≡ b j
    first = ap a (omega arith) ∙ h 0 (omega arith) ∙ ap b (omega arith)

    later : (k : ℕ) → k < n → a (i + 1 + k) ≡ b (j + 1 + k)
    later k p = ap a (omega arith) ∙ h (suc k) (omega arith) ∙ ap b (omega arith)

pub is_text-at : (src : Buffer) (n k : ℕ) → is_text src n ≡ true → k < n → src k < 0x80
unfolding is_text
is_text-at src zero k h p = absurd (omega arith)
is_text-at src (suc n) k h p = elim (ℕ_discrete k n) [
  | yes e ↦ rw e (ground arith)
  | no ne ↦ is_text-at src n k (ground arith) (omega arith)
]

-- What is found is a copy from before.
find_from-some :
    (src : Buffer) (to n fuel from r : ℕ)
    → find_from src to n fuel from ≡ some r
    → (from ≤ r) × (r < from + fuel) × (same_bytes src to src r n ≡ true)
unfolding find_from
find_from-some src to n zero from r h = absurd (ground arith)
find_from-some src to n (suc fuel) from r h =
    ground (arith, find_from-some src to n fuel (from + 1) r)

abbrev pub IsMatch : Buffer → ℕ → ℕ → ℕ → ℕ → Type 0
IsMatch src to limit n from =
    (3 ≤ n)
    × (n ≤ limit)
    × (from < to)
    × (to ≤ from + 255)
    × ((k : ℕ) → k < n → src (to + k) ≡ src (from + k))

pub find_match-some :
    (src : Buffer) (to limit n from : ℕ)
    → find_match src to limit ≡ some (n, from)
    → IsMatch src to limit n from
unfolding find_match
find_match-some src to zero n from h = absurd (ground arith)
find_match-some src to (suc m) n from h = elim (Bool-cases (ltb (suc m) 3)) [
  | inl short ↦ absurd (ground (arith, h, short))
  | inr long ↦ elim (Option-cases (find_from src to (suc m) (to - (to - 255)) (to - 255))) [
    | inl e ↦
        let r = find_match-some src to m n from (ground (arith, h, long, e)) in
        (r.0, omega (arith, r.1), r.2, r.3, r.4)
    | inr (c, e) ↦
        let f = find_from-some src to (suc m) (to - (to - 255)) (to - 255) c e in
        let eq : (suc m ≡ n) × (c ≡ from) = ground (arith, h, long, e) in
        rw (sym eq.0, sym eq.1)
          (
            ground arith,
            omega arith,
            omega (arith, f),
            omega (arith, f),
            λ k p. same_bytes-at src to src c (suc m) k f.2 p,
          )
  ]
]
