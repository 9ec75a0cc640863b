-- ===== src/Uf2/Bitset.antt =====
-- Bit sets in arrays of 32-bit words.
use pico_bootrom_crashdump.Prelude.{
  ℕ, zero, suc, ◌+◌, ◌-◌, ◌*◌, ◌/◌, ◌%◌, ◌^◌, ◌≤◌, ◌<◌, ◌≡◌, ◌≢◌, Bool, true, false, arith, leb,
  ◌==◌, if◌then◌else◌, ℕ_discrete,
}
use pico_bootrom_crashdump.Prelude.Bits.{
  test_bit, set_bit, test_bit-set_bit_self, test_bit-set_bit_ne, test_bit-zero,
}

-- `words[i / 32] & (1u << (i & 31u))`
unfoldable pub has : (ℕ → ℕ) → ℕ → Bool
has words i = test_bit (words (i / 32)) (i % 32)

-- `words[i / 32] |= 1u << (i & 31u)`
unfoldable pub add : (ℕ → ℕ) → ℕ → ℕ → ℕ
add words i k = if i / 32 == k then set_bit (words k) (i % 32) else words k

-- `_clear_bitset`: `memset0(mask, count / 8)`, which may end within a word.
unfoldable pub clear_bitset : (ℕ → ℕ) → ℕ → ℕ → ℕ
clear_bitset words count k =
    let n = count / 8 in
    if leb (4 * k + 4) n
    then 0
    else if leb n (4 * k)
    then words k
    else words k / 2 ^ (8 * (n - 4 * k)) * 2 ^ (8 * (n - 4 * k))

pub has-add_self : (words : ℕ → ℕ) (i : ℕ) → has (add words i) i ≡ true
unfolding has add
has-add_self words i = ground (arith, test_bit-set_bit_self (words (i / 32)) (i % 32))

pub has-add_ne : (words : ℕ → ℕ) (i j : ℕ) → i ≢ j → has (add words i) j ≡ has words j
unfolding has add
has-add_ne words i j ne = elim (ℕ_discrete (i / 32) (j / 32)) [
  | yes e ↦ ground (arith, test_bit-set_bit_ne (words (j / 32)) (i % 32) (j % 32))
  | no e ↦ ground arith
]

pub has-clear_bitset :
    (words : ℕ → ℕ) (count i : ℕ)
    → count % 32 ≡ 0
    → i < count
    → has (clear_bitset words count) i ≡ false
unfolding has clear_bitset
has-clear_bitset words count i whole h = ground (arith, test_bit-zero (i % 32))

-- How many of the numbers below `n` are in the set.
unfoldable pub cardinal : (ℕ → ℕ) → ℕ → ℕ
cardinal words zero = 0
cardinal words (suc n) = cardinal words n + (if has words n then 1 else 0)

pub cardinal-le : (words : ℕ → ℕ) (n : ℕ) → cardinal words n ≤ n
unfolding cardinal
cardinal-le words zero = omega arith
cardinal-le words (suc n) = ground (arith, cardinal-le words n)

-- A set with as many members below `n` as there are numbers has them all.
pub cardinal_full : (words : ℕ → ℕ) (n i : ℕ) → cardinal words n ≡ n → i < n → has words i ≡ true
unfolding cardinal
cardinal_full words zero i e h = absurd (omega arith)
cardinal_full words (suc n) i e h = elim (ℕ_discrete i n) [
  | yes p ↦ ground (arith, cardinal-le words n)
  | no p ↦ cardinal_full words n i (ground (arith, cardinal-le words n)) (omega arith)
]

pub cardinal-empty :
    (words : ℕ → ℕ) (n : ℕ) → ((i : ℕ) → i < n → has words i ≡ false) → cardinal words n ≡ 0
unfolding cardinal
cardinal-empty words zero h = omega arith
cardinal-empty words (suc n) h =
    ground (arith, h n (omega arith), cardinal-empty words n (λ i p. h i (omega arith)))

cardinal-add_above : (words : ℕ → ℕ) (n i : ℕ) → n ≤ i → cardinal (add words i) n ≡ cardinal words n
unfolding cardinal
cardinal-add_above words zero i h = omega arith
cardinal-add_above words (suc n) i h =
    ground (arith, has-add_ne words i n (omega arith), cardinal-add_above words n i)

-- A new member below `n` counts once.
pub cardinal-add :
    (words : ℕ → ℕ) (n i : ℕ)
    → i < n
    → has words i ≡ false
    → cardinal (add words i) n ≡ cardinal words n + 1
unfolding cardinal
cardinal-add words zero i h new = absurd (omega arith)
cardinal-add words (suc n) i h new = elim (ℕ_discrete i n) [
  | yes p ↦ ground (arith, cardinal-add_above words n i, has-add_self words i)
  | no p ↦ ground (arith, has-add_ne words i n p, cardinal-add words n i)
]
