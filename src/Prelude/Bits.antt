-- ===== src/Prelude/Bits.antt =====
-- Single bits of a machine word, by recursion on the bit's number: `w & (1u << k)`, `w | (1u << k)`.
use Prim.Native.Nat.{
  ℕ, zero, suc, ◌+◌, ◌-◌, ◌*◌, ◌/◌, ◌%◌, ◌^◌, ◌≤◌, ◌<◌, min, max, compare, Ordering,
}
use mathlib.Core.Path.{◌≡◌, refl, sym, ap, ◌∙◌}
use mathlib.Core.Logic.{◌≢◌}
use mathlib.Core.Bool.{Bool, true, false}
use native.Mathlib.Nat.{pow-suc, mul-dvd-mul_left, dvd_of_mod-eq-zero, mod-eq-zero_of_dvd}
use native.Mathlib.Omega.{arith}

-- `(w & (1u << k)) != 0`
unfoldable pub test_bit : ℕ → ℕ → Bool
test_bit w zero = elim (compare (w % 2) 1) [ Ordering.eq ↦ true | _ ↦ false ]
test_bit w (suc k) = test_bit (w / 2) k

-- `w | (1u << k)`
unfoldable pub set_bit : ℕ → ℕ → ℕ
set_bit w zero = w / 2 * 2 + 1
set_bit w (suc k) = set_bit (w / 2) k * 2 + w % 2

pub test_bit-set_bit_self : (w k : ℕ) → test_bit (set_bit w k) k ≡ true
unfolding test_bit set_bit
test_bit-set_bit_self w zero = ground arith
test_bit-set_bit_self w (suc k) =
    let e : (set_bit (w / 2) k * 2 + w % 2) / 2 ≡ set_bit (w / 2) k = omega arith in
    ground (arith, test_bit-set_bit_self (w / 2) k, e)

pub test_bit-set_bit_ne : (w k j : ℕ) → k ≢ j → test_bit (set_bit w k) j ≡ test_bit w j
unfolding test_bit set_bit
test_bit-set_bit_ne w zero zero h = absurd (h refl)
test_bit-set_bit_ne w zero (suc j) h =
    let e : (w / 2 * 2 + 1) / 2 ≡ w / 2 = omega arith in ground (arith, e)
test_bit-set_bit_ne w (suc k) zero h = ground arith
test_bit-set_bit_ne w (suc k) (suc j) h =
    let e : (set_bit (w / 2) k * 2 + w % 2) / 2 ≡ set_bit (w / 2) k = omega arith in
    ground (arith, test_bit-set_bit_ne (w / 2) k j (λ p. h (omega arith)), e)

pub test_bit-zero : (k : ℕ) → test_bit 0 k ≡ false
unfolding test_bit
test_bit-zero zero = refl
test_bit-zero (suc k) = test_bit-zero k

pub set_bit-lt : (w k n : ℕ) → k < n → w < 2 ^ n → set_bit w k < 2 ^ n
unfolding set_bit
set_bit-lt w k zero h b = elim h [ ]
set_bit-lt w zero (suc n) h b = omega (arith, pow-suc 2 n)
set_bit-lt w (suc k) (suc n) h b =
    omega (arith, pow-suc 2 n, set_bit-lt (w / 2) k n (omega arith) (omega (arith, pow-suc 2 n)))

-- `w & ~(1u << k)`
unfoldable pub clear_bit : ℕ → ℕ → ℕ
clear_bit w zero = w / 2 * 2
clear_bit w (suc k) = clear_bit (w / 2) k * 2 + w % 2

pub test_bit-clear_bit_self : (w k : ℕ) → test_bit (clear_bit w k) k ≡ false
unfolding test_bit clear_bit
test_bit-clear_bit_self w zero = ground arith
test_bit-clear_bit_self w (suc k) =
    let e : (clear_bit (w / 2) k * 2 + w % 2) / 2 ≡ clear_bit (w / 2) k = omega arith in
    ground (arith, test_bit-clear_bit_self (w / 2) k, e)

pub test_bit-clear_bit_ne : (w k j : ℕ) → k ≢ j → test_bit (clear_bit w k) j ≡ test_bit w j
unfolding test_bit clear_bit
test_bit-clear_bit_ne w zero zero h = absurd (h refl)
test_bit-clear_bit_ne w zero (suc j) h =
    let e : w / 2 * 2 / 2 ≡ w / 2 = omega arith in ground (arith, e)
test_bit-clear_bit_ne w (suc k) zero h = ground arith
test_bit-clear_bit_ne w (suc k) (suc j) h =
    let e : (clear_bit (w / 2) k * 2 + w % 2) / 2 ≡ clear_bit (w / 2) k = omega arith in
    ground (arith, test_bit-clear_bit_ne (w / 2) k j (λ p. h (omega arith)), e)

-- `a ^ b` of words of as many bits
unfoldable pub xor : ℕ → ℕ → ℕ → ℕ
xor zero a b = 0
xor (suc n) a b = xor n (a / 2) (b / 2) * 2 + (a + b) % 2

pub xor-xor : (n a b : ℕ) → b < 2 ^ n → xor n (xor n a b) a ≡ b
unfolding xor
xor-xor zero a b h = omega arith
xor-xor (suc n) a b h =
    let l : b / 2 < 2 ^ n = omega (arith, pow-suc 2 n) in
    let e : (xor n (a / 2) (b / 2) * 2 + (a + b) % 2) / 2 ≡ xor n (a / 2) (b / 2) = omega arith in
    let rest = ap (λ (k : ℕ). xor n k (a / 2)) e ∙ xor-xor n (a / 2) (b / 2) l in
    omega (arith, rest)

-- `a | b` and `a & b` of words of as many bits
unfoldable pub or_bits : ℕ → ℕ → ℕ → ℕ
or_bits zero a b = 0
or_bits (suc n) a b = or_bits n (a / 2) (b / 2) * 2 + max (a % 2) (b % 2)

unfoldable pub and_bits : ℕ → ℕ → ℕ → ℕ
and_bits zero a b = 0
and_bits (suc n) a b = and_bits n (a / 2) (b / 2) * 2 + min (a % 2) (b % 2)

pub or_bits-zero : (n a : ℕ) → a < 2 ^ n → or_bits n a 0 ≡ a
unfolding or_bits
or_bits-zero zero a h = omega arith
or_bits-zero (suc n) a h =
    omega (arith, pow-suc 2 n, or_bits-zero n (a / 2) (omega (arith, pow-suc 2 n)))

pow_pos : (k : ℕ) → 0 < 2 ^ k
pow_pos zero = omega arith
pow_pos (suc k) = omega (arith, pow-suc 2 k, pow_pos k)

-- A word that shares no bit with the mask of a power of two is a multiple of it.
pub and_bits-mask : (n k a : ℕ) → k ≤ n → a < 2 ^ n → and_bits n a (2 ^ k - 1) ≡ 0 → a % 2 ^ k ≡ 0
unfolding and_bits
and_bits-mask n zero a l h e = omega arith
and_bits-mask zero (suc k) a l h e = absurd (omega arith)
and_bits-mask (suc n) (suc k) a l h e =
    let p = pow_pos k in
    let half : (2 ^ suc k - 1) / 2 ≡ 2 ^ k - 1 = omega (arith, pow-suc 2 k) in
    let odd : (2 ^ suc k - 1) % 2 ≡ 1 = omega (arith, pow-suc 2 k) in
    let shifted : and_bits n (a / 2) (2 ^ k - 1) ≡ 0 =
      ap (and_bits n (a / 2)) (sym half) ∙ omega (arith, e) in
    let even : a % 2 ≡ 0 = omega (arith, e, odd) in
    let rest = and_bits-mask n k (a / 2) (omega arith) (omega (arith, pow-suc 2 n)) shifted in
    let double : 2 * (a / 2) ≡ a = omega arith in
    let power : 2 * 2 ^ k ≡ 2 ^ suc k = omega (arith, pow-suc 2 k) in
    rw (← power, ← double)
      (mod-eq-zero_of_dvd (2 * 2 ^ k)
        (mul-dvd-mul_left (2 ^ k) 2 (dvd_of_mod-eq-zero (2 ^ k) rest)))
