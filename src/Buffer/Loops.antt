-- ===== src/Buffer/Loops.antt =====
-- `for (k = i; k < i + n; ++k) body(k)` over a state, and what such a loop leaves in a buffer.
use pico_bootrom_crashdump.Prelude.{
  ℕ, zero, suc, ◌+◌, ◌≤◌, ◌<◌, ◌≡◌, ◌≢◌, refl, ◌∙◌, arith, ℕ_discrete,
}

unfoldable pub for_up {ℓ} : {S : Type ℓ} → ℕ → ℕ → (ℕ → S → S) → S → S
for_up zero i body s = s
for_up (suc n) i body s = for_up n (i + 1) body (body i s)

module _ (body : ℕ → (ℕ → ℕ) → ℕ → ℕ) (j : ℕ) where
  -- An index that no round writes keeps its byte.
  pub for_up_outside :
      (n i : ℕ) (s : ℕ → ℕ)
      → ((k : ℕ) (t : ℕ → ℕ) → i ≤ k → k < i + n → body k t j ≡ t j)
      → for_up n i body s j ≡ s j
  unfolding for_up
  for_up_outside zero i s h = refl
  for_up_outside (suc n) i s h =
      for_up_outside n (i + 1) (body i s) (λ k t p q. h k t (omega arith) (omega arith))
      ∙ h i s (omega arith) (omega arith)

  -- An index that the round `k` alone writes holds what that round writes.
  pub for_up_at :
      (n i k v : ℕ) (s : ℕ → ℕ)
      → i ≤ k
      → k < i + n
      → ((t : ℕ → ℕ) → body k t j ≡ v)
      → ((l : ℕ) (t : ℕ → ℕ) → i ≤ l → l < i + n → l ≢ k → body l t j ≡ t j)
      → for_up n i body s j ≡ v
  unfolding for_up
  for_up_at zero i k v s lo hi own other = absurd (omega arith)
  for_up_at (suc n) i k v s lo hi own other = elim (ℕ_discrete i k) [
    | yes e ↦
        for_up_outside n (i + 1) (body i s)
          (λ l t p q. other l t (omega arith) (omega arith) (omega arith))
        ∙ rw e (own s)
    | no ne ↦
        for_up_at n (i + 1) k v (body i s) (omega arith) (omega arith) own
          (λ l t p q. other l t (omega arith) (omega arith))
  ]
