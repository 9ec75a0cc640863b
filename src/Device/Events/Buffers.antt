-- ===== src/Device/Events/Buffers.antt =====
-- What `_usb_handle_buffer` of usb_device_tiny/usb_device.c handles.
use pico_bootrom_crashdump.Prelude.{
  ℕ, zero, suc, ◌+◌, ◌*◌, ◌/◌, ◌%◌, ◌≡◌, inl, inr, refl, Bool, true, false, List, [], ◌∷◌, ◌==◌,
  arith, if◌then◌else◌, take, Bool-cases,
}
use pico_bootrom_crashdump.Device.Events.{usb_max_endpoints, any, handle_buffer}

-- The bits that are set, by their numbers.
abbrev pub set_bits : ℕ → List Bool → List ℕ
set_bits i [] = []
set_bits i (b ∷ bits) = if b then i ∷ set_bits (suc i) bits else set_bits (suc i) bits

set_bits-none : (n i : ℕ) (bits : List Bool) → any bits ≡ false → set_bits i (take n bits) ≡ []
set_bits-none zero i bits h = refl
set_bits-none (suc n) i [] h = refl
set_bits-none (suc n) i (true ∷ bits) h = ground (arith, h)
set_bits-none (suc n) i (false ∷ bits) h = set_bits-none n (suc i) bits h

module _ (should_handle : ℕ → Bool) {S : Type 0} (handle : ℕ → Bool → ℕ → S → S) where
  abbrev pub handle_bits : List ℕ → S → S
  handle_bits [] s = s
  handle_bits (i ∷ is) s =
      handle_bits is (handle (i / 2) (i % 2 == 0) (if should_handle i then 1 else 0) s)

  handle_buffer-from :
      (n i : ℕ) (bits : List Bool) (s : S)
      → i + n ≡ usb_max_endpoints * 2
      → handle_buffer should_handle handle i bits s ≡ handle_bits (set_bits i (take n bits)) s
  unfolding handle_buffer
  handle_buffer-from zero i [] s e = refl
  handle_buffer-from (suc n) i [] s e = refl
  handle_buffer-from zero i (b ∷ bits) s e = ground (arith, e)
  handle_buffer-from (suc n) i (b ∷ bits) s e = elim (Bool-cases (any (b ∷ bits))) [
    | inl left ↦
        let rest =
          handle_buffer-from n (suc i) bits
            (if b then handle (i / 2) (i % 2 == 0) (if should_handle i then 1 else 0) s else s)
            (omega (arith, e)) in
        ground (arith, e, left, rest)
    | inr over ↦ rw (set_bits-none (suc n) i (b ∷ bits) over) (ground (arith, over))
  ]

  -- The buffers whose bits are set are handled once each, in the order of their bits, however early
  -- the loop ends. The bits beyond those of endpoints are passed over.
  pub handle_buffer-bits :
      (bits : List Bool) (s : S)
      → handle_buffer should_handle handle 0 bits s
        ≡ handle_bits (set_bits 0 (take (usb_max_endpoints * 2) bits)) s
  handle_buffer-bits bits s = handle_buffer-from (usb_max_endpoints * 2) 0 bits s refl
