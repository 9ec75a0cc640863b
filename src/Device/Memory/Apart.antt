-- ===== src/Device/Memory/Apart.antt =====
-- The packets of the endpoints of usb_device_tiny/usb_device.c have memory of their own.
use pico_bootrom_crashdump.Prelude.{
  ℕ, ◌+◌, ◌*◌, ◌%◌, ◌^◌, ◌≤◌, ◌<◌, ◌≡◌, ◌⊎◌, true, List, [], ◌∷◌, arith, length, if◌then◌else◌,
  false,
}
use pico_bootrom_crashdump.Device.{Endpoint}
use pico_bootrom_crashdump.Device.Memory.{
  Flags, Placed, Layout, endpoint_hw_init, place_endpoints, device_hw_init, packet_data,
}

-- An endpoint with a number from 1 to 15, whose second buffer is in use only with double buffering.
abbrev pub IsSetUp : Endpoint → Type 0
IsSetUp ep =
    (0 < ep.address % 16)
    × (((ep.current_give_buffer ≡ 0) × (ep.current_take_buffer ≡ 0)) ⊎ (ep.double_buffered ≡ true))

abbrev pub AreSetUp : List Endpoint → Type 0
AreSetUp [] = Unit {0}
AreSetUp (ep ∷ eps) = IsSetUp ep × AreSetUp eps

-- The control register of the endpoint's direction holds the offset of its buffers, the other is 0.
pub HoldsOffset : Placed → Type 0
HoldsOffset p =
    ((if p.endpoint.is_in then p.ep_ctrl_in else p.ep_ctrl_out) % 2 ^ 25 ≡ p.dpram_buffer_offset)
    × ((if p.endpoint.is_in then p.ep_ctrl_out else p.ep_ctrl_in) ≡ 0)

-- The packets lie one behind the other between two addresses, each in 64 bytes of its own, and the
-- control registers hold their offsets.
pub ArePlaced : ℕ → ℕ → List Placed → Type 0
ArePlaced from end [] = from ≤ end
ArePlaced from end (p ∷ ps) =
    (from ≤ packet_data p) × HoldsOffset p × ArePlaced (packet_data p + 64) end ps

weaken-ArePlaced :
    (from from' end : ℕ) (ps : List Placed)
    → from ≤ from'
    → ArePlaced from' end ps
    → ArePlaced from end ps
unfolding ArePlaced
weaken-ArePlaced from from' end [] l h = omega arith
weaken-ArePlaced from from' end (p ∷ ps) l (h, holds, rest) = (omega arith, holds, rest)

-- The packets of the control pipe lie at 0x100, those of other endpoints from 0x180 up to 0x900.
pub IsLaidOut : Layout → Type 0
IsLaidOut layout =
    (packet_data layout.control_in ≡ 0x100)
    × (packet_data layout.control_out ≡ 0x100)
    × ArePlaced 0x180 layout.next_buffer_offset layout.endpoints
    × (layout.next_buffer_offset ≤ 0x900)

module _ (flags : Flags) where
  hw_init-HoldsOffset :
      (ep : Endpoint) (next : ℕ)
      → next < 2 ^ 16
      → IsSetUp ep
      → HoldsOffset (endpoint_hw_init flags ep next).0
  unfolding endpoint_hw_init HoldsOffset
  hw_init-HoldsOffset ep next l s = ground arith

  hw_init-bounds :
      (ep : Endpoint) (next : ℕ)
      → next + 128 < 2 ^ 16
      → IsSetUp ep
      → (next ≤ packet_data (endpoint_hw_init flags ep next).0)
        × (packet_data (endpoint_hw_init flags ep next).0 + 64 ≤ (endpoint_hw_init flags ep next).1)
        × ((endpoint_hw_init flags ep next).1 ≤ next + 128)
  unfolding endpoint_hw_init packet_data
  hw_init-bounds ep next l s = ground arith

  place-ArePlaced :
      (eps : List Endpoint) (next : ℕ)
      → next + 128 * length eps < 2 ^ 16
      → AreSetUp eps
      → ArePlaced next (place_endpoints flags eps next).1 (place_endpoints flags eps next).0
        × ((place_endpoints flags eps next).1 ≤ next + 128 * length eps)
  unfolding place_endpoints ArePlaced
  place-ArePlaced [] next l s = (omega arith, omega arith)
  place-ArePlaced (ep ∷ eps) next l (s, ss) =
      let placed = (endpoint_hw_init flags ep next).0 in
      let next' = (endpoint_hw_init flags ep next).1 in
      let bounds = hw_init-bounds ep next (omega arith) s in
      let rest = place-ArePlaced eps next' (omega (arith, bounds)) ss in
      (
        (
          bounds.0,
          hw_init-HoldsOffset ep next (omega arith) s,
          weaken-ArePlaced (packet_data placed + 64) next' (place_endpoints flags eps next').1
              (place_endpoints flags eps next').0 (bounds.1) rest.0,
        ),
        omega (arith, bounds, rest.1),
      )

  -- Once the device is set up with at most fifteen endpoints beside those of the control pipe, each of
  -- them with a number from 1 to 15 and its second buffer in use only with double buffering, their
  -- packets lie one behind the other from 0x180 up to 0x900 at most, in 64 bytes each, and the control
  -- register of each endpoint's direction holds the offset of its buffers, the other one 0. The packets
  -- of the control pipe, which uses first buffers, lie before them at 0x100.
  pub device-ArePlaced :
      (control_in control_out : Endpoint) (eps : List Endpoint)
      → length eps ≤ 15
      → AreSetUp eps
      → (control_in.current_give_buffer ≡ 0)
      → (control_out.current_take_buffer ≡ 0)
      → control_in.is_in ≡ true
      → control_out.is_in ≡ false
      → IsLaidOut (device_hw_init flags control_in control_out eps)
  unfolding IsLaidOut device_hw_init endpoint_hw_init packet_data
  device-ArePlaced control_in control_out eps l s g t i o =
      let placed = place-ArePlaced eps 0x180 (omega arith) s in
      (ground (arith, g, i), ground (arith, t, o), placed.0, omega (arith, placed.1))
