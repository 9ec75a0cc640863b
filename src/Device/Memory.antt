-- ===== src/Device/Memory.antt =====
-- Where usb_device_tiny/usb_device.c puts the packet buffers of endpoints in the memory of the USB
-- controller. Addresses are offsets in that memory.
pub mod Apart
use pico_bootrom_crashdump.Prelude.{
  ℕ, ◌+◌, ◌*◌, ◌%◌, ◌^◌, ◌≤◌, ◌≡◌, ◌⊎◌, true, List, [], ◌∷◌, arith, length, ◌==◌, if◌then◌else◌,
}
use pico_bootrom_crashdump.Device.{Endpoint, no_ctrl}

-- Bits of an endpoint control register, shifted to the right by 25: those that are always set, from
-- EP_CTRL_ENABLE_BITS, EP_CTRL_INTERRUPT_PER_BUFFER and the type of bulk endpoints, and
-- EP_CTRL_DOUBLE_BUFFERED_BITS.
pub record Flags : Type 0 where
  pub bulk : ℕ
  pub double_buffered : ℕ

-- An endpoint with its `dpram_buffer_offset` and its control registers.
pub record Placed : Type 0 where
  pub endpoint : Endpoint
  pub dpram_buffer_offset : ℕ
  pub ep_ctrl_in : ℕ
  pub ep_ctrl_out : ℕ

-- `_usb_endpoint_stride`
abbrev pub endpoint_stride : ℕ
endpoint_stride = 64

-- What `usb_device_init` leaves of `next_buffer_offset` and of the buffers and registers of endpoints.
pub record Layout : Type 0 where
  pub control_in : Placed
  pub control_out : Placed
  pub endpoints : List Placed
  pub next_buffer_offset : ℕ

module _ (flags : Flags) where
  abbrev pub ep_ctrl : Endpoint → ℕ → ℕ
  ep_ctrl ep offset =
      let high = if ep.double_buffered then flags.bulk + flags.double_buffered else flags.bulk in
      (high * 2 ^ 25 + offset) % 2 ^ 32

  -- `_usb_endpoint_hw_init`, with `next_buffer_offset`. The endpoints 0 have no control register.
  unfoldable pub endpoint_hw_init : Endpoint → ℕ → Placed × ℕ
  endpoint_hw_init ep next =
      let reg = if ep.address % 16 == 0 then 0 else ep_ctrl ep next in
      (
        record {
          endpoint = record ep { ctrl0 = no_ctrl; ctrl1 = no_ctrl };
          dpram_buffer_offset = next;
          ep_ctrl_in = if ep.is_in then reg else 0;
          ep_ctrl_out = if ep.is_in then 0 else reg;
        },
        (next + (if ep.double_buffered then 2 * endpoint_stride else endpoint_stride)) % 2 ^ 16,
      )

  -- `_usb_for_each_endpoint` with `_usb_endpoint_hw_init`
  unfoldable pub place_endpoints : List Endpoint → ℕ → List Placed × ℕ
  place_endpoints [] next = ([], next)
  place_endpoints (ep ∷ eps) next =
      let (placed, next') = endpoint_hw_init ep next in
      let (rest, end) = place_endpoints eps next' in (placed ∷ rest, end)

  -- The end of `usb_device_init`, from its first write of `next_buffer_offset` on
  unfoldable pub device_hw_init : Endpoint → Endpoint → List Endpoint → Layout
  device_hw_init control_in control_out eps =
      let (placed, end) = place_endpoints eps 0x180 in
      record {
        control_in = (endpoint_hw_init control_in 0x100).0;
        control_out = (endpoint_hw_init control_out 0x100).0;
        endpoints = placed;
        next_buffer_offset = end;
      }

-- The address that `usb_current_packet_buffer` gives to a packet.
unfoldable pub packet_data : Placed → ℕ
packet_data p =
    let ep = p.endpoint in
    let which = if ep.is_in then ep.current_give_buffer else ep.current_take_buffer in
    p.dpram_buffer_offset + (if which == 0 then 0 else endpoint_stride)
