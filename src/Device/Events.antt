-- ===== src/Device/Events.antt =====
-- The interrupt handler of usb_device_tiny/usb_device.c. A register with a bit for each buffer is the
-- list of its bits, the lowest first.
pub mod Buffers
pub mod Stale
use pico_bootrom_crashdump.Prelude.{
  ℕ, zero, suc, ◌*◌, ◌/◌, ◌%◌, Bool, true, false, not, ◌&&◌, ◌||◌, List, [], ◌∷◌, ltb, ◌==◌,
  if◌then◌else◌,
}
use pico_bootrom_crashdump.Device.Control.{
  Device, handle_control_in, handle_control_out, handle_bus_reset,
}
use pico_bootrom_crashdump.Device.Requests.{Setup, Descriptors, Handler, handle_setup_packet}

abbrev pub usb_max_endpoints : ℕ
usb_max_endpoints = 5

abbrev pub any : List Bool → Bool
any [] = false
any (b ∷ bits) = b || any bits

-- The loop of `_usb_handle_buffer` from the bit `i` on, with the bits that remain from there.
-- `should_handle` has the bits of `buf_cpu_should_handle`. All bits are clear in the end.
module _ (should_handle : ℕ → Bool) {S : Type 0} (handle : ℕ → Bool → ℕ → S → S) where
  unfoldable pub handle_buffer : ℕ → List Bool → S → S
  handle_buffer i [] s = s
  handle_buffer i (b ∷ bits) s =
      let handled =
        if b then handle (i / 2) (i % 2 == 0) (if should_handle i then 1 else 0) s else s in
      let rest = handle_buffer (suc i) bits handled in
      if any (b ∷ bits) && ltb i (usb_max_endpoints * 2) then rest else s

-- The bits of `usb_hw->ints`, and of `usb_hw->sie_status` for an error of the data sequence.
pub record Interrupts : Type 0 where
  pub setup_req : Bool
  pub buff_status : Bool
  pub bus_reset : Bool
  pub error : Bool
  pub data_seq_error : Bool

module _ (descriptors : Descriptors) (handler : ℕ → Handler)
    (handle_endpoint : ℕ → Bool → ℕ → Device → Device) where
  -- `_usb_handle_transfer`, with `handle_endpoint` for the endpoints of interfaces
  abbrev pub dispatch_transfer : ℕ → Bool → ℕ → Device → Device
  dispatch_transfer zero is_in which d =
      if is_in then handle_control_in which d else handle_control_out which d
  dispatch_transfer (suc n) is_in which d = handle_endpoint (suc n) is_in which d

  unfoldable pub isr_usbctrl : Interrupts → Setup → List Bool → (ℕ → Bool) → Device → Device
  isr_usbctrl status setup buffers should_handle d =
      let d1 = if status.setup_req then handle_setup_packet descriptors handler setup d else d in
      let d2 =
        if status.buff_status
        then handle_buffer should_handle dispatch_transfer 0 buffers d1
        else d1 in
      let d3 = if status.bus_reset then handle_bus_reset d2 else d2 in
      if status.error && not status.data_seq_error then handle_bus_reset d3 else d3
