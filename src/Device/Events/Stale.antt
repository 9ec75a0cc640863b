-- ===== src/Device/Events/Stale.antt =====
-- What the interrupt handler of usb_device_tiny/usb_device.c does when it finds the end of a request
-- and the next setup packet at once.
use pico_bootrom_crashdump.Prelude.{
  ℕ, ◌≡◌, refl, true, false, none, some, List, [], ◌∷◌, Bool, arith, if◌then◌else◌, length, take,
}
use pico_bootrom_crashdump.Device.{
  OnComplete, no_completion, send_in_ack, Endpoint, hs_halted, start_one_packet, halt_endpoint,
  stall_endpoint, reset_endpoint, reset_buffers,
}
use pico_bootrom_crashdump.Device.Control.{
  Device, handle_one_packet, handle_control_in, handle_control_out, start_control_in, complete,
  start_empty_control_out,
}
use pico_bootrom_crashdump.Device.Requests.{
  Setup, Descriptors, Handler, device_data, accept_setup, handle_setup_packet,
}
use pico_bootrom_crashdump.Device.Status.{IsControl, IsIdle}
use pico_bootrom_crashdump.Device.Read.{
  IsGiven, accept-IsIdle, start-IsGiven, taken-IsOver, setup-start,
}
use pico_bootrom_crashdump.Device.Events.{Interrupts, handle_buffer, isr_usbctrl}

-- A setup packet together with the event of a buffer
abbrev pub setup_and_buffer : Interrupts
setup_and_buffer = record {
  setup_req = true;
  buff_status = true;
  bus_reset = false;
  error = false;
  data_seq_error = false;
}

-- Bit 1 is that of the OUT endpoint of the control pipe.
abbrev pub control_out_bit : List Bool
control_out_bit = false ∷ true ∷ []

-- The endpoint is halted, with a stall and no buffer for the controller, and owns one too many.
abbrev pub IsStuck : Endpoint → Type 0
IsStuck ep =
    (ep.halt_state ≡ hs_halted)
    × (ep.owned_buffer_count ≡ 2)
    × (ep.ctrl0.stall ≡ true)
    × (ep.ctrl0.avail ≡ false)

accept-control_out :
    (d : Device)
    → IsControl false d.control_out
    → ((accept_setup d).control_out.current_transfer ≡ none)
      × ((accept_setup d).control_out.ctrl0.avail ≡ false)
unfolding accept_setup reset_endpoint reset_buffers
accept-control_out d (i, n, e) = ground (arith, i, n, e)

unexpected-IsStuck :
    (which : ℕ) (ep : Endpoint)
    → IsIdle ep
    → ep.current_transfer ≡ none
    → ep.ctrl0.avail ≡ false
    → IsStuck (handle_one_packet which ep).0
unfolding handle_one_packet halt_endpoint stall_endpoint
unexpected-IsStuck which ep h t a = ground (arith, h, t, a)

unexpected-completion :
    (which : ℕ) (ep : Endpoint)
    → ep.current_transfer ≡ none
    → (handle_one_packet which ep).1 ≡ no_completion
unfolding handle_one_packet
unexpected-completion which ep t = ground (arith, t)

start-IsStuck : (c : OnComplete) (ep : Endpoint) → IsStuck ep → IsStuck (start_one_packet 0 c ep)
unfolding start_one_packet
start-IsStuck c ep h = ground (arith, h)

module _ (descriptors : Descriptors) (handler : ℕ → Handler)
    (handle_endpoint : ℕ → Bool → ℕ → Device → Device) where
  stale_out :
      (setup : Setup) (should_handle : ℕ → Bool) (d : Device)
      → isr_usbctrl descriptors handler handle_endpoint setup_and_buffer setup control_out_bit
          should_handle d
        ≡ handle_control_out
            (if should_handle 1 then 1 else 0)
            (handle_setup_packet descriptors handler setup d)
  unfolding isr_usbctrl handle_buffer
  stale_out setup should_handle d = refl

  -- If the interrupt handler finds a setup packet together with the event of the OUT endpoint of the
  -- control pipe, such as the end of the request before, the setup packet comes first, and the event
  -- halts the endpoint. A standard request for data that the device has is then answered with data,
  -- but when the host has taken them, the OUT endpoint is stalled: the status stage fails.
  pub stale_out-IsStuck :
      (setup : Setup) (should_handle : ℕ → Bool) (d : Device) (bytes : List ℕ) (which : ℕ)
      → IsControl true d.control_in
      → IsControl false d.control_out
      → setup.request_type ≡ 0x80
      → device_data descriptors setup d ≡ some bytes
      → let asked =
          isr_usbctrl descriptors handler handle_endpoint setup_and_buffer setup control_out_bit
            should_handle d in
        let taken = handle_control_in which asked in
        IsGiven (length (take setup.length bytes)) asked.control_in
        × IsStuck asked.control_out
        × IsStuck taken.control_out
  unfolding start_control_in handle_control_in handle_control_out complete start_empty_control_out
  stale_out-IsStuck setup should_handle d bytes which i o t e =
      let a = accept_setup d in
      let sent = take setup.length bytes in
      let slot = if should_handle 1 then 1 else 0 in
      let (ci, ii, co, io) = accept-IsIdle d i o in
      let (no_transfer, not_avail) = accept-control_out d o in
      let stuck = unexpected-IsStuck slot a.control_out io no_transfer not_avail in
      let (over_in, c) = taken-IsOver true (length sent) which send_in_ack a.control_in ci ii in
      rw
        (
          stale_out setup should_handle d,
          setup-start descriptors handler setup d bytes t e,
          unexpected-completion slot a.control_out no_transfer,
          c,
        )
        (
          start-IsGiven true (length sent) send_in_ack a.control_in ci ii,
          stuck,
          start-IsStuck no_completion (handle_one_packet slot a.control_out).0 stuck,
        )
