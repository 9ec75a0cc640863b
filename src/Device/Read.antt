-- ===== src/Device/Read.antt =====
-- A request of the host for data of the device, usb_device_tiny/usb_device.c, from its setup packet
-- to the end of its status stage.
use pico_bootrom_crashdump.Prelude.{
  ℕ, zero, suc, ◌%◌, ◌≤◌, ◌≡◌, refl, Bool, true, false, none, some, List, [], ◌∷◌, arith,
  if◌then◌else◌, length, take,
}
use mathlib.Core.Path.{subst}
use pico_bootrom_crashdump.Device.{
  OnComplete, Endpoint, reset_buffers, start_one_packet, give_buffer, reset_endpoint, no_completion,
  send_in_ack, ep_buffer_count,
}
use pico_bootrom_crashdump.Device.Control.{
  Device, start_control_in, start_empty_control_out, complete, handle_one_packet, handle_control_in,
  handle_control_out,
}
use pico_bootrom_crashdump.Device.Requests.{
  Setup, is_standard, to_host, Descriptors, Handler, device_setup_request, device_data,
  accept_setup, dispatch_setup, handle_setup_packet,
}
use pico_bootrom_crashdump.Device.Status.{IsControl, IsIdle}

-- A buffer of a control endpoint that the controller has, to send or to receive a DATA1 packet.
abbrev pub IsGiven : ℕ → Endpoint → Type 0
IsGiven len ep =
    (ep.ctrl0.avail ≡ true)
    × (ep.ctrl0.full ≡ ep.is_in)
    × (ep.ctrl0.data1 ≡ true)
    × (ep.ctrl0.len ≡ len)

-- Nothing runs, and the code owns the buffer again.
abbrev pub IsOver : Endpoint → Type 0
IsOver ep = (ep.current_transfer ≡ none) × (ep.owned_buffer_count ≡ 1)

length-take_le : (n : ℕ) (xs : List ℕ) → length (take n xs) ≤ n
length-take_le zero xs = omega arith
length-take_le (suc n) [] = omega arith
length-take_le (suc n) (x ∷ xs) = let h = length-take_le n xs in omega arith

pub accept-IsIdle :
    (d : Device)
    → IsControl true d.control_in
    → IsControl false d.control_out
    → IsControl true (accept_setup d).control_in
      × IsIdle (accept_setup d).control_in
      × IsControl false (accept_setup d).control_out
      × IsIdle (accept_setup d).control_out
unfolding accept_setup reset_endpoint reset_buffers start_one_packet ep_buffer_count
accept-IsIdle d (i, n, e) (i', n', e') = ground (arith, i, n, e, i', n', e')

-- What starts on an idle endpoint is with the controller, and is over when the packet is taken.
pub start-IsGiven :
    (b : Bool) (len : ℕ) (c : OnComplete) (ep : Endpoint)
    → IsControl b ep
    → IsIdle ep
    → IsGiven (if b then len else ep.buffer_size) (start_one_packet len c ep)
unfolding start_one_packet give_buffer
start-IsGiven b len c ep h h' = ground (arith, h, h')

pub taken-IsOver :
    (b : Bool) (len which : ℕ) (c : OnComplete) (ep : Endpoint)
    → IsControl b ep
    → IsIdle ep
    → IsOver (handle_one_packet which (start_one_packet len c ep)).0
      × ((handle_one_packet which (start_one_packet len c ep)).1 ≡ c)
unfolding start_one_packet give_buffer handle_one_packet
taken-IsOver b len which c ep h h' = ground (arith, h, h')

accept-buffer_size :
    (d : Device) → (accept_setup d).control_out.buffer_size ≡ d.control_out.buffer_size
unfolding accept_setup reset_endpoint reset_buffers start_one_packet give_buffer
accept-buffer_size d = ground arith

device_data-accept :
    (descriptors : Descriptors) (setup : Setup) (d : Device)
    → device_data descriptors setup (accept_setup d) ≡ device_data descriptors setup d
unfolding device_data accept_setup
device_data-accept descriptors setup d = refl

pub setup-start :
    (descriptors : Descriptors) (handler : ℕ → Handler) (setup : Setup) (d : Device)
    (bytes : List ℕ)
    → setup.request_type ≡ 0x80
    → device_data descriptors setup d ≡ some bytes
    → handle_setup_packet descriptors handler setup d
      ≡ start_control_in (take setup.length bytes) (accept_setup d)
unfolding handle_setup_packet dispatch_setup device_setup_request
setup-start descriptors handler setup d bytes t e =
    let device : setup.request_type % 32 ≡ 0 = omega (arith, t) in
    let standard : is_standard setup ≡ true = ground (arith, t) in
    let dir : to_host setup ≡ true = ground (arith, t) in
    rw (device, standard, dir, device_data-accept descriptors setup d, e) refl

-- A standard request for data that the device has is answered with the data, cut to the length that
-- the host asked for, in a DATA1 packet. When the host has taken it, the status packet can be
-- received, and when that came, both endpoints of the control pipe own their buffer and nothing runs.
pub read-completes :
    (descriptors : Descriptors) (handler : ℕ → Handler) (setup : Setup) (d : Device)
    (bytes : List ℕ) (which which' : ℕ)
    → IsControl true d.control_in
    → IsControl false d.control_out
    → setup.request_type ≡ 0x80
    → device_data descriptors setup d ≡ some bytes
    → let asked = handle_setup_packet descriptors handler setup d in
      let taken = handle_control_in which asked in
      let over = handle_control_out which' taken in
      (asked.data_in ≡ take setup.length bytes)
      × (length asked.data_in ≤ setup.length)
      × IsGiven (length asked.data_in) asked.control_in
      × IsGiven d.control_out.buffer_size taken.control_out
      × IsOver over.control_in
      × IsOver over.control_out
unfolding start_control_in handle_control_in handle_control_out complete start_empty_control_out
read-completes descriptors handler setup d bytes which which' i o t e =
    let a = accept_setup d in
    let sent = take setup.length bytes in
    let (ci, ii, co, io) = accept-IsIdle d i o in
    let (over_in, c) = taken-IsOver true (length sent) which send_in_ack a.control_in ci ii in
    let (over_out, c') = taken-IsOver false 0 which' no_completion a.control_out co io in
    let given_out : IsGiven d.control_out.buffer_size
        (start_one_packet 0 no_completion a.control_out) =
      subst (λ (n : ℕ). IsGiven n (start_one_packet 0 no_completion a.control_out))
        (accept-buffer_size d) (start-IsGiven false 0 no_completion a.control_out co io) in
    rw (setup-start descriptors handler setup d bytes t e, c, c')
      (
        refl,
        length-take_le setup.length bytes,
        start-IsGiven true (length sent) send_in_ack a.control_in ci ii,
        given_out,
        over_in,
        over_out,
      )
