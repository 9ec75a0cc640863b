-- ===== src/Device/Address.antt =====
-- The address and the configuration of the device of usb_device_tiny/usb_device.c.
use pico_bootrom_crashdump.Prelude.{
  ℕ, ◌+◌, ◌%◌, ◌≤◌, ◌<◌, ◌≡◌, ◌⊎◌, refl, true, false, not, ◌&&◌, ◌||◌, List, [], ◌∷◌, ◌++◌, arith,
  leb, ◌==◌, if◌then◌else◌,
}
use pico_bootrom_crashdump.Device.{
  hs_none, OnComplete, Endpoint, reset_buffers, start_one_packet, give_buffer, reset_endpoint,
  set_address_now, ep_buffer_count,
}
use pico_bootrom_crashdump.Device.Control.{
  Device, handle_set_address, handle_set_config, handle_bus_reset, start_empty_control_in, complete,
  handle_one_packet, handle_control_in, map_endpoints,
}
use pico_bootrom_crashdump.Device.Requests.{
  Setup, is_standard, to_host, Descriptors, Handler, set_address_request, set_configuration_request,
  device_setup_request, accept_setup, dispatch_setup, handle_setup_packet,
}

-- A standard request of the device to set its address.
abbrev pub IsSetAddress : Setup → Type 0
IsSetAddress setup =
    (setup.request_type % 32 ≡ 0)
    × (is_standard setup ≡ true)
    × (to_host setup ≡ false)
    × (setup.request ≡ 5)

-- What starts on an endpoint that is not halted completes when its packet is taken.
start-completes :
    (len which : ℕ) (c : OnComplete) (ep : Endpoint)
    → ep.halt_state ≡ hs_none
    → (handle_one_packet which (start_one_packet len c ep)).1 ≡ c
unfolding start_one_packet give_buffer handle_one_packet
start-completes len which c ep h = ground arith

accept-halt_state : (d : Device) → (accept_setup d).control_in.halt_state ≡ hs_none
unfolding accept_setup reset_endpoint reset_buffers start_one_packet give_buffer
accept-halt_state d = ground arith

-- The device takes an address from 1 to 127 when the status stage of the request is over, and not
-- before. As built with NDEBUG, it does so also when it is configured, and then stays configured.
pub set_address-current_address :
    (descriptors : Descriptors) (handler : ℕ → Handler) (setup : Setup) (d : Device) (which : ℕ)
    → IsSetAddress setup
    → 0 < setup.value % 256
    → setup.value % 256 ≤ 127
    → let asked = handle_setup_packet descriptors handler setup d in
      let over = handle_control_in which asked in
      (asked.current_address ≡ d.current_address)
      × (asked.dev_addr_ctrl ≡ d.dev_addr_ctrl)
      × (over.current_address ≡ setup.value % 256)
      × (over.dev_addr_ctrl ≡ setup.value % 256)
      × (over.current_config_num ≡ d.current_config_num)
unfolding handle_setup_packet dispatch_setup device_setup_request set_address_request
    start_empty_control_in handle_control_in complete handle_set_address accept_setup
set_address-current_address descriptors handler setup d which (r, st, dir, req) low high =
    let valid : (not (setup.value % 256 == 0) && leb (setup.value % 256) 127) ≡ true =
      ground arith in
    let c =
      start-completes 0 which set_address_now (accept_setup d).control_in (accept-halt_state d) in
    rw (r, st, dir, req, valid, c) (refl, refl, refl, refl, refl)

module _ (n : ℕ) where
  -- An endpoint after a reset by the device: not halted, its first packet is DATA0, and it owns its
  -- buffers but the one that it gives for the default transfer of a configured device.
  abbrev pub IsReset : Endpoint → Type 0
  IsReset ep =
      (ep.halt_state ≡ hs_none)
      × (if not (n == 0) && ep.has_default
          then (ep.ctrl0.avail ≡ true)
            × (ep.ctrl0.data1 ≡ false)
            × (ep.owned_buffer_count + 1 ≡ ep_buffer_count ep)
          else (ep.ctrl0.avail ≡ false)
            × (ep.next_pid ≡ 0)
            × (ep.owned_buffer_count ≡ ep_buffer_count ep))

  abbrev pub AreReset : List Endpoint → Type 0
  AreReset [] = Unit {0}
  AreReset (ep ∷ eps) = IsReset ep × AreReset eps

  reset_endpoint-IsReset : (ep : Endpoint) → IsReset (reset_endpoint (not (n == 0)) true ep)
  unfolding reset_endpoint reset_buffers start_one_packet give_buffer ep_buffer_count
  reset_endpoint-IsReset ep = ground arith

  map-AreReset :
      (eps : List Endpoint) → AreReset (map_endpoints (reset_endpoint (not (n == 0)) true) eps)
  map-AreReset [] = tt
  map-AreReset (ep ∷ eps) = (reset_endpoint-IsReset ep, map-AreReset eps)

-- A standard request of the device to select a configuration.
abbrev pub IsSetConfiguration : Setup → Type 0
IsSetConfiguration setup =
    (setup.request_type % 32 ≡ 0)
    × (is_standard setup ≡ true)
    × (to_host setup ≡ false)
    × (setup.request ≡ 9)

-- After the request for the device's configuration, or for none, that is the current one, every
-- endpoint is reset, and the code that configures was called once more.
pub set_configuration-AreReset :
    (descriptors : Descriptors) (handler : ℕ → Handler) (setup : Setup) (d : Device)
    → IsSetConfiguration setup
    → (setup.value % 256 ≡ 0) ⊎ (setup.value % 256 ≡ descriptors.config_value)
    → let asked = handle_setup_packet descriptors handler setup d in
      (asked.current_config_num ≡ setup.value % 256)
      × AreReset (setup.value % 256) asked.endpoints
      × (asked.configured ≡ d.configured ++ (not (setup.value % 256 == 0) ∷ []))
unfolding handle_setup_packet dispatch_setup device_setup_request set_configuration_request
    handle_set_config start_empty_control_in accept_setup
set_configuration-AreReset descriptors handler setup d (r, st, dir, req) known =
    let valid : (setup.value % 256 == 0 || setup.value % 256 == descriptors.config_value) ≡ true =
      ground (arith, known) in
    rw (r, st, dir, req, valid) (refl, map-AreReset (setup.value % 256) d.endpoints, refl)

-- After a bus reset the device has no address and no configuration, and every endpoint is reset.
pub bus_reset-AreReset :
    (d : Device)
    → ((handle_bus_reset d).current_address ≡ 0)
      × ((handle_bus_reset d).dev_addr_ctrl ≡ 0)
      × ((handle_bus_reset d).current_config_num ≡ 0)
      × AreReset 0 (handle_bus_reset d).endpoints
unfolding handle_bus_reset handle_set_address handle_set_config
bus_reset-AreReset d = (refl, refl, refl, map-AreReset 0 d.endpoints)
