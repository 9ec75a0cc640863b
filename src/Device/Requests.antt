-- ===== src/Device/Requests.antt =====
-- The setup packets of usb_device_tiny/usb_device.c: the requests to the device, to an interface and
-- to an endpoint. Of the state, what varies is a `Device`; the descriptors, and the handlers that the
-- interfaces set, are parameters.
use pico_bootrom_crashdump.Prelude.{
  ℕ, ◌+◌, ◌*◌, ◌/◌, ◌%◌, Bool, true, false, not, ◌&&◌, ◌||◌, Option, none, some, List, [], ◌∷◌, ltb,
  leb, ◌==◌, if◌then◌else◌, length, take,
}
use pico_bootrom_crashdump.Device.{
  hs_halted, rank, no_completion, set_address_now, Endpoint, stall_endpoint, reset_endpoint,
}
use pico_bootrom_crashdump.Device.Control.{
  Device, handle_set_config, stall_control_pipe, start_control_in, start_empty_control_in,
}

-- `struct usb_setup_packet`
pub record Setup : Type 0 where
  pub request_type : ℕ
  pub request : ℕ
  pub value : ℕ
  pub index : ℕ
  pub length : ℕ

-- `!(setup->bmRequestType & USB_REQ_TYPE_TYPE_MASK)` and `setup->bmRequestType & USB_DIR_IN`
abbrev pub is_standard : Setup → Bool
is_standard setup = setup.request_type / 32 % 4 == 0

abbrev pub to_host : Setup → Bool
to_host setup = setup.request_type / 128 % 2 == 1

abbrev pub string_chars : List ℕ → List ℕ
string_chars [] = []
string_chars (c ∷ cs) = c ∷ 0 ∷ string_chars cs

-- `_usb_prepare_string_descriptor`
unfoldable pub prepare_string_descriptor : List ℕ → List ℕ
prepare_string_descriptor str = ((2 + 2 * length str) % 256) ∷ 3 ∷ string_chars str

-- The descriptors of `usb_device_init`, and the strings of `get_descriptor_string`.
pub record Descriptors : Type 0 where
  pub device : List ℕ
  pub config : List ℕ
  pub config_value : ℕ
  pub interface_count : ℕ
  pub string : ℕ → List ℕ

-- The endpoint that has an address, and the endpoints with another in its place.
abbrev pub find_endpoint : ℕ → List Endpoint → Option Endpoint
find_endpoint num [] = none
find_endpoint num (ep ∷ eps) =
    let rest = find_endpoint num eps in if ep.address == num then some ep else rest

abbrev pub update_endpoint : ℕ → (Endpoint → Endpoint) → List Endpoint → List Endpoint
update_endpoint num f [] = []
update_endpoint num f (ep ∷ eps) =
    let rest = update_endpoint num f eps in if ep.address == num then f ep ∷ eps else ep ∷ rest

-- `_usb_find_endpoint`
unfoldable pub usb_find_endpoint : ℕ → Device → Option Endpoint
usb_find_endpoint num d =
    if num == 0
    then some d.control_out
    else if num == 128
    then some d.control_in
    else if not (d.current_config_num == 0)
    then find_endpoint num d.endpoints
    else none

-- A change of the endpoint that was found.
unfoldable pub at_endpoint : ℕ → (Endpoint → Endpoint) → Device → Device
at_endpoint num f d =
    if num == 0
    then record d { control_out = f d.control_out }
    else if num == 128
    then record d { control_in = f d.control_in }
    else record d { endpoints = update_endpoint num f d.endpoints }

-- The case `USB_REQUEST_SET_ADDRESS` of `_usb_default_handle_device_setup_request`.
unfoldable pub set_address_request : ℕ → Device → Device
set_address_request addr d =
    if not (addr == 0) && leb addr 127
    then start_empty_control_in set_address_now (record d { pending_address = addr })
    else stall_control_pipe d

module _ (descriptors : Descriptors) where
  -- `_usb_handle_get_descriptor`, `none` for a length of -1
  unfoldable pub handle_get_descriptor : Setup → Option (List ℕ)
  handle_get_descriptor setup =
      if setup.value / 256 == 1
      then some descriptors.device
      else if setup.value / 256 == 2
      then if setup.value % 256 == 0 then some descriptors.config else none
      else if setup.value / 256 == 3
      then if setup.value % 256 == 0
        then some (4 ∷ 3 ∷ 9 ∷ 4 ∷ [])
        else some (prepare_string_descriptor (descriptors.string (setup.value % 256)))
      else none

  -- What is sent for a standard request of the device that has data for the host.
  unfoldable pub device_data : Setup → Device → Option (List ℕ)
  device_data setup d =
      if setup.request == 0
      then some (0 ∷ 0 ∷ [])
      else if setup.request == 6
      then handle_get_descriptor setup
      else if setup.request == 8
      then some (d.current_config_num ∷ [])
      else none

  -- The case `USB_REQUEST_SET_CONFIGURATION`.
  unfoldable pub set_configuration_request : ℕ → Device → Device
  set_configuration_request config_num d =
      if config_num == 0 || config_num == descriptors.config_value
      then start_empty_control_in no_completion (handle_set_config config_num d)
      else stall_control_pipe d

  -- `_usb_default_handle_device_setup_request`. The cases SET_FEATURE and SET_DESCRIPTOR assert `false`
  -- and break: the build has NDEBUG, so that they stall as what is unknown.
  unfoldable pub device_setup_request : Setup → Device → Device
  device_setup_request setup d =
      if is_standard setup
      then if to_host setup
        then elim (device_data setup d) [
          | none ↦ stall_control_pipe d
          | some bytes ↦ start_control_in (take setup.length bytes) d
        ]
        else if setup.request == 5
        then set_address_request (setup.value % 256) d
        else if setup.request == 9
        then set_configuration_request (setup.value % 256) d
        else stall_control_pipe d
      else stall_control_pipe d

-- `_usb_default_handle_interface_setup_request`
unfoldable pub interface_setup_request : Setup → Device → Device
interface_setup_request setup d =
    if is_standard setup && setup.index / 256 == 0 && to_host setup && setup.request == 0
    then start_control_in (0 ∷ 0 ∷ []) d
    else stall_control_pipe d

-- The change to an endpoint when the host clears its halt.
unfoldable pub unhalt : Bool → Endpoint → Endpoint
unhalt configured ep =
    if ltb (rank ep.halt_state) 3
    then reset_endpoint configured true ep
    else record ep { next_pid = 0 }

-- `_usb_default_handle_endpoint_setup_request` for the endpoint at `index`
unfoldable pub endpoint_setup_request : Setup → Endpoint → Device → Device
endpoint_setup_request setup ep d =
    if is_standard setup
    then if to_host setup
      then if setup.request == 0 && setup.value == 0 && setup.length == 2
        then start_control_in ((if ltb 1 (rank ep.halt_state) then 1 else 0) ∷ 0 ∷ []) d
        else stall_control_pipe d
      else if setup.request == 1 && setup.value == 0
      then start_empty_control_in no_completion
          (at_endpoint setup.index (unhalt (not (d.current_config_num == 0))) d)
      else if setup.request == 3 && setup.value == 0
      then start_empty_control_in no_completion
          (at_endpoint setup.index (λ ep. stall_endpoint ep hs_halted) d)
      else stall_control_pipe d
    else stall_control_pipe d

-- The start of `_usb_handle_setup_packet`: what was in progress on the control pipe is reset.
unfoldable pub accept_setup : Device → Device
accept_setup d =
    let configured = not (d.current_config_num == 0) in
    record d {
      control_in = record (reset_endpoint configured false d.control_in) { next_pid = 1 };
      control_out = record (reset_endpoint configured false d.control_out) { next_pid = 1 };
    }

-- A handler gives the new state if it has handled the packet.
abbrev pub Handler : Type 0
Handler = Setup → Device → Option Device

module _ (descriptors : Descriptors) (handler : ℕ → Handler) where
  -- The recipient of a packet, as `_usb_handle_setup_packet` finds it.
  unfoldable pub dispatch_setup : Setup → Device → Device
  dispatch_setup setup d =
      if setup.request_type % 32 == 0
      then device_setup_request descriptors setup d
      else if setup.request_type % 32 == 1
      then if not (d.current_config_num == 0) && ltb (setup.index % 256) descriptors.interface_count
        then elim (handler (setup.index % 256) setup d) [
          | some d' ↦ d'
          | none ↦ interface_setup_request setup d
        ]
        else stall_control_pipe d
      else if setup.request_type % 32 == 2
      then elim (usb_find_endpoint setup.index d) [
        | some ep ↦ endpoint_setup_request setup ep d
        | none ↦ stall_control_pipe d
      ]
      else stall_control_pipe d

  -- `_usb_handle_setup_packet`
  unfoldable pub handle_setup_packet : Setup → Device → Device
  handle_setup_packet setup d = dispatch_setup setup (accept_setup d)
