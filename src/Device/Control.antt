-- ===== src/Device/Control.antt =====
-- The state of the device of usb_device_tiny/usb_device.c and the transfers on its control pipe,
-- which have one packet: a stage with data or without, then the stage with the status.
use pico_bootrom_crashdump.Prelude.{
  ℕ, ◌+◌, Bool, true, not, none, some, List, [], ◌∷◌, ◌++◌, ◌==◌, if◌then◌else◌, length,
}
use pico_bootrom_crashdump.Task.Execute.{sub32}
use pico_bootrom_crashdump.Device.{
  hs_non_halt_stall, rank, OnComplete, no_completion, send_in_ack, send_out_ack, set_address_now,
  Endpoint, reset_buffers, stall_endpoint, start_one_packet, reset_endpoint, halt_endpoint,
}

-- `struct usb_device` without its descriptors, the endpoints of the file, the address register of
-- the controller, and the calls of `on_configure`. `data_in` are the bytes in the buffer of
-- `usb_control_in`.
pub record Device : Type 0 where
  pub current_address : ℕ
  pub dev_addr_ctrl : ℕ
  pub current_config_num : ℕ
  pub pending_address : ℕ
  pub control_in : Endpoint
  pub control_out : Endpoint
  pub endpoints : List Endpoint
  pub data_in : List ℕ
  pub configured : List Bool

-- `_usb_handle_set_address`. Its assertion that there is no configuration is empty in the build, which
-- has NDEBUG.
unfoldable pub handle_set_address : ℕ → Device → Device
handle_set_address addr d = record d { current_address = addr; dev_addr_ctrl = addr }

abbrev pub map_endpoints : (Endpoint → Endpoint) → List Endpoint → List Endpoint
map_endpoints f [] = []
map_endpoints f (ep ∷ eps) = f ep ∷ map_endpoints f eps

-- `_usb_handle_set_config`
unfoldable pub handle_set_config : ℕ → Device → Device
handle_set_config config_num d = record d {
  current_config_num = config_num;
  endpoints = map_endpoints (reset_endpoint (not (config_num == 0)) true) d.endpoints;
  configured = d.configured ++ (not (config_num == 0) ∷ []);
}

-- `_usb_handle_bus_reset`
unfoldable pub handle_bus_reset : Device → Device
handle_bus_reset d = handle_set_address 0 (handle_set_config 0 d)

-- `usb_stall_control_pipe`
unfoldable pub stall_control_pipe : Device → Device
stall_control_pipe d = record d {
  control_in = stall_endpoint (reset_buffers d.control_in) hs_non_halt_stall;
  control_out = stall_endpoint (reset_buffers d.control_out) hs_non_halt_stall;
}

-- `usb_start_single_buffer_control_in_transfer` with the bytes of the packet
unfoldable pub start_control_in : List ℕ → Device → Device
start_control_in bytes d = record d {
  data_in = bytes;
  control_in = start_one_packet (length bytes) send_in_ack d.control_in;
}

-- `usb_start_empty_control_in_transfer`
unfoldable pub start_empty_control_in : OnComplete → Device → Device
start_empty_control_in on_complete d = record d {
  data_in = [];
  control_in = start_one_packet 0 on_complete d.control_in;
}

-- `usb_start_empty_transfer` on `usb_control_out`
unfoldable pub start_empty_control_out : OnComplete → Device → Device
start_empty_control_out on_complete d = record d {
  control_out = start_one_packet 0 on_complete d.control_out;
}

-- `_tf_send_control_in_ack`, `_tf_send_control_out_ack` and `_tf_set_address`
unfoldable pub complete : OnComplete → Device → Device
complete no_completion d = d
complete send_in_ack d = start_empty_control_out no_completion d
complete send_out_ack d = start_empty_control_in no_completion d
complete set_address_now d = handle_set_address d.pending_address d

-- `_usb_handle_transfer` on an endpoint whose transfers have one packet, with its
-- `_usb_check_for_transfer_completion`: the endpoint, and what is called on completion.
unfoldable pub handle_one_packet : ℕ → Endpoint → Endpoint × OnComplete
handle_one_packet which ep =
    let mine = record ep { owned_buffer_count = ep.owned_buffer_count + 1 } in
    elim ep.current_transfer [
      | none ↦ (halt_endpoint mine, no_completion)
      | some transfer ↦
          let handle = sub32 transfer.remaining_packets_to_handle 1 in
          let taken = record mine { current_take_buffer = which } in
          if not (rank ep.halt_state == 0)
          then (record taken { current_transfer = none }, no_completion)
          else if handle == 0
          then (record taken { current_transfer = none }, transfer.on_complete)
          else (
            record taken {
              current_transfer = some (record transfer { remaining_packets_to_handle = handle });
            },
            no_completion,
          )
    ]

-- `_usb_handle_transfer` for the control endpoints
unfoldable pub handle_control_in : ℕ → Device → Device
handle_control_in which d =
    let (ep, finish) = handle_one_packet which d.control_in in
    complete finish (record d { control_in = ep })

unfoldable pub handle_control_out : ℕ → Device → Device
handle_control_out which d =
    let (ep, finish) = handle_one_packet which d.control_out in
    complete finish (record d { control_out = ep })
