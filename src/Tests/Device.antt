-- ===== src/Tests/Device.antt =====
-- The boot device on the bus: requests of the host on its control pipe.
use pico_bootrom_crashdump.Prelude.{
  ℕ, ◌≤◌, ◌≡◌, inr, refl, Bool, true, false, none, some, List, [], ◌∷◌, arith, length, codes,
}
use pico_bootrom_crashdump.Msc.{dir_none}
use pico_bootrom_crashdump.Picoboot.{CmdStatus}
use pico_bootrom_crashdump.Task.{reset_task}
use pico_bootrom_crashdump.Device.{
  hs_none, hs_halted, hs_halted_on_condition, Endpoint, endpoint_init, clear_halt_condition,
  reset_endpoint,
}
use pico_bootrom_crashdump.Device.Control.{Device, handle_control_in, handle_control_out}
use pico_bootrom_crashdump.Device.Requests.{
  Setup, Descriptors, Handler, unhalt, device_data, handle_get_descriptor,
  prepare_string_descriptor, handle_setup_packet,
}
use pico_bootrom_crashdump.Device.Halt.{host_unhalts, stalls, on_events, condition-halt_state}
use pico_bootrom_crashdump.Device.Address.{set_address-current_address}
use pico_bootrom_crashdump.Device.Handlers.{
  Boot, msc_in, msc_out, picoboot_out, picoboot_in, msc_reset_request,
}
use pico_bootrom_crashdump.Device.Handlers.Reset.{msc_reset-unhalts}
use pico_bootrom_crashdump.Device.Memory.{device_hw_init}
use pico_bootrom_crashdump.Device.Memory.Apart.{IsLaidOut, device-ArePlaced}
use pico_bootrom_crashdump.Device.Events.{isr_usbctrl}
use pico_bootrom_crashdump.Device.Events.Stale.{
  setup_and_buffer, control_out_bit, IsStuck, stale_out-IsStuck,
}
use pico_bootrom_crashdump.Device.Read.{IsGiven, IsOver, read-completes}

abbrev control_in : Endpoint
control_in = endpoint_init 0x80 true 64 false false

abbrev control_out : Endpoint
control_out = endpoint_init 0 false 64 false false

-- Both endpoints of the disk are halted by an invalid command.
abbrev disk_in : Endpoint
disk_in = record (endpoint_init msc_in true 64 true false) { halt_state = hs_halted_on_condition }

abbrev disk_out : Endpoint
disk_out = record (endpoint_init msc_out false 64 true true) { halt_state = hs_halted_on_condition }

abbrev others : List Endpoint
others =
    endpoint_init picoboot_out false 64 true true
    ∷ endpoint_init picoboot_in true 64 true false
    ∷ []

abbrev device : Device
device = record {
  current_address = 0;
  dev_addr_ctrl = 0;
  current_config_num = 1;
  pending_address = 0;
  control_in = control_in;
  control_out = control_out;
  endpoints = disk_in ∷ disk_out ∷ others;
  data_in = [];
  configured = [];
}

abbrev descriptors : Descriptors
descriptors = record {
  device = 18 ∷ 1 ∷ 0x10 ∷ 1 ∷ [];
  config = 9 ∷ 2 ∷ 55 ∷ 0 ∷ [];
  config_value = 1;
  interface_count = 2;
  string = λ i. codes "RP2 Boot";
}

abbrev no_handler : ℕ → Handler
no_handler num setup d = none

abbrev set_address_setup : Setup
set_address_setup = record { request_type = 0; request = 5; value = 7; index = 0; length = 0 }

set_address-current_address_example :
    let asked = handle_setup_packet descriptors no_handler set_address_setup device in
    let over = handle_control_in 0 asked in
    (asked.current_address ≡ 0)
    × (asked.dev_addr_ctrl ≡ 0)
    × (over.current_address ≡ 7)
    × (over.dev_addr_ctrl ≡ 7)
    × (over.current_config_num ≡ 1)
set_address-current_address_example =
    set_address-current_address descriptors no_handler set_address_setup device 0
      (refl, refl, refl, refl) (omega arith) (omega arith)

-- The host tries to clear the halt, and halts again.
condition-halt_state_example :
    let ep = on_events (host_unhalts true ∷ stalls hs_halted ∷ host_unhalts true ∷ []) disk_out in
    (ep.halt_state ≡ hs_halted_on_condition)
    × ((unhalt true (clear_halt_condition ep)).halt_state ≡ hs_none)
    × ((configured hard : Bool) → (reset_endpoint configured hard ep).halt_state ≡ hs_none)
condition-halt_state_example =
    condition-halt_state (host_unhalts true ∷ stalls hs_halted ∷ host_unhalts true ∷ []) true
      disk_out refl

abbrev read_string : Setup
read_string = record { request_type = 0x80; request = 6; value = 0x302; index = 0; length = 4 }

-- "RP2 Boot", of which the host wants four bytes first.
abbrev string_bytes : List ℕ
string_bytes =
    18 ∷ 3 ∷ b'R' ∷ 0 ∷ b'P' ∷ 0 ∷ b'2' ∷ 0 ∷ b' ' ∷ 0 ∷ b'B' ∷ 0 ∷ b'o' ∷ 0 ∷ b'o' ∷ 0 ∷ b't' ∷ 0
    ∷ []

read_string-data : device_data descriptors read_string device ≡ some string_bytes
unfolding device_data handle_get_descriptor prepare_string_descriptor
read_string-data = refl

read-completes_example :
    let asked = handle_setup_packet descriptors no_handler read_string device in
    let taken = handle_control_in 0 asked in
    let over = handle_control_out 0 taken in
    (asked.data_in ≡ (18 ∷ 3 ∷ b'R' ∷ 0 ∷ []))
    × (length asked.data_in ≤ 4)
    × IsGiven (length asked.data_in) asked.control_in
    × IsGiven 64 taken.control_out
    × IsOver over.control_in
    × IsOver over.control_out
read-completes_example =
    read-completes descriptors no_handler read_string device string_bytes 0 0 (refl, refl, refl)
      (refl, refl, refl) refl read_string-data

abbrev boot : Boot
boot = record {
  device = device;
  msc = record {
    csw = record { tag = 5; residue = 512; status = 1 };
    request_sense = record { key = 0; asc = 0; ascq = 0 };
    data_phase_length = 0;
    stall_direction_before_csw = dir_none;
    send_csw_on_unstall = true;
    ejected = false;
    async_token = 3;
    lba = 0;
  };
  picoboot = record {
    status = record { token = 0; status_code = 0; cmd_id = 0; in_progress = false };
    task = reset_task;
    real_token = 0;
    picoboot_queue = record { task = reset_task; full = false };
    disk_queue = record { task = reset_task; full = false };
    disk_disable = false;
  };
}

abbrev status_bytes : CmdStatus → List ℕ
status_bytes status = status.cmd_id ∷ status.status_code ∷ []

abbrev get_max_lun : Setup
get_max_lun = record { request_type = 0xa1; request = 0xfe; value = 0; index = 0; length = 1 }

reset_unhalts :
    (i' : Endpoint) × (o' : Endpoint) × ((msc_reset_request boot).device.endpoints
      ≡ (i' ∷ o' ∷ others))
    × (i'.halt_state ≡ hs_none)
    × (o'.halt_state ≡ hs_none)
reset_unhalts = msc_reset-unhalts boot disk_in disk_out others refl refl refl

abbrev interface_endpoints : List Endpoint
interface_endpoints = disk_in ∷ disk_out ∷ others

device-ArePlaced_example : IsLaidOut (
    device_hw_init
      (record { bulk = 0x54; double_buffered = 0x20 })
      control_in
      control_out
      interface_endpoints)
device-ArePlaced_example =
    device-ArePlaced (record { bulk = 0x54; double_buffered = 0x20 }) control_in control_out
      interface_endpoints (omega arith)
      (
        (omega arith, inr refl),
        ((omega arith, inr refl), ((omega arith, inr refl), ((omega arith, inr refl), _))),
      )
      refl refl refl refl

stale_out-IsStuck_example :
    let asked =
      isr_usbctrl descriptors no_handler
        (λ num is_in which d. d)
        setup_and_buffer
        read_string
        control_out_bit
        (λ i. false)
        device in
    let taken = handle_control_in 0 asked in
    IsGiven 4 asked.control_in × IsStuck asked.control_out × IsStuck taken.control_out
stale_out-IsStuck_example =
    stale_out-IsStuck descriptors no_handler (λ num is_in which d. d) read_string (λ i. false)
      device string_bytes 0 (refl, refl, refl) (refl, refl, refl) refl read_string-data
