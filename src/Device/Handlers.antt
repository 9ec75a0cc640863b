-- ===== src/Device/Handlers.antt =====
-- The setup packets to the interfaces of the boot device: `msc_setup_request_handler` of
-- usb_device_tiny/usb_msc.c and `_picoboot_setup_request_handler` of bootrom/usb_boot_device.c. The
-- numbers of the two PICOBOOT requests and the bytes of the status, which a header of the SDK has, are
-- parameters.
pub mod Reset
use pico_bootrom_crashdump.Prelude.{
  ℕ, ◌/◌, ◌%◌, refl, ◌∙◌, Bool, false, not, ◌&&◌, Option, none, some, List, [], ◌∷◌, arith, ◌==◌,
  if◌then◌else◌, length,
}
use pico_bootrom_crashdump.Msc.{dir_none, MscState}
use pico_bootrom_crashdump.Picoboot.{CmdStatus, PicobootState}
use pico_bootrom_crashdump.Picoboot.Command.{picoboot_reset}
use pico_bootrom_crashdump.Device.{
  hs_none, no_completion, Endpoint, reset_endpoint, clear_halt_condition, reset_buffers,
  start_one_packet, give_buffer,
}
use pico_bootrom_crashdump.Device.Control.{Device, start_control_in, start_empty_control_in}
use pico_bootrom_crashdump.Device.Requests.{Setup, to_host, Handler, update_endpoint}
use pico_bootrom_crashdump.Device.Halt.{reset-halt_state}
use pico_bootrom_crashdump.Device.Status.{IsAnswered}

-- The state that the handlers share with the rest of the boot device.
pub record Boot : Type 0 where
  pub device : Device
  pub msc : MscState
  pub picoboot : PicobootState

-- `usb_soft_reset_endpoint` of the endpoint with an address
unfoldable pub soft_reset : ℕ → Device → Device
soft_reset address d = record d {
  endpoints =
      update_endpoint address (reset_endpoint (not (d.current_config_num == 0)) false) d.endpoints;
}

unfoldable pub clear_condition : ℕ → Device → Device
clear_condition address d = record d {
  endpoints = update_endpoint address clear_halt_condition d.endpoints;
}

-- The addresses of the endpoints
abbrev pub msc_in : ℕ
msc_in = 0x81

abbrev pub msc_out : ℕ
msc_out = 0x02

abbrev pub picoboot_out : ℕ
picoboot_out = 0x03

abbrev pub picoboot_in : ℕ
picoboot_in = 0x84

-- `_msc_reset` after its first call, without `vd_reset`
unfoldable pub msc_reset : Boot → Boot
msc_reset b = record b {
  device = soft_reset msc_out (soft_reset msc_in b.device);
  msc = record (b.msc) {
    csw = record { tag = 0; residue = 0; status = 0 };
    request_sense = record { key = 0; asc = 0; ascq = 0 };
    data_phase_length = 0;
    stall_direction_before_csw = dir_none;
    send_csw_on_unstall = false;
    ejected = false;
  };
}

-- The case `USB_REQUEST_MSC_RESET` of `msc_setup_request_handler`
unfoldable pub msc_reset_request : Boot → Boot
msc_reset_request b =
    let reset =
      msc_reset (record b { device = clear_condition msc_out (clear_condition msc_in b.device) }) in
    record reset { device = start_empty_control_in no_completion reset.device }

-- `msc_setup_request_handler`, `none` where it gives `false`
unfoldable pub msc_setup_request_handler : Setup → Boot → Option Boot
msc_setup_request_handler setup b =
    if setup.request_type / 32 % 4 == 1
    then if to_host setup
      then if setup.request == 0xfe && setup.value == 0 && not (setup.length == 0)
        then some (record b { device = start_control_in (0 ∷ []) b.device })
        else none
      else if setup.request == 0xff && setup.value == 0 && setup.length == 0
      then some (msc_reset_request b)
      else none
    else none

module _ (if_reset if_cmd_status : ℕ) (status_bytes : CmdStatus → List ℕ) where
  -- `_picoboot_setup_request_handler`
  unfoldable pub picoboot_setup_request_handler : Setup → Boot → Option Boot
  picoboot_setup_request_handler setup b =
      if setup.request_type / 32 % 4 == 2
      then if to_host setup
        then if setup.request == if_cmd_status
            && setup.length == length (status_bytes b.picoboot.status)
          then some
              (record b { device = start_control_in (status_bytes b.picoboot.status) b.device })
          else none
        else if setup.request == if_reset
        then some (record b {
          device =
              start_empty_control_in no_completion
                (soft_reset picoboot_in (soft_reset picoboot_out b.device));
          picoboot = picoboot_reset b.picoboot;
        })
        else none
      else none

  -- The handler of an interface by its number
  unfoldable pub boot_handler : ℕ → Setup → Boot → Option Boot
  boot_handler num = if num == 0 then msc_setup_request_handler else picoboot_setup_request_handler

  -- As `dispatch_setup` calls it, with the rest of the state.
  abbrev pub device_handler : Boot → ℕ → Handler
  device_handler b num setup d = elim (boot_handler num setup (record b { device = d })) [
    | none ↦ none
    | some b' ↦ some b'.device
  ]

  abbrev IsBootAnsweredIf : Option Boot → Type 0
  IsBootAnsweredIf none = Unit {0}
  IsBootAnsweredIf (some b) = IsAnswered b.device
