-- ===== src/Boot.antt =====
-- The set-up of the boot device in bootrom/usb_boot_device.c, with usb_interface_init of
-- usb_device_tiny/usb_device.c: the descriptors that the host reads, the choice of interfaces, and the
-- serial number. Descriptors are lists of bytes.
pub mod Config
pub mod Serial
pub mod Clocks
pub mod Reboot
pub mod Restart
use pico_bootrom_crashdump.Prelude.{
  ℕ, zero, suc, ◌+◌, ◌-◌, ◌*◌, ◌/◌, ◌%◌, ◌^◌, Bool, true, false, Option, none, some, List, [], ◌∷◌,
  ◌++◌, ltb, ◌==◌, if◌then◌else◌, length, get_or, set, take, drop,
}
use pico_bootrom_crashdump.Device.{Endpoint, endpoint_init}

-- `struct usb_configuration_descriptor` of the boot device, with its length and number of interfaces
abbrev pub config_desc : ℕ → ℕ → List ℕ
config_desc total interfaces =
    9 ∷ 0x02 ∷ total % 256 ∷ total / 256 ∷ interfaces ∷ 0x01 ∷ 0x00 ∷ 0x80 ∷ 0xfa ∷ []

-- `struct usb_simple_interface_descriptor`: an interface with the two endpoints of given addresses
abbrev pub interface_desc : ℕ → ℕ → ℕ → ℕ → ℕ → ℕ → List ℕ
interface_desc number class subclass protocol ep1 ep2 =
    9 ∷ 0x04 ∷ number ∷ 0x00 ∷ 0x02 ∷ class ∷ subclass ∷ protocol ∷ 0x00 ∷ 0x07 ∷ 0x05 ∷ ep1 ∷ 0x02
    ∷ 0x40 ∷ 0x00 ∷ 0x00 ∷ 0x07 ∷ 0x05 ∷ ep2 ∷ 0x02 ∷ 0x40 ∷ 0x00 ∷ 0x00 ∷ []

abbrev pub simple_interface_size : ℕ
simple_interface_size = 23

abbrev pub boot_device_config : List ℕ
boot_device_config =
    config_desc (9 + 2 * simple_interface_size) 2
    ++ interface_desc 0 0x08 0x06 0x50 0x81 0x02
    ++ interface_desc 1 0xff 0x00 0x00 0x03 0x84

-- `usb_next_descriptor` from an offset; `none` when the fuel is used up.
unfoldable pub usb_next_descriptor : ℕ → List ℕ → ℕ → ℕ → Option ℕ
usb_next_descriptor zero bytes at type = none
usb_next_descriptor (suc fuel) bytes at type =
    let next = at + get_or bytes at 0 in
    let rest = usb_next_descriptor fuel bytes next type in
    if get_or bytes (next + 1) 0 == type then some next else rest

-- The loop of `usb_interface_init`, with the endpoints that are still to be found.
unfoldable pub init_endpoints : ℕ → List ℕ → ℕ → Bool → Option (List Endpoint)
init_endpoints zero bytes p double_buffered = some []
init_endpoints (suc count) bytes p double_buffered =
    elim (usb_next_descriptor (length bytes) bytes p 0x05) [
      | none ↦ none
      | some at ↦
          let address = get_or bytes (at + 2) 0 in
          let size = get_or bytes (at + 4) 0 + 256 * get_or bytes (at + 5) 0 in
          elim (init_endpoints count bytes at double_buffered) [
            | none ↦ none
            | some eps ↦
                some
                  (endpoint_init address (address / 128 % 2 == 1) size double_buffered false ∷ eps)
          ]
    ]

pub data Interface : Type 0 where
  msd_interface picoboot_interface : Interface

-- What `usb_boot_device_init` sets up: the configuration that the host reads, the endpoints of each
-- interface, `none` if it is not initialized, and the interfaces that are passed to `usb_device_init`.
-- The build has USB_FIXED_INTERFACE_COUNT, so that the device itself takes two for each. The disk gets
-- its default transfer later, in msc_on_configure.
pub record BootSetup : Type 0 where
  pub config : List ℕ
  pub msc_endpoints : Option (List Endpoint)
  pub picoboot_endpoints : Option (List Endpoint)
  pub interfaces : List Interface

-- `_single_interface_config`
unfoldable pub single_interface_config : ℕ → List ℕ
single_interface_config mask =
    let copy = take (9 + simple_interface_size) boot_device_config in
    let sized = set (set copy 2 (9 + simple_interface_size)) 3 0 in
    let chosen =
      if mask % 2 == 1
      then take 9 sized
        ++ take simple_interface_size (drop (9 + simple_interface_size) boot_device_config)
      else sized in
    set (set chosen 4 1) (9 + 2) 0

abbrev pub set_default_transfer : List Endpoint → List Endpoint
set_default_transfer [] = []
set_default_transfer (ep ∷ eps) = record ep { has_default = true } ∷ eps

-- `usb_boot_device_init`
unfoldable pub usb_boot_device_init : ℕ → BootSetup
usb_boot_device_init disable_interface_mask =
    let mask = if disable_interface_mask % 4 == 3 then 0 else disable_interface_mask in
    let config = if mask == 0 then boot_device_config else single_interface_config mask in
    let picoboot_interface_num = if mask % 2 == 1 then 0 else 1 in
    record {
      config = config;
      msc_endpoints = if mask % 2 == 1 then none else init_endpoints 2 config 9 true;
      picoboot_endpoints =
          if mask / 2 % 2 == 1
          then none
          else elim (init_endpoints 2 config (9 + picoboot_interface_num * simple_interface_size)
              true) [ none ↦ none | some eps ↦ some (set_default_transfer eps) ];
      interfaces =
          let from = if mask == 1 then 1 else 0 in
          take (if mask == 0 then 2 else 1) (drop from (msd_interface ∷ picoboot_interface ∷ []));
    }

-- `to_hex_digit`
unfoldable pub to_hex_digit : ℕ → ℕ
to_hex_digit x = if ltb x 10 then b'0' + x else b'A' + x - 10

-- A round of the loop of `_write_six_msb_hex_chars`, and those behind it.
unfoldable pub write_hex_chars : ℕ → ℕ → List ℕ
write_hex_chars zero val = []
write_hex_chars (suc n) val = to_hex_digit (val / 2 ^ 28) ∷ write_hex_chars n (val * 16 % 2 ^ 32)

abbrev pub write_six_msb_hex_chars : ℕ → List ℕ
write_six_msb_hex_chars val = write_hex_chars 6 val

-- `serial_number_string` from the revisions of the chip and of the software
unfoldable pub serial_number_string : ℕ → ℕ → List ℕ
serial_number_string gitref software_git_revision =
    write_six_msb_hex_chars gitref ++ write_six_msb_hex_chars software_git_revision
