-- ===== src/Boot/Config.antt =====
-- What the host reads of the boot device of bootrom/usb_boot_device.c, and what is set up for it.
use pico_bootrom_crashdump.Prelude.{
  ℕ, zero, suc, ◌+◌, ◌*◌, ◌%◌, ◌<◌, ◌≡◌, ◌⊎◌, inl, inr, refl, sym, Option, none, some, List, [],
  ◌∷◌, ◌++◌, arith, ◌==◌, if◌then◌else◌, length, get_or, drop,
}
use mathlib.Core.Path.{subst}
use pico_bootrom_crashdump.Device.{Endpoint}
use pico_bootrom_crashdump.Boot.{
  usb_next_descriptor, init_endpoints, Interface, msd_interface, picoboot_interface, BootSetup,
  single_interface_config, usb_boot_device_init,
}

-- A descriptor as the host reads it.
pub data Read : Type 0 where
  configuration : (total interfaces : ℕ) → Read
  interface : (number endpoints class : ℕ) → Read
  endpoint : (address max_packet_size : ℕ) → Read
  unknown : Read

abbrev pub read_descriptor : List ℕ → Read
read_descriptor bytes =
    let byte = λ (k : ℕ). get_or bytes k 0 in
    if byte 1 == 2
    then configuration (byte 2 + 256 * byte 3) (byte 4)
    else if byte 1 == 4
    then interface (byte 2) (byte 4) (byte 5)
    else if byte 1 == 5
    then endpoint (byte 2) (byte 4 + 256 * byte 5)
    else unknown

-- The descriptors one behind the other, as many as are asked for.
abbrev pub read_descriptors : ℕ → List ℕ → List Read
read_descriptors zero bytes = []
read_descriptors (suc n) bytes =
    read_descriptor bytes ∷ read_descriptors n (drop (get_or bytes 0 0) bytes)

abbrev pub class : Interface → ℕ
class msd_interface = 0x08
class picoboot_interface = 0xff

abbrev pub read_endpoints : Option (List Endpoint) → List Read
read_endpoints none = []
read_endpoints (some []) = []
read_endpoints (some (ep ∷ eps)) = endpoint ep.address ep.buffer_size ∷ read_endpoints (some eps)

-- The descriptors of interfaces, numbered from `n` on, with their endpoints as they are set up.
abbrev pub described : BootSetup → ℕ → List Interface → List Read
described s n [] = []
described s n (msd_interface ∷ is) =
    (interface n 2 (class msd_interface) ∷ read_endpoints s.msc_endpoints) ++ described s (suc n) is
described s n (picoboot_interface ∷ is) =
    (interface n 2 (class picoboot_interface) ∷ read_endpoints s.picoboot_endpoints)
    ++ described s (suc n) is

-- The host reads a configuration of as many bytes as there are, with the interfaces of the device in
-- their order, numbered from 0, and with their endpoints.
abbrev pub IsConsistent : BootSetup → Type 0
IsConsistent s =
    let interfaces = length s.interfaces in
    read_descriptors (1 + 3 * interfaces) s.config
    ≡ configuration (length s.config) interfaces ∷ described s 0 s.interfaces

-- The interfaces that the bits of the mask leave; all of them if it disables all.
abbrev pub enabled : ℕ → List Interface
enabled mask =
    if mask % 4 == 1
    then picoboot_interface ∷ []
    else if mask % 4 == 2
    then msd_interface ∷ []
    else msd_interface ∷ picoboot_interface ∷ []

below_four : (mask : ℕ) → mask < 4 → (mask ≡ 0) ⊎ (mask ≡ 1) ⊎ (mask ≡ 2) ⊎ (mask ≡ 3)
below_four mask l = ground arith

-- The device has the interfaces that the mask leaves, as the host reads them.
abbrev pub IsSetUpFor : ℕ → BootSetup → Type 0
IsSetUpFor mask s = IsConsistent s × (s.interfaces ≡ enabled mask)

-- Each of the four masks is a computation.
all-IsSetUpFor :
    IsSetUpFor 0 (usb_boot_device_init 0)
    × IsSetUpFor 1 (usb_boot_device_init 1)
    × IsSetUpFor 2 (usb_boot_device_init 2)
    × IsSetUpFor 3 (usb_boot_device_init 3)
unfolding usb_boot_device_init single_interface_config init_endpoints usb_next_descriptor
all-IsSetUpFor = ((refl, refl), (refl, refl), (refl, refl), (refl, refl))

-- Whatever interfaces a mask of two bits disables, the device has the others, or both if it disables
-- both. The host reads a configuration of as many bytes as there are, which describes them in their
-- order, numbered from 0, with the endpoints that are set up for each.
pub init-IsSetUpFor : (mask : ℕ) → mask < 4 → IsSetUpFor mask (usb_boot_device_init mask)
init-IsSetUpFor mask l =
    let (zero_set, one_set, two_set, both_set) = all-IsSetUpFor in
    let moved = λ (m : ℕ) (e : m ≡ mask) (h : IsSetUpFor m (usb_boot_device_init m)).
      subst (λ (k : ℕ). IsSetUpFor k (usb_boot_device_init k)) e h in
    elim (below_four mask l) [
      | inl e ↦ moved 0 (sym e) zero_set
      | inr (inl e) ↦ moved 1 (sym e) one_set
      | inr (inr (inl e)) ↦ moved 2 (sym e) two_set
      | inr (inr (inr e)) ↦ moved 3 (sym e) both_set
    ]

-- With a bit beyond those two, the device of interface 1 is given the other one.
pub five-interfaces : (usb_boot_device_init 5).interfaces ≡ msd_interface ∷ []
unfolding usb_boot_device_init
five-interfaces = refl

pub five-msc_endpoints : (usb_boot_device_init 5).msc_endpoints ≡ none
unfolding usb_boot_device_init
five-msc_endpoints = refl
