-- ===== src/Boot/Serial.antt =====
-- The serial number of the boot device, bootrom/usb_boot_device.c.
use pico_bootrom_crashdump.Prelude.{
  ℕ, ◌+◌, ◌-◌, ◌*◌, ◌/◌, ◌%◌, ◌^◌, ◌<◌, ◌≡◌, List, [], ◌∷◌, arith, ltb, if◌then◌else◌,
}
use pico_bootrom_crashdump.Boot.{to_hex_digit, write_hex_chars, write_six_msb_hex_chars}

abbrev pub hex_value : ℕ → ℕ
hex_value c = if ltb c b'A' then c - b'0' else c - b'A' + 10

abbrev pub read_hex : List ℕ → ℕ → ℕ
read_hex [] acc = acc
read_hex (c ∷ cs) acc = read_hex cs (acc * 16 + hex_value c)

hex_value-digit : (x : ℕ) → x < 16 → hex_value (to_hex_digit x) ≡ x
unfolding to_hex_digit
hex_value-digit x l = ground arith

-- The six digits of a 32-bit number are read back as its upper 24 bits.
pub read_hex-write : (val : ℕ) → val < 2 ^ 32 → read_hex (write_six_msb_hex_chars val) 0 ≡ val / 256
unfolding write_hex_chars
read_hex-write val l =
    let v1 = val * 16 % 2 ^ 32 in
    let v2 = v1 * 16 % 2 ^ 32 in
    let v3 = v2 * 16 % 2 ^ 32 in
    let v4 = v3 * 16 % 2 ^ 32 in
    let v5 = v4 * 16 % 2 ^ 32 in
    omega (
      arith,
      hex_value-digit (val / 2 ^ 28) (omega arith),
      hex_value-digit (v1 / 2 ^ 28) (omega arith),
      hex_value-digit (v2 / 2 ^ 28) (omega arith),
      hex_value-digit (v3 / 2 ^ 28) (omega arith),
      hex_value-digit (v4 / 2 ^ 28) (omega arith),
      hex_value-digit (v5 / 2 ^ 28) (omega arith),
    )
