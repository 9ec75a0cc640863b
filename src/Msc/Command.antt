-- ===== src/Msc/Command.antt =====
-- `_msc_cmd_packet_internal` of usb_device_tiny/usb_msc.c and the handlers of the single commands.
use pico_bootrom_crashdump.Prelude.{
  ℕ, ◌-◌, ◌/◌, ◌%◌, Bool, true, not, ◌&&◌, List, [], ◌∷◌, ◌++◌, leb, ◌==◌, if◌then◌else◌,
}
use pico_bootrom_crashdump.Disk.Layout.{sector_size, sector_count}
use pico_bootrom_crashdump.Msc.{
  dir_in, dir_out, Sense, MscState, halt_both, Step, Cbw, init_for_dn, scsi_fail_cmd,
  standard_response, read_or_write_blocks,
}

-- `msc_eject`
unfoldable pub msc_eject : MscState → MscState
msc_eject s = record s { ejected = true }

-- A 32-bit number with its most significant byte first; `__builtin_bswap32`
abbrev pub be32 : ℕ → List ℕ
be32 n = n / 16777216 % 256 ∷ n / 65536 % 256 ∷ n / 256 % 256 ∷ n % 256 ∷ []

-- The response to READ CAPACITY(10)
abbrev pub capacity_response : List ℕ
capacity_response = be32 (sector_count - 1) ++ be32 sector_size

-- The response to READ FORMAT CAPACITIES; its last word has the bit of a formatted medium.
abbrev pub format_response : List ℕ
format_response = 0 ∷ 0 ∷ 0 ∷ 0 ∷ be32 (sector_count - 1) ++ (2 ∷ 0 ∷ 2 ∷ 0 ∷ [])

-- `struct scsi_request_sense_response`, with the two bytes that the reset sets.
abbrev pub sense_response : Sense → List ℕ
sense_response r =
    0x70 ∷ 0 ∷ r.key ∷ 0 ∷ 0 ∷ 0 ∷ 0 ∷ 0xa ∷ 0 ∷ 0 ∷ 0 ∷ 0 ∷ r.asc ∷ r.ascq ∷ 0 ∷ 0 ∷ 0 ∷ 0 ∷ []

abbrev pub no_sense : Sense
no_sense = record { key = 0; asc = 0; ascq = 0 }

-- `inquiry` is the response to INQUIRY that the build generates.
module _ (inquiry : List ℕ) (cbw : Cbw) where
  unfoldable pub is_valid_cbw : ℕ → Bool
  is_valid_cbw len =
      len == 31
      && (cbw.signature == 0x43425355
          && (cbw.lun == 0
              && (cbw.flags % 128 == 0 && (not (cbw.cb_length == 0) && leb cbw.cb_length 16))))

  -- The state at the start of a command.
  unfoldable pub begin_command : MscState → MscState
  begin_command s = record s {
    csw = record { tag = cbw.tag; residue = cbw.data_transfer_length; status = 0 };
    request_sense = if cbw.opcode == 3 then s.request_sense else no_sense;
  }

  unfoldable pub test_unit_ready : MscState → Step
  test_unit_ready s = if s.ejected then scsi_fail_cmd cbw 2 0x3a 0 s else init_for_dn cbw s

  unfoldable pub start_stop_unit : MscState → Step
  start_stop_unit s = init_for_dn cbw (if cbw.start_stop % 4 == 2 then msc_eject s else s)

  unfoldable pub request_sense_command : MscState → Step
  request_sense_command s =
      standard_response cbw (sense_response s.request_sense) (record s { request_sense = no_sense })

  -- The `switch` over the commands.
  unfoldable pub run_command : MscState → Step
  run_command s =
      if cbw.opcode == 0x12
      then standard_response cbw inquiry s
      else if cbw.opcode == 0x1a
      then standard_response cbw (3 ∷ 0 ∷ 0 ∷ 0 ∷ []) s
      else if cbw.opcode == 0x1e
      then init_for_dn cbw s
      else if cbw.opcode == 0x28
      then read_or_write_blocks cbw dir_in s
      else if cbw.opcode == 0x2a
      then read_or_write_blocks cbw dir_out s
      else if cbw.opcode == 0x23
      then standard_response cbw format_response s
      else if cbw.opcode == 0x25
      then standard_response cbw capacity_response s
      else if cbw.opcode == 0x03
      then request_sense_command s
      else if cbw.opcode == 0x00
      then test_unit_ready s
      else if cbw.opcode == 0x1b
      then start_stop_unit s
      else if cbw.opcode == 0x35
      then init_for_dn cbw s
      else if cbw.opcode == 0x2f
      then init_for_dn cbw s
      else scsi_fail_cmd cbw 5 0x20 0 s

  unfoldable pub msc_cmd_packet : ℕ → MscState → Step
  msc_cmd_packet len s =
      if is_valid_cbw len then run_command (begin_command s) else (halt_both ∷ [], s)
