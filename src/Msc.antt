-- ===== src/Msc.antt =====
-- The mass storage class, usb_device_tiny/usb_msc.c: the SCSI commands of the host, their data phase
-- and their status. A function gives what is done on the two endpoints, in order, and the new state.
pub mod Command
pub mod Phases
pub mod Eject
pub mod Sectors
use pico_bootrom_crashdump.Prelude.{
  ℕ, ◌+◌, ◌-◌, ◌*◌, ◌/◌, ◌%◌, ◌^◌, min, Bool, true, false, not, ◌&&◌, ◌||◌, List, [], ◌∷◌, ◌++◌,
  length, take, ltb, leb, ◌==◌, if◌then◌else◌,
}
use pico_bootrom_crashdump.Buffer.{le32}
use pico_bootrom_crashdump.Task.Execute.{add32, sub32}
use pico_bootrom_crashdump.Disk.Layout.{sector_size, sector_count}

-- `enum scsi_direction`
pub data Direction : Type 0 where
  dir_none dir_in dir_out : Direction

-- `struct scsi_csw` without its signature
pub record Csw : Type 0 where
  pub tag : ℕ
  pub residue : ℕ
  pub status : ℕ

-- What varies of `struct scsi_request_sense_response`
pub record Sense : Type 0 where
  pub key : ℕ
  pub asc : ℕ
  pub ascq : ℕ

-- `_msc_state`, `_msc_async_token`, and the block number of `_msc_sector_transfer`.
pub record MscState : Type 0 where
  pub csw : Csw
  pub request_sense : Sense
  pub data_phase_length : ℕ
  pub stall_direction_before_csw : Direction
  pub send_csw_on_unstall : Bool
  pub ejected : Bool
  pub async_token : ℕ
  pub lba : ℕ

-- What is done on the endpoints: one is halted, the status or a response is sent, a transfer of
-- sectors begins, or the command is invalid and both are halted until a reset.
pub data Action : Type 0 where
  halt_in halt_out halt_both : Action
  send_csw : Csw → Action
  respond : List ℕ → Action
  start_sectors : Direction → ℕ → ℕ → Action

abbrev pub Step : Type 0
Step = List Action × MscState

-- What is read of `struct scsi_cbw`; the address and count of blocks are those of `scsi_read_cb`.
pub record Cbw : Type 0 where
  pub signature : ℕ
  pub tag : ℕ
  pub data_transfer_length : ℕ
  pub flags : ℕ
  pub lun : ℕ
  pub cb_length : ℕ
  pub opcode : ℕ
  pub start_stop : ℕ
  pub lba : ℕ
  pub blocks : ℕ

-- `_msc_send_csw`
unfoldable pub msc_send_csw : MscState → Step
msc_send_csw s = (send_csw s.csw ∷ [], record s { send_csw_on_unstall = false })

-- `_msc_set_csw_failed`
unfoldable pub set_csw_failed : ℕ → ℕ → ℕ → MscState → MscState
set_csw_failed key asc ascq s = record s {
  csw = record (s.csw) { status = 1 };
  request_sense = record { key = key; asc = asc; ascq = ascq };
}

-- `_msc_data_phase_complete`
unfoldable pub data_phase_complete : MscState → Step
data_phase_complete s = elim s.stall_direction_before_csw [
  | dir_in ↦
      (halt_in ∷ [], record s { stall_direction_before_csw = dir_none; send_csw_on_unstall = true })
  | dir_out ↦
      let (actions, s') = msc_send_csw (record s { stall_direction_before_csw = dir_none }) in
      (halt_out ∷ actions, s')
  | dir_none ↦ msc_send_csw s
]

-- `_msc_in_on_stall_change` for the IN endpoint
unfoldable pub on_unstall : MscState → Step
on_unstall s = if s.send_csw_on_unstall then msc_send_csw s else ([], s)

-- `vd_async_complete`, up to the stream's next packet: whether the stream goes on.
unfoldable pub async_complete : ℕ → ℕ → MscState → Bool × Step
async_complete token result s =
    if token == s.async_token
    then (if result == 0 then (true, ([], s)) else (
      true,
      data_phase_complete
          (record (set_csw_failed 7 0x20 2 s) { stall_direction_before_csw = dir_out }),
    ))
    else (false, ([], s))

-- `_msc_on_sector_stream_chunk`: the block that is read or written, with its token.
unfoldable pub on_sector_chunk : MscState → (ℕ × ℕ) × MscState
on_sector_chunk s =
    let token = add32 s.async_token 1 in
    ((token, s.lba), record s { async_token = token; lba = add32 s.lba 1 })

-- `_msc_on_sector_stream_packet_complete`
unfoldable pub on_sector_packet : MscState → MscState
on_sector_packet s = record s { csw = record (s.csw) { residue = sub32 s.csw.residue 64 } }

module _ (cbw : Cbw) where
  -- `_scsi_dir`
  unfoldable pub scsi_dir : Direction
  scsi_dir = if leb 128 cbw.flags then dir_in else dir_out

  -- `cbw_dir == dir`
  abbrev pub agrees : Direction → Bool
  agrees dir_in = leb 128 cbw.flags
  agrees dir_out = not (leb 128 cbw.flags)
  agrees dir_none = false

  -- `_msc_init_for_dn`
  unfoldable pub init_for_dn : MscState → Step
  init_for_dn s = data_phase_complete (record s {
    stall_direction_before_csw = if cbw.data_transfer_length == 0 then dir_none else scsi_dir;
  })

  -- The tests of `_msc_init_for_di_or_do`; a transfer in direction `dir`, of what the command has.
  unfoldable pub plan_data : ℕ → Direction → MscState → MscState
  plan_data expected dir s =
      if not (agrees dir)
      then record s {
        stall_direction_before_csw = scsi_dir;
        data_phase_length = 0;
        csw = record (s.csw) { status = 2 };
      }
      else record s {
        stall_direction_before_csw =
            if not (expected == cbw.data_transfer_length) then dir else dir_none;
        data_phase_length = min expected cbw.data_transfer_length;
        csw = record (s.csw) {
          status = if ltb cbw.data_transfer_length expected then 2 else s.csw.status;
        };
      }

  -- `_msc_init_for_di_or_do`, followed by the data phase if there is one.
  unfoldable pub init_for_di_or_do : ℕ → Direction → (MscState → Step) → MscState → Step
  init_for_di_or_do expected dir data_phase s =
      let planned = plan_data expected dir s in
      if planned.data_phase_length == 0 then data_phase_complete planned else data_phase planned

  -- `_scsi_fail_cmd`
  unfoldable pub scsi_fail_cmd : ℕ → ℕ → ℕ → MscState → Step
  scsi_fail_cmd key asc ascq s = init_for_dn (set_csw_failed key asc ascq s)

  -- `_scsi_standard_response` to a response in the buffer
  unfoldable pub standard_response : List ℕ → MscState → Step
  standard_response bytes =
      init_for_di_or_do (min (length bytes) cbw.data_transfer_length) dir_in (λ s. (
        respond (take s.data_phase_length bytes) ∷ [],
        record s { csw = record (s.csw) { residue = sub32 s.csw.residue s.data_phase_length } },
      ))

  -- `_scsi_read_or_write_blocks`
  unfoldable pub read_or_write_blocks : Direction → MscState → Step
  read_or_write_blocks dir s =
      init_for_di_or_do (cbw.blocks * sector_size) dir
        (λ t.
          let packets = t.data_phase_length / 64 in
          if packets == 0 then data_phase_complete t else (
            start_sectors dir cbw.lba (packets * 64) ∷ [],
            record t { async_token = add32 t.async_token 1 },
          ))
        (record s { lba = cbw.lba })
