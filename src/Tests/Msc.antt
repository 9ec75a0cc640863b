-- ===== src/Tests/Msc.antt =====
-- Commands to the mass storage class.
use pico_bootrom_crashdump.Prelude.{
  ℕ, ◌*◌, ◌^◌, ◌%◌, ◌≤◌, ◌<◌, ◌≡◌, ◌≢◌, ◌⊎◌, refl, arith, true, false, [], ◌∷◌, ◌++◌,
}
use pico_bootrom_crashdump.Msc.{
  dir_in, MscState, halt_in, halt_out, send_csw, respond, start_sectors, Cbw, data_phase_complete,
  on_unstall, async_complete, on_sector_chunk, agrees, init_for_di_or_do, plan_data,
  standard_response, read_or_write_blocks,
}
use pico_bootrom_crashdump.Msc.Command.{msc_cmd_packet, is_valid_cbw}
use pico_bootrom_crashdump.Msc.Phases.{sectors-bounds, status-once, chunks, async-token}
use pico_bootrom_crashdump.Msc.Eject.{eject-not_ready}

abbrev pub idle : MscState
idle = record {
  csw = record { tag = 1; residue = 100; status = 0 };
  request_sense = record { key = 0; asc = 0; ascq = 0 };
  data_phase_length = 0;
  stall_direction_before_csw = dir_in;
  send_csw_on_unstall = false;
  ejected = false;
  async_token = 5;
  lba = 0;
}

-- Two blocks to be read, of which the host takes 1000 bytes.
abbrev read_two : Cbw
read_two = record {
  signature = 0x43425355;
  tag = 7;
  data_transfer_length = 1000;
  flags = 128;
  lun = 0;
  cb_length = 10;
  opcode = 0x28;
  start_stop = 0;
  lba = 308;
  blocks = 2;
}

read_two-starts :
    read_or_write_blocks read_two dir_in idle
    ≡ (start_sectors dir_in 308 960 ∷ [], (read_or_write_blocks read_two dir_in idle).1)
unfolding read_or_write_blocks init_for_di_or_do plan_data
read_two-starts = refl

sectors-bounds_example :
    (dir_in ≡ dir_in)
    × (agrees read_two dir_in ≡ true)
    × (308 ≡ read_two.lba)
    × (960 % 64 ≡ 0)
    × (0 < 960)
    × (960 ≤ 1000)
    × (960 ≤ 2 * 512)
sectors-bounds_example =
    sectors-bounds read_two dir_in dir_in idle (read_or_write_blocks read_two dir_in idle).1 308 960
      read_two-starts

status-once_example :
    let (actions, s') = data_phase_complete idle in
    let (later, s'') = on_unstall s' in
    (actions ++ later ≡ send_csw idle.csw ∷ []
      ⊎ (actions ++ later ≡ halt_out ∷ send_csw idle.csw ∷ [])
      ⊎ ((actions ≡ halt_in ∷ []) × (later ≡ send_csw idle.csw ∷ [])))
    × ((on_unstall s'').0 ≡ [])
status-once_example = status-once idle

-- A response of which the host takes two bytes.
abbrev take_two : Cbw
take_two = record read_two { data_transfer_length = 2 }

abbrev waiting : MscState
waiting = record idle { csw = record { tag = 7; residue = 2; status = 0 } }

take_two-responds :
    standard_response take_two (3 ∷ 0 ∷ 0 ∷ 0 ∷ []) waiting
    ≡ (respond (3 ∷ 0 ∷ []) ∷ [], (standard_response take_two (3 ∷ 0 ∷ 0 ∷ 0 ∷ []) waiting).1)
unfolding standard_response init_for_di_or_do plan_data
take_two-responds = refl

abbrev error : ℕ
error = 1

async-token_example :
    let ((token, lba), last) = on_sector_chunk idle in
    (async_complete token 0 last ≡ (true, ([], last)))
    × (error ≢ 0
        → let (goes_on, (actions, s')) = async_complete token error last in
          (actions ≡ halt_out ∷ send_csw (record (idle.csw) { status = 1 }) ∷ [])
          × (s'.request_sense ≡ record { key = 7; asc = 0x20; ascq = 2 })
          × ((on_unstall s').0 ≡ []))
    × (6 < 2 ^ 32 → async_complete token error (chunks 6 last) ≡ (false, ([], chunks 6 last)))
async-token_example = async-token error 5 idle (omega arith)

abbrev eject : Cbw
eject = record read_two { opcode = 0x1b; start_stop = 2; data_transfer_length = 0 }

abbrev is_ready : Cbw
is_ready = record read_two { opcode = 0; tag = 8; data_transfer_length = 0 }

both-valid : (is_valid_cbw [] eject 31 ≡ true) × (is_valid_cbw [] is_ready 31 ≡ true)
unfolding is_valid_cbw
both-valid = (refl, refl)

ejected_not_ready :
    let ejected = (msc_cmd_packet [] eject 31 idle).1 in
    let s' = (msc_cmd_packet [] is_ready 31 ejected).1 in
    (s'.csw.status ≡ 1)
    × (s'.csw.tag ≡ 8)
    × (s'.request_sense.key ≡ 2)
    × (s'.request_sense.asc ≡ 0x3a)
ejected_not_ready =
    eject-not_ready [] eject is_ready 31 31 idle both-valid.0 refl refl both-valid.1 refl
