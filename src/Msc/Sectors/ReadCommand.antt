-- ===== src/Msc/Sectors/ReadCommand.antt =====
-- READ(10) from the command of the host to its status: usb_device_tiny/usb_msc.c with the disk of
-- bootrom/virtual_disk.c.
use pico_bootrom_crashdump.Prelude.{
  ℕ, ◌+◌, ◌*◌, ◌/◌, ◌%◌, ◌^◌, ◌≤◌, ◌<◌, ◌≡◌, ap, ◌∙◌, arith, true, some, List, [], ◌∷◌,
}
use pico_bootrom_crashdump.Buffer.{Buffer}
use pico_bootrom_crashdump.Disk.Read.{Env, BootDeviceState}
use pico_bootrom_crashdump.Disk.Read.Host.{read}
use pico_bootrom_crashdump.Disk.Read.Isolation.{TextFits}
use pico_bootrom_crashdump.Stream.{Packet}
use pico_bootrom_crashdump.Msc.{
  MscState, Csw, Cbw, dir_in, dir_none, start_sectors, send_csw, data_phase_complete,
  init_for_di_or_do, plan_data, read_or_write_blocks, msc_send_csw, Step,
}
use mathlib.Core.Path.{subst}
use pico_bootrom_crashdump.Msc.Command.{is_valid_cbw, begin_command, run_command, msc_cmd_packet}
use pico_bootrom_crashdump.Msc.Sectors.{SectorTransfer, sector_transfer, read_packet, reading}
use pico_bootrom_crashdump.Msc.Sectors.Reading.{IsReading, reading-IsReading, read-packet}

-- A valid READ(10) that asks for one block at least, and for as many bytes as the host announces.
pub record IsRead (cbw : Cbw) : Type 0 where
  pub valid : is_valid_cbw [] cbw 31 ≡ true
  pub opcode : cbw.opcode ≡ 0x28
  pub to_host : cbw.flags ≡ 128
  pub exact : cbw.data_transfer_length ≡ cbw.blocks * 512
  pub some_blocks : 0 < cbw.blocks
  pub half_word : cbw.blocks < 2 ^ 16
  pub on_disk : cbw.lba + cbw.blocks * 8 < 2 ^ 32

pub ended :
    (m : MscState) (c : Csw)
    → m.stall_direction_before_csw ≡ dir_none
    → m.csw ≡ c
    → (data_phase_complete m).0 ≡ send_csw c ∷ []
unfolding data_phase_complete msc_send_csw
ended m c e e' = ground (arith, e, e')

module _ (inquiry : List ℕ) (cbw : Cbw) (s : MscState) (r : IsRead cbw) where
  started : MscState
  started = (msc_cmd_packet inquiry cbw 31 s).1

  begin-IsRead :
      msc_cmd_packet inquiry cbw 31 s
      ≡ (start_sectors dir_in cbw.lba (cbw.blocks * 512) ∷ [], started)
  unfolding started msc_cmd_packet is_valid_cbw run_command read_or_write_blocks init_for_di_or_do
      plan_data begin_command
  begin-IsRead = ground (arith, r)

  started-fields :
      (started.lba ≡ cbw.lba)
      × (started.csw ≡ record { tag = cbw.tag; residue = cbw.blocks * 512; status = 0 })
      × (started.stall_direction_before_csw ≡ dir_none)
  unfolding started msc_cmd_packet is_valid_cbw run_command read_or_write_blocks init_for_di_or_do
      plan_data begin_command
  started-fields = ground (arith, r)

  module _ (env : Env) (fits : TextFits env) (d : BootDeviceState) (buf : Buffer) where
    abbrev transfer : ℕ → SectorTransfer
    transfer len = sector_transfer buf len started d

    -- The packet `k` of a transfer has what the host reads.
    abbrev IsPacket : ℕ → SectorTransfer → Type 0
    IsPacket k t =
        (p : Packet) × ((read_packet env t).0 ≡ some p)
        × (p.data_len ≡ 64)
        × ((j : ℕ) → j < 64 → p.bytes j ≡ read env d (cbw.lba + k / 8) buf (64 * (k % 8) + j))

    before :
        (k : ℕ)
        → k ≤ 8 * cbw.blocks
        → IsReading env fits buf
            (8 * cbw.blocks)
            started
            d
            k
            (reading env (transfer (64 * (8 * cbw.blocks))) k)
    before k l =
        reading-IsReading env fits buf (8 * cbw.blocks) started d k l (omega (arith, r))
          (omega (arith, r, started-fields)) (ground (arith, r, started-fields))
          (ground (arith, r, started-fields))

    packets :
        (k : ℕ) → k < 8 * cbw.blocks → IsPacket k (reading env (transfer (64 * (8 * cbw.blocks))) k)
    packets k l =
        let t = reading env (transfer (64 * (8 * cbw.blocks))) k in
        let (p, e, len, bytes) =
          read-packet env fits buf (8 * cbw.blocks) started d k t (before k (omega arith)) l
            (omega (arith, r)) (omega (arith, r, started-fields))
            (ground (arith, r, started-fields)) (ground (arith, r, started-fields)) in
        (
          p,
          e,
          len,
          λ j h.
              bytes j h
              ∙ ap (λ (lba : ℕ). read env d (lba + k / 8) buf (64 * (k % 8) + j)) started-fields.0,
        )

    status :
        (data_phase_complete
          (reading env (transfer (64 * (8 * cbw.blocks))) (8 * cbw.blocks)).msc).0
        ≡ send_csw (record { tag = cbw.tag; residue = 0; status = 0 }) ∷ []
    status =
        let last = before (8 * cbw.blocks) (omega arith) in
        ended (reading env (transfer (64 * (8 * cbw.blocks))) (8 * cbw.blocks)).msc _
          (last.stall ∙ started-fields.2) (last.csw ∙ ground (arith, started-fields))

  -- A READ(10) of `n` blocks starts a transfer of them. Its packet `k`, of the eight for each block, has
  -- 64 bytes, those of the sector `k / 8` from the block of the command on, from the place that it has in
  -- the sector, as vd_read_block reads it then. When all are sent, the status is sent with the tag of the
  -- command, no residue and no error. The command is valid, and the host announces as many bytes.
  pub read_command-sectors :
      (env : Env) (fits : TextFits env) (d : BootDeviceState) (buf : Buffer)
      → let n = cbw.blocks in
        let (actions, msc) = msc_cmd_packet inquiry cbw 31 s in
        let t = sector_transfer buf (n * 512) msc d in
        (actions ≡ start_sectors dir_in cbw.lba (n * 512) ∷ [])
        × ((k : ℕ)
            → k < 8 * n
            → (p : Packet) × ((read_packet env (reading env t k)).0 ≡ some p)
              × (p.data_len ≡ 64)
              × ((j : ℕ)
                  → j < 64
                  → p.bytes j ≡ read env d (cbw.lba + k / 8) buf (64 * (k % 8) + j)))
        × ((data_phase_complete (reading env t (8 * n)).msc).0
            ≡ send_csw (record { tag = cbw.tag; residue = 0; status = 0 }) ∷ [])
  unfolding started
  read_command-sectors env fits d buf =
      let whole = λ (len : ℕ).
        ((k : ℕ)
          → k < 8 * cbw.blocks
          → IsPacket env fits d buf k (reading env (transfer env fits d buf len) k))
        × ((data_phase_complete (reading env (transfer env fits d buf len) (8 * cbw.blocks)).msc).0
            ≡ send_csw (record { tag = cbw.tag; residue = 0; status = 0 }) ∷ []) in
      let (sent, ends) =
        subst whole (omega arith) (packets env fits d buf, status env fits d buf) in
      (ap (λ (x : Step). x.0) begin-IsRead, sent, ends)
