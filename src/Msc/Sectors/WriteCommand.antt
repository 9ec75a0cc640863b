-- ===== src/Msc/Sectors/WriteCommand.antt =====
-- WRITE(10) from the command of the host to its status: usb_device_tiny/usb_msc.c with the disk of
-- bootrom/virtual_disk.c.
use pico_bootrom_crashdump.Prelude.{
  ℕ, ◌-◌, ◌*◌, ◌/◌, ◌^◌, ◌<◌, ◌≡◌, ◌∙◌, arith, true, List, [], ◌∷◌,
}
use mathlib.Core.Path.{subst}
use pico_bootrom_crashdump.Buffer.{Buffer}
use pico_bootrom_crashdump.Platform.{Sdk}
use pico_bootrom_crashdump.Uf2.{State, Uf2Block}
use pico_bootrom_crashdump.Uf2.Page.{Outcome, returns, resets}
use pico_bootrom_crashdump.Msc.{
  MscState, Csw, Cbw, dir_out, dir_none, start_sectors, send_csw, data_phase_complete,
  init_for_di_or_do, plan_data, read_or_write_blocks,
}
use pico_bootrom_crashdump.Msc.Command.{is_valid_cbw, begin_command, run_command, msc_cmd_packet}
use pico_bootrom_crashdump.Msc.Sectors.{WriteResult, going, waits, restarts}
use pico_bootrom_crashdump.Msc.Sectors.ReadCommand.{ended}
use pico_bootrom_crashdump.Msc.Sectors.Writing.{write_sectors, writing, Follows, writing-Follows}

-- A valid WRITE(10) for one block at least, and as many bytes as the host announces.
pub record IsWrite (cbw : Cbw) : Type 0 where
  pub valid : is_valid_cbw [] cbw 31 ≡ true
  pub opcode : cbw.opcode ≡ 0x2a
  pub from_host : cbw.flags ≡ 0
  pub exact : cbw.data_transfer_length ≡ cbw.blocks * 512
  pub some_blocks : 0 < cbw.blocks
  pub half_word : cbw.blocks < 2 ^ 16

-- What the disk makes of the sectors, and how the transfer ends: it goes on with the state of the disk
-- and can send its status, or the device restarts in both.
abbrev pub Ends : Csw → Outcome → WriteResult → Type 0
Ends csw (returns is_async s) (going t) =
    (t.disk ≡ s) × ((data_phase_complete t.msc).0 ≡ send_csw csw ∷ [])
Ends csw (returns is_async s) (waits t) = ⊥
Ends csw (returns is_async s) (restarts pins interfaces) = ⊥
Ends csw (resets pins interfaces) (going t) = ⊥
Ends csw (resets pins interfaces) (waits t) = ⊥
Ends csw (resets pins interfaces) (restarts pins' interfaces') =
    (pins ≡ pins') × (interfaces ≡ interfaces')

module _ (sdk : Sdk) (mask : ℕ) (uf2 : Buffer → Uf2Block)
    (sector : (a b : Buffer) → ((j : ℕ) → j < 512 → a j ≡ b j) → uf2 a ≡ uf2 b)
    (message buf : Buffer) (n : ℕ) (m : MscState) (d : State) where
  follows-Ends :
      (csw : Csw) (o : Outcome) (r : WriteResult)
      → m.stall_direction_before_csw ≡ dir_none
      → record (m.csw) { residue = m.csw.residue - 64 * (8 * n) } ≡ csw
      → Follows sdk mask uf2 sector message buf n m d (8 * n) o r
      → Ends csw o r
  follows-Ends csw (returns is_async s) (going t) e e' f =
      (f.0, ended t.msc csw (f.4 ∙ e) (f.3 ∙ e'))
  follows-Ends csw (returns is_async s) (waits t) e e' f = absurd f
  follows-Ends csw (returns is_async s) (restarts pins interfaces) e e' f = absurd f
  follows-Ends csw (resets pins interfaces) (going t) e e' f = absurd f
  follows-Ends csw (resets pins interfaces) (waits t) e e' f = absurd f
  follows-Ends csw (resets pins interfaces) (restarts pins' interfaces') e e' f = f

module _ (inquiry : List ℕ) (cbw : Cbw) (s : MscState) (w : IsWrite cbw) where
  started : MscState
  started = (msc_cmd_packet inquiry cbw 31 s).1

  begin-IsWrite :
      ((msc_cmd_packet inquiry cbw 31 s).0 ≡ start_sectors dir_out cbw.lba (cbw.blocks * 512) ∷ [])
      × (started.csw ≡ record { tag = cbw.tag; residue = cbw.blocks * 512; status = 0 })
      × (started.stall_direction_before_csw ≡ dir_none)
  unfolding started msc_cmd_packet is_valid_cbw run_command read_or_write_blocks init_for_di_or_do
      plan_data begin_command
  begin-IsWrite = ground (arith, w)

  -- A WRITE(10) of `n` blocks starts a transfer of them. When its packets have come, the disk is as if
  -- each sector had been written to it once, in order, each with the 512 bytes that the host sent and a
  -- token of its own, and the status has the tag of the command, no residue and no error; unless the
  -- writing of one of the sectors restarts the device, which the transfer then does too. The command is
  -- valid, the host announces as many bytes, and a block is read from the bytes of its sector alone.
  pub write_command-sectors :
      (sdk : Sdk) (mask : ℕ) (uf2 : Buffer → Uf2Block)
      (sector : (a b : Buffer) → ((j : ℕ) → j < 512 → a j ≡ b j) → uf2 a ≡ uf2 b)
      (message buf : Buffer) (d : State)
      → let n = cbw.blocks in
        let (actions, msc) = msc_cmd_packet inquiry cbw 31 s in
        (actions ≡ start_sectors dir_out cbw.lba (n * 512) ∷ [])
        × Ends
            (record { tag = cbw.tag; residue = 0; status = 0 })
            (write_sectors sdk mask uf2 sector message buf n msc d n)
            (writing sdk mask uf2 sector message buf n msc d (8 * n))
  unfolding started
  write_command-sectors sdk mask uf2 sector message buf d =
      let n = cbw.blocks in
      let m = (msc_cmd_packet inquiry cbw 31 s).1 in
      let follows =
        writing-Follows sdk mask uf2 sector message buf n m d (8 * n) (omega arith)
          (omega (arith, w)) (ground (arith, w, begin-IsWrite))
          (ground (arith, w, begin-IsWrite)) in
      let whole : 8 * n / 8 ≡ n = omega arith in
      (
        begin-IsWrite.0,
        follows-Ends sdk mask uf2 sector message buf n m d _
            (write_sectors sdk mask uf2 sector message buf n m d n)
            (writing sdk mask uf2 sector message buf n m d (8 * n)) begin-IsWrite.2
            (ground (arith, w, begin-IsWrite))
            (subst
              (λ (i : ℕ).
                Follows sdk mask uf2 sector message buf n m d (8 * n)
                  (write_sectors sdk mask uf2 sector message buf n m d i)
                  (writing sdk mask uf2 sector message buf n m d (8 * n)))
              whole follows),
      )
