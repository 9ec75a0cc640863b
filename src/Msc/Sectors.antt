-- ===== src/Msc/Sectors.antt =====
-- The sectors that the host reads and writes: the stream of usb_device_tiny/usb_stream_helper.c with
-- the callbacks of usb_device_tiny/usb_msc.c, which read and write blocks of the disk of
-- bootrom/virtual_disk.c.
pub mod Reading
pub mod ReadCommand
pub mod Dump
pub mod Writing
pub mod WriteCommand
use pico_bootrom_crashdump.Prelude.{
  ℕ, zero, suc, Bool, true, false, Option, none, some, ◌==◌, if◌then◌else◌,
}
use pico_bootrom_crashdump.Buffer.{Buffer}
use pico_bootrom_crashdump.Disk.Layout.{sector_size}
use pico_bootrom_crashdump.Disk.Read.{Env, BootDeviceState, vd_read_block}
use pico_bootrom_crashdump.Stream.{
  Stream, Packet, setup_transfer, in_chunk_len, in_complete, out_packet, out_complete,
}
use pico_bootrom_crashdump.Platform.{Sdk}
use pico_bootrom_crashdump.Uf2.{State, Uf2Block}
use pico_bootrom_crashdump.Uf2.Page.{Outcome, returns, resets, vd_write_block}
use pico_bootrom_crashdump.Msc.{MscState, on_sector_chunk, on_sector_packet}

-- `_msc_sector_transfer` with `_sector_buf`, and the state of the class and of the disk.
pub record SectorTransfer : Type 0 where
  pub stream : Stream
  pub msc : MscState
  pub disk : BootDeviceState

-- The transfer that `_scsi_read_or_write_blocks` sets up, with what was in the buffer.
abbrev pub sector_transfer : Buffer → ℕ → MscState → BootDeviceState → SectorTransfer
sector_transfer buf len msc disk = record {
  stream = (setup_transfer buf sector_size len).0;
  msc = msc;
  disk = disk;
}

module _ (env : Env) where
  -- `_msc_on_sector_stream_chunk` of a transfer to the host: whether the block comes later.
  unfoldable pub on_read_chunk : SectorTransfer → Bool × SectorTransfer
  on_read_chunk t =
      let ((token, lba), msc) = on_sector_chunk t.msc in
      let (is_async, buf, disk) = vd_read_block env t.disk lba t.stream.chunk_buffer in
      (
        is_async,
        record t { stream = record (t.stream) { chunk_buffer = buf }; msc = msc; disk = disk },
      )

  -- `_usb_stream_packet_packet_handler` on the IN endpoint, with
  -- `usb_stream_packet_handler_complete`: the packet, `none` if its block comes later.
  unfoldable pub read_packet : SectorTransfer → Option Packet × SectorTransfer
  read_packet t =
      let (is_async, loaded) = if in_chunk_len t.stream == 0 then (false, t) else on_read_chunk t in
      let (packet, stream) = in_complete loaded.stream in
      if is_async
      then (none, loaded)
      else (some packet, record loaded { stream = stream; msc = on_sector_packet loaded.msc })

  -- The transfer before its packet `k`.
  unfoldable pub reading : SectorTransfer → ℕ → SectorTransfer
  reading t zero = t
  reading t (suc k) = (read_packet (reading t k)).1

-- The same for blocks that the host writes, with the state of the disk that they change.
pub record WriteTransfer : Type 0 where
  pub stream : Stream
  pub msc : MscState
  pub disk : State

-- A packet is done, waits for its block to be written, or restarts the device.
pub data WriteResult : Type 0 where
  going : WriteTransfer → WriteResult
  waits : WriteTransfer → WriteResult
  restarts : ℕ → ℕ → WriteResult

-- `usb_stream_packet_handler_complete` on the OUT endpoint
abbrev pub complete_write : Packet → WriteTransfer → WriteTransfer
complete_write p t = record t { stream = out_complete p t.stream; msc = on_sector_packet t.msc }

-- `uf2` reads a block as the header boot/uf2.h lays it out.
module _ (sdk : Sdk) (mask : ℕ) (uf2 : Buffer → Uf2Block) where
  -- `_msc_on_sector_stream_chunk` of a transfer from the host
  unfoldable pub on_write_chunk : WriteTransfer → WriteResult
  on_write_chunk t =
      let ((token, lba), msc) = on_sector_chunk t.msc in
      elim (vd_write_block sdk mask (uf2 t.stream.chunk_buffer) token t.disk) [
        | returns is_async disk ↦
            let t' = record t { msc = msc; disk = disk } in if is_async then waits t' else going t'
        | resets pins interfaces ↦ restarts pins interfaces
      ]

  -- `_usb_stream_packet_packet_handler` on the OUT endpoint
  unfoldable pub write_packet : Packet → WriteTransfer → WriteResult
  write_packet p t =
      let (chunk_len, stream) = out_packet p t.stream in
      let filled = record t { stream = stream } in
      if chunk_len == 0 then going (complete_write p filled) else elim (on_write_chunk filled) [
        | going t' ↦ going (complete_write p t')
        | waits t' ↦ waits t'
        | restarts pins interfaces ↦ restarts pins interfaces
      ]

  abbrev pub write_next : Packet → WriteResult → WriteResult
  write_next p (going t) = write_packet p t
  write_next p (waits t) = waits t
  write_next p (restarts pins interfaces) = restarts pins interfaces
