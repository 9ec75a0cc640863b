-- ===== src/Msc/Sectors/Reading.antt =====
-- The packets of sectors that the host reads.
use pico_bootrom_crashdump.Prelude.{
  ℕ, zero, suc, ◌+◌, ◌-◌, ◌*◌, ◌/◌, ◌%◌, ◌^◌, ◌≤◌, ◌<◌, ◌≡◌, refl, ap, ◌∙◌, arith, true, false,
  some, Option, ◌==◌, if◌then◌else◌,
}
use pico_bootrom_crashdump.Buffer.{Buffer}
use pico_bootrom_crashdump.Disk.Read.{Env, BootDeviceState, msc_get_serial_number32}
use pico_bootrom_crashdump.Disk.Read.Host.{read}
use pico_bootrom_crashdump.Disk.Read.Isolation.{TextFits, read_isolated, read_same, read-serial}
use pico_bootrom_crashdump.Stream.{Packet, setup_transfer, chunk_offset, in_chunk_len, in_complete}
use pico_bootrom_crashdump.Msc.{MscState, on_sector_chunk, on_sector_packet}
use pico_bootrom_crashdump.Msc.Sectors.{
  SectorTransfer, sector_transfer, on_read_chunk, read_packet, reading,
}

-- The number that the disk shows as its serial number.
abbrev pub serial : Env → BootDeviceState → ℕ
serial env s = (msc_get_serial_number32 env.time_us s).0

module _ (env : Env) (fits : TextFits env) (buf : Buffer) (n : ℕ) (m : MscState)
    (d : BootDeviceState) where
  -- The transfer before its packet `k`, of `n` packets.
  pub record IsReading (k : ℕ) (t : SectorTransfer) : Type 0 where
    pub offset : t.stream.offset ≡ 64 * k
    pub transfer_length : t.stream.transfer_length ≡ 64 * n
    pub chunk_size : t.stream.chunk_size ≡ 512
    pub lba : t.msc.lba ≡ m.lba + (k + 7) / 8
    pub csw : t.msc.csw ≡ record (m.csw) { residue = m.csw.residue - 64 * k }
    pub stall : t.msc.stall_direction_before_csw ≡ m.stall_direction_before_csw
    pub same_serial : serial env t.disk ≡ serial env d
    pub filled :
        (j : ℕ) → 0 < k % 8 → j < 512 → t.stream.chunk_buffer j ≡ read env d (m.lba + k / 8) buf j

  start-IsReading : IsReading 0 (sector_transfer buf (64 * n) m d)
  unfolding setup_transfer
  start-IsReading = record {
    offset = refl;
    transfer_length = refl;
    chunk_size = refl;
    lba = omega arith;
    csw = ground arith;
    stall = refl;
    same_serial = refl;
    filled = λ j p q. absurd (omega arith);
  }

  -- The packet `k`, and the transfer behind it.
  module _ (k : ℕ) (t : SectorTransfer) (r : IsReading k t) (more : k < n) (small : 64 * n < 2 ^ 31)
      (far : m.lba + n < 2 ^ 32) (word : m.csw.residue < 2 ^ 32)
      (rest : 64 * n ≤ m.csw.residue) where
    abbrev loaded : SectorTransfer
    loaded = if k % 8 == 0 then (on_read_chunk env t).1 else t

    chunk_len : (in_chunk_len t.stream == 0) ≡ (if k % 8 == 0 then false else true)
    unfolding in_chunk_len chunk_offset
    chunk_len = ground (arith, r)

    chunk_async : (on_read_chunk env t).0 ≡ false
    unfolding on_read_chunk on_sector_chunk
    chunk_async =
        (read_isolated env fits.chain t.disk t.msc.lba t.stream.chunk_buffer buf (λ _. fits)).0

    read_packet_lem : read_packet env t ≡ (
      some (in_complete loaded.stream).0,
      record loaded { stream = (in_complete loaded.stream).1; msc = on_sector_packet loaded.msc },
    )
    unfolding read_packet
    read_packet_lem = ground (arith, chunk_len, chunk_async)

    loaded-stream : loaded.stream ≡ record (t.stream) { chunk_buffer = loaded.stream.chunk_buffer }
    unfolding on_read_chunk
    loaded-stream = ground arith

    -- The sector that is read is the next one.
    chunk_read :
        (j : ℕ)
        → j < 512
        → k % 8 ≡ 0
        → (on_read_chunk env t).1.stream.chunk_buffer j ≡ read env d (m.lba + k / 8) buf j
    unfolding on_read_chunk on_sector_chunk
    chunk_read j h first =
        read_same env fits.chain t.disk d t.msc.lba t.stream.chunk_buffer buf j fits r.same_serial h
        ∙ ap (λ (lba : ℕ). read env d lba buf j) (omega (arith, r.lba))

    loaded-filled :
        (j : ℕ) → j < 512 → loaded.stream.chunk_buffer j ≡ read env d (m.lba + k / 8) buf j
    loaded-filled j h = ground (arith, chunk_read j h, r.filled j)

    loaded-lba : loaded.msc.lba ≡ m.lba + (k + 8) / 8
    unfolding on_read_chunk on_sector_chunk
    loaded-lba = ground (arith, r)

    loaded-csw : loaded.msc.csw ≡ t.msc.csw
    unfolding on_read_chunk on_sector_chunk
    loaded-csw = ground arith

    loaded-stall : loaded.msc.stall_direction_before_csw ≡ t.msc.stall_direction_before_csw
    unfolding on_read_chunk on_sector_chunk
    loaded-stall = ground arith

    loaded-serial : serial env loaded.disk ≡ serial env d
    unfolding on_read_chunk on_sector_chunk
    loaded-serial =
        ground
          (arith, r.same_serial, read-serial env fits.chain t.disk t.msc.lba t.stream.chunk_buffer)

    at : (j : ℕ) → chunk_offset loaded.stream + j ≡ 64 * (k % 8) + j
    unfolding chunk_offset
    at j = ground (arith, r, loaded-stream)

    -- The packet has the bytes of the sector from its offset on.
    pub read-packet :
        (p : Packet) × ((read_packet env t).0 ≡ some p)
        × (p.data_len ≡ 64)
        × ((j : ℕ) → j < 64 → p.bytes j ≡ read env d (m.lba + k / 8) buf (64 * (k % 8) + j))
    unfolding in_complete chunk_offset
    read-packet = (
      (in_complete loaded.stream).0,
      ap (λ (x : Option Packet × SectorTransfer). x.0) read_packet_lem,
      ground (arith, r, loaded-stream),
      λ j h. ap loaded.stream.chunk_buffer (at j) ∙ loaded-filled (64 * (k % 8) + j) (omega arith),
    )

    pub next-IsReading : IsReading (suc k) (read_packet env t).1
    unfolding in_complete on_sector_packet
    next-IsReading = rw read_packet_lem (record {
      offset = ground (arith, r, loaded-stream);
      transfer_length = ground (arith, r, loaded-stream);
      chunk_size = ground (arith, r, loaded-stream);
      lba = omega (arith, loaded-lba);
      csw = ground (arith, r, loaded-csw);
      stall = loaded-stall ∙ r.stall;
      same_serial = loaded-serial;
      filled = λ j p h. loaded-filled j h ∙ ap (λ (lba : ℕ). read env d lba buf j) (omega arith);
    })

  pub reading-IsReading :
      (k : ℕ)
      → k ≤ n
      → 64 * n < 2 ^ 31
      → m.lba + n < 2 ^ 32
      → m.csw.residue < 2 ^ 32
      → 64 * n ≤ m.csw.residue
      → IsReading k (reading env (sector_transfer buf (64 * n) m d) k)
  unfolding reading
  reading-IsReading zero l small far word rest = start-IsReading
  reading-IsReading (suc k) l small far word rest =
      next-IsReading k (reading env (sector_transfer buf (64 * n) m d) k)
        (reading-IsReading k (omega arith) small far word rest) (omega arith) small far word rest
