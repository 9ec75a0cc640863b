-- ===== src/Msc/Sectors/Writing.antt =====
-- The sectors that the host writes: a message that arrives in packets is written to the disk sector by
-- sector.
use pico_bootrom_crashdump.Prelude.{
  ℕ, zero, suc, ◌+◌, ◌-◌, ◌*◌, ◌/◌, ◌%◌, ◌^◌, ◌≤◌, ◌<◌, ◌≡◌, ◌≢◌, ◌⊎◌, inl, inr, refl, ap, ◌∙◌,
  arith, false, ◌==◌, if◌then◌else◌, Bool, Bool-cases,
}
use mathlib.Core.Path.{subst}
use pico_bootrom_crashdump.Buffer.{Buffer}
use pico_bootrom_crashdump.Platform.{Sdk}
use pico_bootrom_crashdump.Uf2.{State, Uf2Block}
use pico_bootrom_crashdump.Uf2.Page.{Outcome, returns, resets, vd_write_block}
use pico_bootrom_crashdump.Uf2.Progress.{write-returns}
use pico_bootrom_crashdump.Stream.{Stream, setup_transfer, out_packet, out_complete}
use pico_bootrom_crashdump.Stream.Out.{packet, received, out-chunks}
use pico_bootrom_crashdump.Msc.{MscState, on_sector_chunk, on_sector_packet}
use pico_bootrom_crashdump.Msc.Sectors.{
  WriteTransfer, WriteResult, going, waits, restarts, on_write_chunk, write_packet, write_next,
}

Outcome-cases :
    (o : Outcome)
    → ((is_async : Bool) × (s : State) × (o ≡ returns is_async s))
      ⊎ ((pins : ℕ) × (interfaces : ℕ) × (o ≡ resets pins interfaces))
Outcome-cases (returns is_async s) = inl (is_async, s, refl)
Outcome-cases (resets pins interfaces) = inr (pins, interfaces, refl)

module _ (sdk : Sdk) (mask : ℕ) (uf2 : Buffer → Uf2Block)
    (sector : (a b : Buffer) → ((j : ℕ) → j < 512 → a j ≡ b j) → uf2 a ≡ uf2 b)
    (message buf : Buffer) (n : ℕ) (m : MscState) (d : State) where
  -- The sector `i` of the message is written after the ones before.
  abbrev pub write_sector : ℕ → Outcome → Outcome
  write_sector i (resets pins interfaces) = resets pins interfaces
  write_sector i (returns is_async s) =
      vd_write_block sdk mask (uf2 (λ j. message (512 * i + j))) ((m.async_token + suc i) % 2 ^ 32)
        s

  abbrev pub write_sectors : ℕ → Outcome
  write_sectors zero = returns false d
  write_sectors (suc i) = write_sector i (write_sectors i)

  abbrev pub start : Stream
  start = (setup_transfer buf 512 (512 * n)).0

  -- The transfer before the packet `k` of the message.
  abbrev pub writing : ℕ → WriteResult
  writing zero = going (record { stream = start; msc = m; disk = d })
  writing (suc k) = write_next sdk mask uf2 (packet message (512 * n) k) (writing k)

  abbrev pub Follows : ℕ → Outcome → WriteResult → Type 0
  Follows k (returns is_async s) (going t) =
      (t.disk ≡ s)
      × (t.stream ≡ received message start k)
      × (t.msc.async_token % 2 ^ 32 ≡ (m.async_token + k / 8) % 2 ^ 32)
      × (t.msc.csw ≡ record (m.csw) { residue = m.csw.residue - 64 * k })
      × (t.msc.stall_direction_before_csw ≡ m.stall_direction_before_csw)
  Follows k (returns is_async s) (waits t) = ⊥
  Follows k (returns is_async s) (restarts pins interfaces) = ⊥
  Follows k (resets pins interfaces) (going t) = ⊥
  Follows k (resets pins interfaces) (waits t) = ⊥
  Follows k (resets pins interfaces) (restarts pins' interfaces') =
      (pins ≡ pins') × (interfaces ≡ interfaces')

  module _ (k : ℕ) (more : k < 8 * n) (small : 512 * n < 2 ^ 31) where
    chunk_len :
        (out_packet (packet message (512 * n) k) (received message start k)).0 ≢ 0 → k % 8 ≡ 7
    chunk_len h =
        let chunks = out-chunks message buf 512 (512 * n) k (inr refl) small (omega arith) in
        ground (arith, chunks.0.0 h)

    is_chunk :
        k % 8 ≡ 7 → (out_packet (packet message (512 * n) k) (received message start k)).0 ≢ 0
    is_chunk h =
        let chunks = out-chunks message buf 512 (512 * n) k (inr refl) small (omega arith) in
        chunks.0.1 (inl (omega arith))

    chunk_block :
        k % 8 ≡ 7
        → uf2 (out_packet (packet message (512 * n) k) (received message start k)).1.chunk_buffer
          ≡ uf2 (λ j. message (512 * (k / 8) + j))
    chunk_block h =
        let chunks = out-chunks message buf 512 (512 * n) k (inr refl) small (omega arith) in
        let (whole, bytes, clear) = chunks.1 (is_chunk h) in
        sector _ _ (λ j l. bytes j (omega (arith, whole)) ∙ ap message (omega arith))

    -- The same of any stream that is where the message is.
    module _ (st : Stream) (same : st ≡ received message start k) where
      same_len : k % 8 ≢ 7 → (out_packet (packet message (512 * n) k) st).0 ≡ 0
      same_len h = rw same (ground (arith, chunk_len))

      same_is_chunk : k % 8 ≡ 7 → ((out_packet (packet message (512 * n) k) st).0 == 0) ≡ false
      same_is_chunk h = rw same (ground (arith, is_chunk h))

      same_block :
          k % 8 ≡ 7
          → uf2 (out_packet (packet message (512 * n) k) st).1.chunk_buffer
            ≡ uf2 (λ j. message (512 * (k / 8) + j))
      same_block h = rw same (chunk_block h)

      same_next :
          out_complete (packet message (512 * n) k) (out_packet (packet message (512 * n) k) st).1
          ≡ received message start (suc k)
      unfolding received setup_transfer
      same_next = rw same

  -- A packet that ends no sector is stored.
  store-Follows :
      (k : ℕ) (is_async : Bool) (s : State) (t : WriteTransfer)
      → k < 8 * n
      → 512 * n < 2 ^ 31
      → m.csw.residue < 2 ^ 32
      → 512 * n ≤ m.csw.residue
      → k % 8 ≢ 7
      → Follows k (returns is_async s) (going t)
      → Follows
          (suc k)
          (returns is_async s)
          (write_packet sdk mask uf2 (packet message (512 * n) k) t)
  unfolding write_packet on_sector_packet
  store-Follows k is_async s t more small word rest h f =
      ground (arith, f, same_len k more small t.stream f.1 h, same_next k more small t.stream f.1)

  -- The block that the last packet of a sector has written.
  module _ (k : ℕ) (s : State) (t : WriteTransfer) (more : k < 8 * n) (small : 512 * n < 2 ^ 31)
      (h : k % 8 ≡ 7) (f : Follows k (returns false s) (going t)) where
    abbrev outcome : Outcome
    outcome = write_sector (k / 8) (returns false s)

    call :
        vd_write_block sdk mask
          (uf2 (out_packet (packet message (512 * n) k) t.stream).1.chunk_buffer)
          ((t.msc.async_token + 1) % 2 ^ 32)
          t.disk
        ≡ outcome
    call =
        ap (λ (b : Uf2Block). vd_write_block sdk mask b ((t.msc.async_token + 1) % 2 ^ 32) t.disk)
          (same_block k more small t.stream f.1 h)
        ∙ ap
            (λ (token : ℕ).
              vd_write_block sdk mask (uf2 (λ j. message (512 * (k / 8) + j))) token t.disk)
            (omega (arith, f.2))
        ∙ ap
            (λ (disk : State).
              vd_write_block sdk mask (uf2 (λ j. message (512 * (k / 8) + j)))
                ((m.async_token + suc (k / 8)) % 2 ^ 32) disk)
            f.0

    sector-Follows :
        m.csw.residue < 2 ^ 32
        → 512 * n ≤ m.csw.residue
        → Follows (suc k) outcome (write_packet sdk mask uf2 (packet message (512 * n) k) t)
    unfolding write_packet on_write_chunk on_sector_chunk on_sector_packet
    sector-Follows word rest = elim (Outcome-cases outcome) [
      | inl (is_async, s', e) ↦
          let sync =
            (write-returns sdk mask (uf2 (λ j. message (512 * (k / 8) + j)))
              ((m.async_token + suc (k / 8)) % 2 ^ 32) s s' is_async e).0 in
          ground (
            arith,
            f,
            call,
            e,
            sync,
            same_is_chunk k more small t.stream f.1 h,
            same_next k more small t.stream f.1,
          )
      | inr (pins, interfaces, e) ↦
          ground (arith, f, call, e, same_is_chunk k more small t.stream f.1 h)
    ]

  abbrev after_packet : ℕ → Outcome → Outcome
  after_packet k o = if k % 8 == 7 then write_sector (k / 8) o else o

  next-Follows :
      (k : ℕ) (o : Outcome) (r : WriteResult)
      → k < 8 * n
      → 512 * n < 2 ^ 31
      → m.csw.residue < 2 ^ 32
      → 512 * n ≤ m.csw.residue
      → Follows k o r
      → Follows (suc k) (after_packet k o) (write_next sdk mask uf2 (packet message (512 * n) k) r)
  next-Follows k (returns is_async s) (going t) more small word rest f =
      elim (Bool-cases (k % 8 == 7)) [
        | inl e ↦ rw e (sector-Follows k s t more small (ground (arith, e)) f word rest)
        | inr e ↦ rw e (store-Follows k is_async s t more small word rest (ground (arith, e)) f)
      ]
  next-Follows k (returns is_async s) (waits t) more small word rest f = absurd f
  next-Follows k (returns is_async s) (restarts pins interfaces) more small word rest f = absurd f
  next-Follows k (resets pins interfaces) (going t) more small word rest f = absurd f
  next-Follows k (resets pins interfaces) (waits t) more small word rest f = absurd f
  next-Follows k (resets pins interfaces) (restarts pins' interfaces') more small word rest f =
      elim (Bool-cases (k % 8 == 7)) [ inl e ↦ rw e f | inr e ↦ rw e f ]

  after_packet-eq : (k : ℕ) → after_packet k (write_sectors (k / 8)) ≡ write_sectors (suc k / 8)
  after_packet-eq k = elim (Bool-cases (k % 8 == 7)) [
    | inl e ↦ let i : suc (k / 8) ≡ suc k / 8 = ground (arith, e) in rw e (ap write_sectors i)
    | inr e ↦ let i : k / 8 ≡ suc k / 8 = ground (arith, e) in rw e (ap write_sectors i)
  ]

  -- What the packets of a message do is what its sectors do, each written to the disk once, in their
  -- order, with 512 bytes of the message and a token of its own, until one restarts the device.
  pub writing-Follows :
      (k : ℕ)
      → k ≤ 8 * n
      → 512 * n < 2 ^ 31
      → m.csw.residue < 2 ^ 32
      → 512 * n ≤ m.csw.residue
      → Follows k (write_sectors (k / 8)) (writing k)
  unfolding setup_transfer received
  writing-Follows zero l small word rest = (refl, refl, omega arith, ground arith, refl)
  writing-Follows (suc k) l small word rest =
      subst (λ (o : Outcome). Follows (suc k) o (writing (suc k))) (after_packet-eq k)
        (next-Follows k (write_sectors (k / 8)) (writing k) (omega arith) small word rest
          (writing-Follows k (omega arith) small word rest))
