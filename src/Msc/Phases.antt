-- ===== src/Msc/Phases.antt =====
-- What the data phase of a command and its status promise.
use pico_bootrom_crashdump.Prelude.{
  ℕ, zero, suc, ◌+◌, ◌*◌, ◌%◌, ◌^◌, ◌≤◌, ◌<◌, ◌≡◌, ◌≢◌, ◌⊎◌, min, true, false, arith, List, [], ◌∷◌,
  ◌++◌, length, take,
}
use pico_bootrom_crashdump.Msc.{
  Direction, MscState, halt_in, halt_out, send_csw, respond, start_sectors, Cbw, msc_send_csw,
  set_csw_failed, data_phase_complete, on_unstall, async_complete, on_sector_chunk, agrees,
  plan_data, init_for_di_or_do, standard_response, read_or_write_blocks,
}

-- A transfer of sectors never exceeds what the host announced, nor the blocks that it asked for, and
-- is a whole number of packets, one at least. It goes in the direction of the host, from the block
-- that it named.
pub sectors-bounds :
    (cbw : Cbw) (dir dir' : Direction) (s s' : MscState) (lba n : ℕ)
    → read_or_write_blocks cbw dir s ≡ (start_sectors dir' lba n ∷ [], s')
    → (dir' ≡ dir)
      × (agrees cbw dir ≡ true)
      × (lba ≡ cbw.lba)
      × (n % 64 ≡ 0)
      × (0 < n)
      × (n ≤ cbw.data_transfer_length)
      × (n ≤ cbw.blocks * 512)
unfolding read_or_write_blocks init_for_di_or_do plan_data data_phase_complete msc_send_csw
sectors-bounds cbw dir dir' s s' lba n h = ground arith

-- The status of a command is sent exactly once: at the end of the data phase, or, if the IN endpoint
-- is halted there, when the host clears the halt.
pub status-once :
    (s : MscState)
    → let (actions, s') = data_phase_complete s in
      let (later, s'') = on_unstall s' in
      (actions ++ later ≡ send_csw s.csw ∷ []
        ⊎ (actions ++ later ≡ halt_out ∷ send_csw s.csw ∷ [])
        ⊎ ((actions ≡ halt_in ∷ []) × (later ≡ send_csw s.csw ∷ [])))
      × ((on_unstall s'').0 ≡ [])
unfolding data_phase_complete on_unstall msc_send_csw
status-once s = ground arith

-- A response is cut to what the host announced, and the residue of the status is what is missing
-- to that. The status counts the announced length before.
pub response-residue :
    (cbw : Cbw) (bytes sent : List ℕ) (s s' : MscState)
    → cbw.data_transfer_length < 2 ^ 32
    → s.csw.residue ≡ cbw.data_transfer_length
    → standard_response cbw bytes s ≡ (respond sent ∷ [], s')
    → (sent ≡ take (min (length bytes) cbw.data_transfer_length) bytes)
      × (s'.csw.residue + min (length bytes) cbw.data_transfer_length ≡ cbw.data_transfer_length)
unfolding standard_response init_for_di_or_do plan_data data_phase_complete msc_send_csw
response-residue cbw bytes sent s s' word start h = ground arith

-- The state behind `n` further blocks.
abbrev pub chunks : ℕ → MscState → MscState
chunks zero s = s
chunks (suc n) s = (on_sector_chunk (chunks n s)).1

chunks-async_token :
    (n : ℕ) (s : MscState)
    → s.async_token < 2 ^ 32
    → (chunks n s).async_token ≡ (s.async_token + n) % 2 ^ 32
unfolding on_sector_chunk
chunks-async_token zero s h = omega arith
chunks-async_token (suc n) s h = omega (arith, chunks-async_token n s h)

stale_lem :
    (token result : ℕ) (s : MscState)
    → token ≢ s.async_token
    → async_complete token result s ≡ (false, ([], s))
unfolding async_complete
stale_lem token result s ne = ground (arith, ne)

-- A block that is completed with its token while it is the last one: without an error, the stream goes
-- on and nothing else changes; with one, the command fails with the sense data of a denied access (data
-- protect, 0x20, 2), the OUT endpoint is halted and the status is sent at once, with the residue as it
-- is, and not again when the host clears the halt. Once one to 2^32 - 1 blocks more were handed on, its
-- completion changes nothing, whatever the result.
pub async-token :
    (result n : ℕ) (s : MscState)
    → s.async_token < 2 ^ 32
    → let ((token, lba), last) = on_sector_chunk s in
      (async_complete token 0 last ≡ (true, ([], last)))
      × (result ≢ 0
          → let (goes_on, (actions, s')) = async_complete token result last in
            (actions ≡ halt_out ∷ send_csw (record (s.csw) { status = 1 }) ∷ [])
            × (s'.request_sense ≡ record { key = 7; asc = 0x20; ascq = 2 })
            × ((on_unstall s').0 ≡ []))
      × (suc n < 2 ^ 32
          → async_complete token result (chunks (suc n) last) ≡ (false, ([], chunks (suc n) last)))
unfolding async_complete data_phase_complete set_csw_failed msc_send_csw on_unstall on_sector_chunk
async-token result n s h =
    let token : ℕ = (on_sector_chunk s).0.0 in
    let last = (on_sector_chunk s).1 in
    (
      ground arith,
      λ ne. ground (arith, ne),
      λ few.
          let other : token ≢ (chunks (suc n) last).async_token =
            λ e. omega (arith, e, chunks-async_token (suc n) last (omega arith)) in
          stale_lem token result (chunks (suc n) last) other,
    )
