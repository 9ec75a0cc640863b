-- ===== src/Picoboot/Write/Packets.antt =====
-- One packet after the other of the memory that the host writes with PICOBOOT.
use pico_bootrom_crashdump.Prelude.{
  ℕ, suc, ◌+◌, ◌-◌, ◌*◌, ◌/◌, ◌%◌, ◌≤◌, ◌<◌, ◌≡◌, ◌≢◌, ◌⊎◌, ◌↔◌, inl, inr, refl, ap, ◌∙◌, arith,
  false, min, ltb, if◌then◌else◌, ◌==◌, ℕ_discrete,
}
use pico_bootrom_crashdump.Buffer.{Buffer}
use pico_bootrom_crashdump.Platform.{IsValid}
use pico_bootrom_crashdump.Task.{Env}
use pico_bootrom_crashdump.Stream.{Stream, setup_transfer, out_packet, out_complete}
use pico_bootrom_crashdump.Stream.Out.{packet, received, out-chunks}
use pico_bootrom_crashdump.Picoboot.Data.{DataTransfer}
use pico_bootrom_crashdump.Picoboot.Data.ReadTask.{IsRamRange}
use pico_bootrom_crashdump.Picoboot.Write.{taken, receive, complete_packet, take_packet}
use pico_bootrom_crashdump.Picoboot.Write.Taking.{
  IsWritten, filled-IsWritten, worked, written_chunk_lem, behind, behind-IsWritten,
}

module _ (env : Env) (valid : IsValid env.sdk) (buffer addr size : ℕ)
    (range : IsRamRange env buffer addr size) (ram message buf : Buffer) where
  abbrev pub Written : ℕ → DataTransfer → Type 0
  Written = IsWritten env valid buffer addr size range ram message

  abbrev pub stream : ℕ → Stream
  stream k = received message (setup_transfer buf 256 size).0 k

  -- How much is in memory behind the first `k` packets: the whole chunks, or all of it.
  abbrev pub written_len : ℕ → ℕ
  written_len k = if ltb (64 * k) size then 256 * (k / 4) else size

  -- The transfer before its packet `k`.
  pub record IsTaking (k : ℕ) (t : DataTransfer) : Type 0 where
    pub same_stream : t.stream ≡ stream k
    pub written : Written (written_len k) t

  -- Only the stream changes.
  stream-Written :
      (n : ℕ) (u : DataTransfer) (s : Stream) → Written n u → Written n (record u { stream = s })
  stream-Written n u s r = record {
    task = r.task;
    buffer_at = r.buffer_at;
    at = r.at;
    awake = r.awake;
    no_disk = r.no_disk;
    cleared = r.cleared;
    written = r.written;
    kept = r.kept;
  }

  module _ (k : ℕ) (t : DataTransfer) (s : IsTaking k t) (more : 64 * k < size) where
    -- The chunk that the packet completes, or 0.
    abbrev pub len : ℕ
    len = (out_packet (packet message size k) t.stream).0

    so_far : Written (256 * (k / 4)) t
    so_far = let e : written_len k ≡ 256 * (k / 4) = ground arith in rw e at s.written

    -- From the stream: when the packet completes a chunk, and what the chunk is.
    chunk_facts :
        ((len ≢ 0) ↔ ((64 * suc k % 256 ≡ 0) ⊎ (size ≤ 64 * suc k)))
        × (len ≢ 0
            → (len ≡ min 256 (size - (64 * k - 64 * k % 256)))
              × ((j : ℕ)
                  → j < len
                  → (out_packet (packet message size k) t.stream).1.chunk_buffer j
                    ≡ message (64 * k - 64 * k % 256 + j)))
    chunk_facts =
        let c =
          out-chunks message buf 256 size k (inl refl) (omega (arith, range.high, valid.sram_fits))
            more in
        rw s.same_stream (c.0, λ ne. ((c.1 ne).0, (c.1 ne).1))

    next_stream :
        out_complete (packet message size k) (out_packet (packet message size k) t.stream).1
        ≡ stream (suc k)
    unfolding received setup_transfer
    next_stream =
        ap
          (λ (v : Stream).
            out_complete (packet message size k) (out_packet (packet message size k) v).1)
          s.same_stream

    -- The transfer behind the packet.
    abbrev pub Next : Type 0
    Next =
        (u : DataTransfer) × (take_packet env buffer (packet message size k) t ≡ taken u)
        × IsTaking (suc k) u

    inside_len : len ≡ 0 → written_len (suc k) ≡ 256 * (k / 4)
    inside_len none =
        let goes_on : 64 * suc k < size = ground (arith, none, chunk_facts.0) in
        let inside : 64 * suc k % 256 ≢ 0 = λ e. (chunk_facts.0.1 (inl e)) none in
        ground (arith, goes_on, inside)

    inside_chunk : len ≡ 0 → Next
    unfolding take_packet receive
    inside_chunk none =
        let f = (receive buffer (packet message size k) t).1 in
        (
          complete_packet (packet message size k) f,
          ground (arith, none),
          record {
            same_stream = next_stream;
            written = rw (inside_len none) (
                stream-Written (256 * (k / 4)) f (out_complete (packet message size k) f.stream) (
                  filled-IsWritten env valid buffer addr size range ram message (256 * (k / 4)) t
                    so_far k 0 (omega arith) (omega arith)));
          },
        )

    module _ (ne : len ≢ 0) where
      whole_len : len ≡ min 256 (size - 256 * (k / 4))
      whole_len = omega (arith, (chunk_facts.1 ne).0)

      next_len : written_len (suc k) ≡ 256 * (k / 4) + len
      next_len = elim (chunk_facts.0.0 ne) [
        | inl e ↦ ground (arith, whole_len)
        | inr e ↦ ground (arith, whole_len)
      ]

      fits : 256 * (k / 4) + len ≤ size
      fits = omega (arith, whole_len)

      page : len ≤ 256
      page = omega (arith, whole_len)

      last : DataTransfer
      last =
          behind env valid buffer addr size range ram message (256 * (k / 4)) t so_far k len fits
            page

      last_taken :
          take_packet env buffer (packet message size k) t
          ≡ taken (complete_packet (packet message size k) last)
      unfolding take_packet receive last
      last_taken =
          let some_len : (len == 0) ≡ false = ground (arith, ne) in
          rw
            (
              some_len,
              worked env valid buffer addr size range ram message (256 * (k / 4)) t so_far k len
                  fits page,
            )
            (written_chunk_lem env valid buffer addr size range ram message (256 * (k / 4)) t so_far
              k len fits page)

      whole_chunk : Next
      unfolding last receive
      whole_chunk = (
        complete_packet (packet message size k) last,
        last_taken,
        record {
          same_stream = next_stream;
          written = rw next_len (
              stream-Written (256 * (k / 4) + len) last
                (out_complete (packet message size k) last.stream)
                (behind-IsWritten env valid buffer addr size range ram message (256 * (k / 4)) t
                  so_far k len fits page
                  (λ j h.
                    (chunk_facts.1 ne).1 j h ∙ ap (λ (b : ℕ). message (b + j)) (omega arith))));
        },
      )

    pub next-IsTaking : Next
    next-IsTaking = elim (ℕ_discrete len 0) [
      | yes none ↦ inside_chunk none
      | no ne ↦ whole_chunk ne
    ]
