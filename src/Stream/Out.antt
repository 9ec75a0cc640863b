-- ===== src/Stream/Out.antt =====
-- The chunks that are put together from the packets of the host.
use pico_bootrom_crashdump.Prelude.{
  ℕ, zero, suc, ◌+◌, ◌-◌, ◌*◌, ◌%◌, ◌^◌, ◌≤◌, ◌<◌, ◌≡◌, ◌≢◌, ◌↔◌, ◌⊎◌, refl, ap, ◌∙◌, min, arith,
  dec_lt,
}
use pico_bootrom_crashdump.Buffer.{Buffer}
use pico_bootrom_crashdump.Stream.{
  Stream, Packet, setup_transfer, chunk_offset, out_chunk_len, out_packet, out_complete,
}

-- The packet `k` of a message of `len` bytes: 64 bytes, or what is left.
abbrev pub packet : Buffer → ℕ → ℕ → Packet
packet message len k = record {
  bytes = λ j. message (64 * k + j);
  data_len = min 64 (len - 64 * k);
}

-- The stream before the packet `k`.
unfoldable pub received : Buffer → Stream → ℕ → Stream
received message t zero = t
received message t (suc k) =
    let before = received message t k in
    out_complete (packet message t.transfer_length k)
      (out_packet (packet message t.transfer_length k) before).1

-- The sizes of the chunks that the firmware uses: a page of flash and a sector of the disk.
abbrev pub IsChunkSize : ℕ → Type 0
IsChunkSize size = (size ≡ 256) ⊎ (size ≡ 512)

module _ (message buf : Buffer) (size len : ℕ) where
  start : Stream
  start = (setup_transfer buf size len).0

  abbrev stream : ℕ → Stream
  stream k = received message start k

  -- The chunk buffer before the packet `k`: the message since the last whole chunk.
  record IsReceived (k : ℕ) (t : Stream) : Type 0 where
    offset : t.offset ≡ 64 * k
    transfer_length : t.transfer_length ≡ len
    chunk_size : t.chunk_size ≡ size
    filled : (j : ℕ) → j < 64 * k % size → t.chunk_buffer j ≡ message (64 * k - 64 * k % size + j)
    clear : (j : ℕ) → 0 < 64 * k % size → 64 * k % size ≤ j → j < size → t.chunk_buffer j ≡ 0

  start-IsReceived : IsChunkSize size → IsReceived 0 start
  unfolding start setup_transfer
  start-IsReceived w = record {
    offset = refl;
    transfer_length = refl;
    chunk_size = refl;
    filled = λ j h. ground (arith, w);
    clear = λ j p q h. ground (arith, w);
  }

  -- What the packet `k` leaves in the chunk buffer.
  module _ (k : ℕ) (t : Stream) (w : IsChunkSize size) (small : len < 2 ^ 31) (more : 64 * k < len)
      (r : IsReceived k t) where
    taken : Stream
    taken = (out_packet (packet message len k) t).1

    len_of_packet : ℕ
    len_of_packet = min 64 (len - 64 * k)

    taken-filled :
        (j : ℕ)
        → j < 64 * k % size + len_of_packet
        → taken.chunk_buffer j ≡ message (64 * k - 64 * k % size + j)
    unfolding taken len_of_packet out_packet chunk_offset
    taken-filled j h = elim (dec_lt j (64 * k % size)) [
      | yes p ↦ ground (arith, w, r.offset, r.chunk_size, r.filled j p)
      | no p ↦ ground (arith, w, r.offset, r.chunk_size)
    ]

    taken-clear : (j : ℕ) → 64 * k % size + len_of_packet ≤ j → j < size → taken.chunk_buffer j ≡ 0
    unfolding taken len_of_packet out_packet chunk_offset
    taken-clear j p h = ground (arith, w, r.offset, r.chunk_size, r.clear j)

    taken-length :
        let n = (out_packet (packet message len k) t).0 in
        n ≢ 0 → n ≡ min size (len - (64 * k - 64 * k % size))
    unfolding out_packet out_chunk_len chunk_offset
    taken-length ne = ground (arith, w, r.offset, r.chunk_size, r.transfer_length)

    taken-whole :
        let n = (out_packet (packet message len k) t).0 in n ≢ 0 → n ≡ 64 * k % size + len_of_packet
    unfolding out_packet out_chunk_len chunk_offset len_of_packet
    taken-whole ne = ground (arith, w, r.offset, r.chunk_size, r.transfer_length)

    taken_iff :
        ((out_packet (packet message len k) t).0 ≢ 0)
        ↔ ((64 * suc k % size ≡ 0) ⊎ (len ≤ 64 * suc k))
    unfolding out_packet out_chunk_len chunk_offset
    taken_iff = ground (arith, w, r.offset, r.chunk_size, r.transfer_length)

    next-IsReceived :
        64 * suc k < len → IsReceived (suc k) (out_complete (packet message len k) taken)
    unfolding out_complete taken out_packet len_of_packet
    next-IsReceived h = record {
      offset = ground (arith, r.offset);
      transfer_length = r.transfer_length;
      chunk_size = r.chunk_size;
      filled = λ j p. taken-filled j (ground (arith, w)) ∙ ap message (ground (arith, w));
      clear = λ j p q s. taken-clear j (ground (arith, w)) s;
    }

  stream-IsReceived :
      (k : ℕ) → IsChunkSize size → len < 2 ^ 31 → 64 * k < len → IsReceived k (stream k)
  unfolding received taken start setup_transfer
  stream-IsReceived zero w small more = start-IsReceived w
  stream-IsReceived (suc k) w small more =
      next-IsReceived k (stream k) w small (omega arith) (stream-IsReceived k w small (omega arith))
        more

-- A message arrives in packets of 64 bytes. The packet `k` completes a chunk exactly if it ends a
-- chunk or the message. Then the chunk buffer holds the message from the last whole chunk on, as much
-- as the length of the chunk says, which is a whole chunk or what is left, and zeros behind it.
pub out-chunks :
    (message buf : Buffer) (size len k : ℕ)
    → IsChunkSize size
    → len < 2 ^ 31
    → 64 * k < len
    → let t = received message (setup_transfer buf size len).0 k in
      let e = out_packet (packet message len k) t in
      let base = 64 * k - 64 * k % size in
      ((e.0 ≢ 0) ↔ ((64 * suc k % size ≡ 0) ⊎ (len ≤ 64 * suc k)))
      × (e.0 ≢ 0
          → (e.0 ≡ min size (len - base))
            × ((j : ℕ) → j < e.0 → e.1.chunk_buffer j ≡ message (base + j))
            × ((j : ℕ) → e.0 ≤ j → j < size → e.1.chunk_buffer j ≡ 0))
unfolding start taken
out-chunks message buf size len k w small more =
    let t = received message (setup_transfer buf size len).0 k in
    let r = stream-IsReceived message buf size len k w small more in
    (
      taken_iff message buf size len k t w small more r,
      λ ne.
          let whole = taken-whole message buf size len k t w small more r ne in
          (
            taken-length message buf size len k t w small more r ne,
            λ j h. taken-filled message buf size len k t w small more r j (omega (arith, whole)),
            λ j p h. taken-clear message buf size len k t w small more r j (omega (arith, whole)) h,
          ),
    )
