-- ===== src/Stream.antt =====
-- usb_device_tiny/usb_stream_helper.c: a transfer of bytes over an endpoint, in packets of 64 bytes,
-- that is handed on or taken in chunks.
pub mod Out
use pico_bootrom_crashdump.Prelude.{
  ℕ, ◌+◌, ◌-◌, ◌*◌, ◌/◌, ◌%◌, ◌^◌, Bool, not, ◌&&◌, ltb, leb, ◌==◌, if◌then◌else◌,
}
use pico_bootrom_crashdump.Buffer.{Buffer, memset0}
use pico_bootrom_crashdump.Task.Execute.{add32}

-- `struct usb_stream_transfer`, with the content of its buffer. Its `chunk_size` is a power of two.
pub record Stream : Type 0 where
  pub offset : ℕ
  pub transfer_length : ℕ
  pub chunk_size : ℕ
  pub chunk_buffer : Buffer

-- A packet that the host sent.
pub record Packet : Type 0 where
  pub bytes : Buffer
  pub data_len : ℕ

-- `memcpy(buf + at, bytes, n)`
abbrev pub store_bytes : Buffer → ℕ → Buffer → ℕ → Buffer
store_bytes buf at bytes n j = if leb at j && ltb j (at + n) then bytes (j - at) else buf j

-- `usb_stream_setup_transfer`, and the packets that it asks for.
unfoldable pub setup_transfer : Buffer → ℕ → ℕ → Stream × ℕ
setup_transfer buf chunk_size transfer_length = (
  record {
    offset = 0;
    transfer_length = transfer_length;
    chunk_size = chunk_size;
    chunk_buffer = buf;
  },
  add32 transfer_length 63 / 64,
)

-- `_usb_stream_chunk_offset`; the mask of the source is a remainder by a power of two.
unfoldable pub chunk_offset : Stream → ℕ
chunk_offset t = t.offset % t.chunk_size

-- The length of the chunk that a packet from the host completes, or 0.
unfoldable pub out_chunk_len : Stream → ℕ
out_chunk_len t =
    if leb t.transfer_length (add32 t.offset 64)
    then (let r = t.transfer_length % t.chunk_size in if not (r == 0) then r else t.chunk_size)
    else if leb t.chunk_size (chunk_offset t + 64)
    then t.chunk_size
    else 0

-- `_usb_stream_packet_packet_handler` for a packet from the host: the length of the chunk that is
-- handed on, if it is not 0, and the stream with the packet in its buffer.
unfoldable pub out_packet : Packet → Stream → ℕ × Stream
out_packet p t =
    let cleared =
      if chunk_offset t == 0 then memset0 t.chunk_buffer 0 t.chunk_size else t.chunk_buffer in
    (
      out_chunk_len t,
      record t { chunk_buffer = store_bytes cleared (chunk_offset t) p.bytes p.data_len },
    )

-- `usb_stream_packet_handler_complete` for a packet from the host: at once, or when the chunk is
-- done.
unfoldable pub out_complete : Packet → Stream → Stream
out_complete p t = record t { offset = add32 t.offset p.data_len }

-- The length of the chunk that is asked for before a packet to the host, or 0.
unfoldable pub in_chunk_len : Stream → ℕ
in_chunk_len t =
    if chunk_offset t == 0
    then (if ltb t.transfer_length (add32 t.offset t.chunk_size)
        then t.transfer_length - t.offset
        else t.chunk_size)
    else 0

-- `usb_stream_packet_handler_complete` for a packet to the host.
unfoldable pub in_complete : Stream → Packet × Stream
in_complete t =
    let data_len =
      if ltb t.transfer_length (add32 t.offset 64) then t.transfer_length - t.offset else 64 in
    (
      record { bytes = λ j. t.chunk_buffer (chunk_offset t + j); data_len = data_len },
      record t { offset = add32 t.offset data_len },
    )
