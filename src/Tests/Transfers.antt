-- ===== src/Tests/Transfers.antt =====
-- Transfers on endpoints of the USB device.
use pico_bootrom_crashdump.Prelude.{ℕ, ◌≡◌, refl, true, false, some, [], ◌∷◌, arith}
use pico_bootrom_crashdump.Device.{
  Endpoint, endpoint_init, send_in_ack, no_completion, ep_buffer_count,
}
use pico_bootrom_crashdump.Device.Packets.{start_transfer}
use pico_bootrom_crashdump.Device.Packets.Given.{enough, sync}
use pico_bootrom_crashdump.Device.Packets.Runs.{after, IsFree}
use pico_bootrom_crashdump.Device.Packets.Whole.{transfer-completes}
use pico_bootrom_crashdump.Device.Handlers.{msc_out}

-- The OUT endpoint of the disk with both of its buffers.
abbrev idle_out : Endpoint
idle_out = record (endpoint_init msc_out false 64 true true) { owned_buffer_count = 2 }

abbrev packet_len_64 : Endpoint → ℕ
packet_len_64 ep = 64

-- Three packets, which arrive in the two buffers in turn.
transfer-completes_example :
    (ep1 : Endpoint) × (start_transfer (sync packet_len_64) enough 3 send_in_ack idle_out
      ≡ some (ep1, no_completion))
    × ((ep2 : Endpoint) × (after (sync packet_len_64) (0 ∷ 1 ∷ 0 ∷ []) ep1
          ≡ some (ep2, no_completion ∷ no_completion ∷ send_in_ack ∷ []))
        × IsFree 3 idle_out ep2)
unfolding ep_buffer_count
transfer-completes_example =
    transfer-completes packet_len_64 (0 ∷ 1 ∷ 0 ∷ []) send_in_ack idle_out (omega arith)
      (omega arith) refl refl

-- The IN endpoint of the control pipe with its buffer.
abbrev idle_in : Endpoint
idle_in = record (endpoint_init 0x80 true 64 false false) { owned_buffer_count = 1 }
