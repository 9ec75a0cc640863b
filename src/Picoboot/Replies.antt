-- ===== src/Picoboot/Replies.antt =====
-- What the replies to PICOBOOT commands promise.
use pico_bootrom_crashdump.Prelude.{
  ℕ, zero, suc, ◌∙◌, List, ◌%◌, ◌^◌, ◌≤◌, ◌<◌, ◌≡◌, ◌≢◌, ◌⊎◌, inl, inr, refl, true, false, arith,
}
use pico_bootrom_crashdump.Prelude.Bits.{test_bit, set_bit}
use pico_bootrom_crashdump.Task.At
use pico_bootrom_crashdump.Task.Queue.{queue_task}
use pico_bootrom_crashdump.Picoboot.{
  Protocol, PicobootCmd, PicobootState, Reply, halted, receiving, sending, queued,
}
use pico_bootrom_crashdump.Task.Safety.Rules.{IsBounded}
use pico_bootrom_crashdump.Picoboot.Chunks.{on_stream_chunk, good_chunks, chunk_addresses}
use pico_bootrom_crashdump.Picoboot.Command.{
  cmd_mapping, mapping_at, init_cmd, start_cmd, dispatch_cmd, wanted_length, picoboot_cmd_packet,
}

module _ (protocol : Protocol) (cmd : PicobootCmd) (buffer len : ℕ) (s : PicobootState) where
  abbrev pub reply : Reply
  reply = (picoboot_cmd_packet protocol cmd buffer len s).0

  abbrev pub after : PicobootState
  after = (picoboot_cmd_packet protocol cmd buffer len s).1

  -- A command that halts the endpoints queues nothing. It leaves the state as it was, or it is not in
  -- progress and has one of the three error codes.
  pub cmd-halted :
      reply ≡ halted
      → (after.picoboot_queue ≡ s.picoboot_queue)
        × ((after ≡ s)
            ⊎ ((after.status.token ≡ cmd.token)
                × (after.status.in_progress ≡ false)
                × ((after.status.status_code ≡ protocol.unknown_cmd)
                    ⊎ (after.status.status_code ≡ protocol.invalid_cmd_length)
                    ⊎ (after.status.status_code ≡ protocol.invalid_transfer_length))))
  unfolding picoboot_cmd_packet dispatch_cmd start_cmd init_cmd
  cmd-halted h = ground arith

  -- A command that is started has the size and the length of data of its row in the table. Its task
  -- is of the type of that row and acts on the address of the command, and its status is OK.
  pub cmd-started :
      (reply ≡ queued)
        ⊎ (reply ≡ receiving cmd.transfer_length)
        ⊎ (reply ≡ sending cmd.transfer_length)
      → let row = mapping_at protocol (cmd.cmd_id % 128) in
        (cmd.cmd_size ≡ row.size)
        × (cmd.transfer_length ≡ wanted_length protocol cmd row)
        × (after.task.kind ≡ row.kind)
        × (after.task.transfer_addr ≡ cmd.addr)
        × (after.task.erase_addr ≡ cmd.addr)
        × (after.task.erase_size ≡ cmd.size)
        × (after.status.status_code ≡ protocol.sdk.picoboot_ok)
        × (after.status.in_progress ≡ true)
  unfolding picoboot_cmd_packet dispatch_cmd start_cmd init_cmd queue_task
  cmd-started h = ground arith

-- Only the commands to read and to write have data.
mapping_data :
    (protocol : Protocol) (id : ℕ)
    → (mapping_at protocol id).has_data ≡ true
    → ((mapping_at protocol id).kind ≡ 4) ⊎ ((mapping_at protocol id).kind ≡ 8)
unfolding cmd_mapping set_bit
mapping_data protocol zero h = ground arith
mapping_data protocol (suc zero) h = ground arith
mapping_data protocol (suc (suc zero)) h = ground arith
mapping_data protocol (suc (suc (suc zero))) h = ground arith
mapping_data protocol (suc (suc (suc (suc zero)))) h = inl refl
mapping_data protocol (suc (suc (suc (suc (suc zero))))) h = inr refl
mapping_data protocol (suc (suc (suc (suc (suc (suc zero)))))) h = ground arith
mapping_data protocol (suc (suc (suc (suc (suc (suc (suc zero))))))) h = ground arith
mapping_data protocol (suc (suc (suc (suc (suc (suc (suc (suc zero)))))))) h = ground arith
mapping_data protocol (suc (suc (suc (suc (suc (suc (suc (suc (suc zero))))))))) h = ground arith
mapping_data protocol (suc (suc (suc (suc (suc (suc (suc (suc (suc (suc id)))))))))) h =
    ground arith

bits_of_transfer :
    (kind : ℕ)
    → (kind ≡ 4) ⊎ (kind ≡ 8)
    → (test_bit kind At.exec ≡ false) × (test_bit kind At.vectorize_flash ≡ false)
unfolding test_bit
bits_of_transfer kind (inl e) = rw e (refl, refl)
bits_of_transfer kind (inr e) = rw e (refl, refl)

module _ (protocol : Protocol) (cmd : PicobootCmd) (buffer len : ℕ) (s : PicobootState) where
  -- A chunk of up to 256 bytes of the data of a started command is a bounded task, with no call of
  -- code of the user and no table of flash functions. The command has 32-bit fields, and the chunks
  -- before it succeeded.
  pub chunks-IsBounded :
      (ns : List ℕ) (n : ℕ)
      → cmd.addr < 2 ^ 32
      → cmd.size < 2 ^ 32
      → cmd.transfer_length ≢ 0
      → (reply protocol cmd buffer len s ≡ receiving cmd.transfer_length)
        ⊎ (reply protocol cmd buffer len s ≡ sending cmd.transfer_length)
      → 0 < n
      → n ≤ 256
      → IsBounded
          (on_stream_chunk n (good_chunks ns (after protocol cmd buffer len s))).picoboot_queue.task
  chunks-IsBounded ns n addr size ne started some_data page =
      let c = cmd-started protocol cmd buffer len s (inr started) in
      let t = chunk_addresses ns n (after protocol cmd buffer len s) (omega (arith, c.3)) in
      let b =
        bits_of_transfer (mapping_at protocol (cmd.cmd_id % 128)).kind
          (mapping_data protocol (cmd.cmd_id % 128) (ground (arith, c.1))) in
      let k = t.2 ∙ c.2 in
      record {
        some_data = rw t.1 some_data;
        page = rw t.1 page;
        size = rw (t.3, c.5) size;
        no_exec = rw k b.0;
        no_vectorize = rw k b.1;
      }
