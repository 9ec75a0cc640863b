-- ===== src/Flash/Commands.antt =====
-- The commands of bootrom/program_flash_generic.c. A command is what is put between the falling and
-- the rising edge of the chip select, and the state is the list of them, the last one first. What
-- the flash chip answers to a command, and whether the task was aborted, are functions of what it
-- was sent before.
use pico_bootrom_crashdump.Prelude.{
  ℕ, zero, suc, ◌+◌, ◌/◌, ◌%◌, ◌^◌, Bool, not, ◌&&◌, Option, none, some, List, [], ◌∷◌, ◌++◌, ltb,
  leb, ◌==◌, if◌then◌else◌,
}
use pico_bootrom_crashdump.Prelude.Bits.{or_bits, and_bits}
use pico_bootrom_crashdump.Buffer.{Buffer}
use pico_bootrom_crashdump.Task.Execute.{add32, sub32}
use pico_bootrom_crashdump.Flash.Fifo.{first}

abbrev pub flashcmd_page_program : ℕ
flashcmd_page_program = 0x02

abbrev pub flashcmd_read_data : ℕ
flashcmd_read_data = 0x03

abbrev pub flashcmd_read_status : ℕ
flashcmd_read_status = 0x05

abbrev pub flashcmd_write_enable : ℕ
flashcmd_write_enable = 0x06

abbrev pub flashcmd_sector_erase : ℕ
flashcmd_sector_erase = 0x20

abbrev pub flashcmd_read_sfdp : ℕ
flashcmd_read_sfdp = 0x5a

abbrev pub flashcmd_read_jedec_id : ℕ
flashcmd_read_jedec_id = 0x9f

abbrev pub Sent : Type 0
Sent = List (List ℕ)

abbrev zeros : ℕ → List ℕ
zeros = first (λ k. 0)

-- `flash_put_cmd_addr`: a bit of the address from bit 24 on goes into the byte of the command.
unfoldable pub flash_put_cmd_addr : ℕ → ℕ → List ℕ
flash_put_cmd_addr cmd addr =
    or_bits 8 cmd (addr / 2 ^ 24 % 256)
    ∷ (addr / 2 ^ 16 % 256)
    ∷ (addr / 2 ^ 8 % 256)
    ∷ (addr % 256)
    ∷ []

-- The answer of the chip to a command has a byte for each byte sent.
module _ (reply : Sent → List ℕ → Buffer) where
  -- `flash_do_cmd` with the bytes at `tx`; it gives the bytes at `rx`.
  unfoldable pub flash_do_cmd : ℕ → List ℕ → Sent → Buffer × Sent
  flash_do_cmd cmd tx sent = (λ k. reply sent (cmd ∷ tx) (1 + k), (cmd ∷ tx) ∷ sent)

  -- `flash_enable_write`
  unfoldable pub flash_enable_write : Sent → Sent
  flash_enable_write sent = (flash_do_cmd flashcmd_write_enable [] sent).1

  -- `flash_read_data`
  unfoldable pub flash_read_data : ℕ → ℕ → Sent → Buffer × Sent
  flash_read_data addr count sent =
      let command = flash_put_cmd_addr flashcmd_read_data addr ++ zeros count in
      (λ k. reply sent command (4 + k), command ∷ sent)

  -- `flash_read_sfdp`
  unfoldable pub flash_read_sfdp : ℕ → ℕ → Sent → Buffer × Sent
  flash_read_sfdp addr count sent =
      let command = flash_put_cmd_addr flashcmd_read_sfdp addr ++ zeros (1 + count) in
      (λ k. reply sent command (5 + k), command ∷ sent)

  module _ (aborted : Sent → Bool) where
    -- `flash_wait_ready`; `none` when the fuel is used up.
    unfoldable pub flash_wait_ready : ℕ → Sent → Option Sent
    flash_wait_ready zero sent = none
    flash_wait_ready (suc fuel) sent =
        let (stat, sent') = flash_do_cmd flashcmd_read_status (zeros 1) sent in
        let rest = flash_wait_ready fuel sent' in
        if stat 0 % 2 == 1 && not (aborted sent') then rest else some sent'

    -- `flash_page_program`
    unfoldable pub flash_page_program : ℕ → ℕ → Buffer → Sent → Option Sent
    flash_page_program wait addr data_at sent = flash_wait_ready wait (
        (flash_put_cmd_addr flashcmd_page_program addr ++ first data_at 256)
        ∷ flash_enable_write sent)

    -- The loop of `flash_range_program` up to `goal`.
    unfoldable pub program_loop : ℕ → ℕ → ℕ → Buffer → ℕ → Sent → Option Sent
    program_loop zero wait addr data_at goal sent = none
    program_loop (suc fuel) wait addr data_at goal sent =
        if ltb addr goal && not (aborted sent)
        then elim (flash_page_program wait addr data_at sent) [
          | none ↦ none
          | some sent' ↦ program_loop fuel wait (add32 addr 256) (λ k. data_at (256 + k)) goal sent'
        ]
        else some sent

    -- `flash_range_program`
    unfoldable pub flash_range_program : ℕ → ℕ → ℕ → Buffer → ℕ → Sent → Option Sent
    flash_range_program fuel wait addr data_at count =
        program_loop fuel wait addr data_at (add32 addr count)

    -- `flash_user_erase`
    unfoldable pub flash_user_erase : ℕ → ℕ → ℕ → Sent → Option Sent
    flash_user_erase wait addr cmd sent =
        flash_wait_ready wait (flash_put_cmd_addr cmd addr ∷ flash_enable_write sent)

    -- `flash_sector_erase`
    unfoldable pub flash_sector_erase : ℕ → ℕ → Sent → Option Sent
    flash_sector_erase wait addr = flash_user_erase wait addr flashcmd_sector_erase

    -- The loop of `flash_range_erase` up to `goal`.
    unfoldable pub range_erase_loop : ℕ → ℕ → ℕ → ℕ → ℕ → ℕ → Sent → Option Sent
    range_erase_loop zero wait addr goal block_size block_cmd sent = none
    range_erase_loop (suc fuel) wait addr goal block_size block_cmd sent =
        if ltb addr goal && not (aborted sent)
        then if and_bits 32 addr (sub32 block_size 1) == 0 && leb block_size (sub32 goal addr)
          then elim (flash_user_erase wait addr block_cmd sent) [
            | none ↦ none
            | some sent' ↦
                range_erase_loop fuel wait (add32 addr block_size) goal block_size block_cmd sent'
          ]
          else elim (flash_sector_erase wait addr sent) [
            | none ↦ none
            | some sent' ↦
                range_erase_loop fuel wait (add32 addr (2 ^ 12)) goal block_size block_cmd sent'
          ]
        else some sent

    -- `flash_range_erase`
    unfoldable pub flash_range_erase : ℕ → ℕ → ℕ → ℕ → ℕ → ℕ → Sent → Option Sent
    flash_range_erase fuel wait addr count = range_erase_loop fuel wait addr (add32 addr count)
