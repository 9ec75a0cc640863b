-- ===== src/Flash/Erase.antt =====
-- `flash_range_erase` of bootrom/program_flash_generic.c: the blocks it erases and its end.
use pico_bootrom_crashdump.Prelude.{
  ℕ, zero, suc, ◌+◌, ◌-◌, ◌*◌, ◌/◌, ◌%◌, ◌^◌, ◌≤◌, ◌<◌, ◌≡◌, ◌≢◌, ◌⊎◌, inl, inr, refl, sym, ap, ◌∙◌,
  Bool, true, false, not, ◌&&◌, Option, none, some, List, [], ◌∷◌, arith, ltb, leb, ◌==◌,
  if◌then◌else◌, Bool-cases,
}
use pico_bootrom_crashdump.Prelude.Bits.{or_bits-zero, and_bits, and_bits-mask}
use pico_bootrom_crashdump.Buffer.{Buffer}
use pico_bootrom_crashdump.Task.Execute.{add32, sub32}
use pico_bootrom_crashdump.Flash.Commands.{
  Sent, flash_put_cmd_addr, flash_do_cmd, flash_wait_ready, flash_enable_write, flash_user_erase,
  flash_sector_erase, range_erase_loop, flash_range_erase, flashcmd_read_status,
  flashcmd_write_enable, flashcmd_sector_erase,
}

-- A block that is erased: its address, its size, and the command.
abbrev pub Block : Type 0
Block = ℕ × ℕ × ℕ

-- A sector, or a block of the larger size at a multiple of it, erased with its command.
abbrev pub IsErasable : ℕ → ℕ → Block → Type 0
IsErasable size cmd (x, n, c) =
    ((n ≡ 4096) × (c ≡ flashcmd_sector_erase)) ⊎ ((n ≡ size) × (c ≡ cmd) × (x % size ≡ 0))

-- The blocks lie end to end from `a` to `b`.
abbrev pub Tiles : ℕ → ℕ → ℕ → List Block → ℕ → Type 0
Tiles size cmd a [] b = a ≡ b
Tiles size cmd a ((x, n, c) ∷ blocks) b =
    (x ≡ a) × IsErasable size cmd (x, n, c) × Tiles size cmd (a + n) blocks b

-- The commands that change the chip: all but those that read the status.
abbrev pub writes : Sent → Sent
writes [] = []
writes ([] ∷ sent) = [] ∷ writes sent
writes ((c ∷ bytes) ∷ sent) =
    let rest = writes sent in if c == flashcmd_read_status then rest else (c ∷ bytes) ∷ rest

-- A command byte and a 24-bit address
abbrev pub erase_bytes : ℕ → ℕ → List ℕ
erase_bytes cmd addr = cmd ∷ (addr / 2 ^ 16 % 256) ∷ (addr / 2 ^ 8 % 256) ∷ (addr % 256) ∷ []

put_cmd_addr_lem :
    (cmd addr : ℕ) → cmd < 256 → addr < 2 ^ 24 → flash_put_cmd_addr cmd addr ≡ erase_bytes cmd addr
unfolding flash_put_cmd_addr
put_cmd_addr_lem cmd addr c a =
    let top : addr / 2 ^ 24 % 256 ≡ 0 = omega arith in rw (top, or_bits-zero 8 cmd c) refl

-- Enabling writes and the erase, for each block, the last one first.
abbrev pub erases : List Block → Sent → Sent
erases [] sent = sent
erases ((x, n, c) ∷ blocks) sent =
    erases blocks (erase_bytes c x ∷ (flashcmd_write_enable ∷ []) ∷ sent)

-- A power of two, of whole sectors, in a 32-bit word.
pub record IsBlockSize (size : ℕ) : Type 0 where
  pub exponent : ℕ
  pub power : size ≡ 2 ^ exponent
  pub bits : exponent ≤ 32
  pub word : size < 2 ^ 32
  pub some_size : 0 < size
  pub whole : size % 4096 ≡ 0

-- What the code tests: no bit of the address below the size of a block is set.
aligned :
    (size addr : ℕ)
    → IsBlockSize size
    → addr < 2 ^ 32
    → and_bits 32 addr (sub32 size 1) ≡ 0
    → addr % size ≡ 0
aligned size addr b l e =
    let mask : sub32 size 1 ≡ 2 ^ b.exponent - 1 = omega (arith, b.power, b.word, b.some_size) in
    rw (b.power) (and_bits-mask 32 b.exponent addr b.bits l (ap (and_bits 32 addr) (sym mask) ∙ e))

module _ (reply : Sent → List ℕ → Buffer) (aborted : Sent → Bool) where
  -- The status register clears its busy bit, or the task is aborted, within `wait` reads.
  abbrev pub Ready : ℕ → Sent → Type 0
  Ready zero sent = ⊥
  Ready (suc n) sent =
      (reply sent (flashcmd_read_status ∷ 0 ∷ []) 1 % 2 ≡ 0)
      ⊎ ((aborted ((flashcmd_read_status ∷ 0 ∷ []) ∷ sent) ≡ true)
          ⊎ Ready n ((flashcmd_read_status ∷ 0 ∷ []) ∷ sent))

  -- Waiting ends, and only reads the status.
  wait-writes :
      (wait : ℕ) (sent : Sent)
      → Ready wait sent
      → (sent' : Sent) × (flash_wait_ready reply aborted wait sent ≡ some sent')
        × (writes sent' ≡ writes sent)
  unfolding flash_wait_ready flash_do_cmd
  wait-writes zero sent h = absurd h
  wait-writes (suc n) sent h = elim (Bool-cases busy) [
    | inr p ↦ (asked, rw p refl, refl)
    | inl p ↦
        let again : Ready n asked = elim h [
          | inl e ↦ absurd (ground (arith, p, e))
          | inr (inl e) ↦ absurd (ground (arith, p, e))
          | inr (inr more) ↦ more
        ] in
        let (sent', e, w) = wait-writes n asked again in (sent', rw p e, w)
  ]
    where
      asked : Sent
      asked = (flashcmd_read_status ∷ 0 ∷ []) ∷ sent

      busy : Bool
      busy = reply sent (flashcmd_read_status ∷ 0 ∷ []) 1 % 2 == 1 && not (aborted asked)

  module _ (wait : ℕ) (ready : (sent : Sent) → Ready wait sent) where
    -- An erase is sent after writes are enabled, and ends.
    user_erase-writes :
        (addr cmd : ℕ) (sent : Sent)
        → cmd ≢ flashcmd_read_status
        → cmd < 256
        → addr < 2 ^ 24
        → (sent' : Sent) × (flash_user_erase reply aborted wait addr cmd sent ≡ some sent')
          × (writes sent' ≡ (erase_bytes cmd addr ∷ (flashcmd_write_enable ∷ []) ∷ writes sent))
    unfolding flash_user_erase flash_enable_write flash_do_cmd
    user_erase-writes addr cmd sent h c a =
        let same = put_cmd_addr_lem cmd addr c a in
        let other : (cmd == flashcmd_read_status) ≡ false = ground (arith, h) in
        let (sent', e, w) =
          wait-writes wait (flash_put_cmd_addr cmd addr ∷ (flashcmd_write_enable ∷ []) ∷ sent)
            (ready (flash_put_cmd_addr cmd addr ∷ (flashcmd_write_enable ∷ []) ∷ sent)) in
        (sent', e, w ∙ rw (same, other) refl)

    module _ (going : (sent : Sent) → aborted sent ≡ false) (size cmd : ℕ)
        (block : IsBlockSize size) (command : cmd ≢ flashcmd_read_status) (byte : cmd < 256) where
      Erased : ℕ → ℕ → Sent → Option Sent → Type 0
      Erased addr goal sent result =
          (blocks : List Block) × (sent' : Sent) × (result ≡ some sent')
          × Tiles size cmd addr blocks goal
          × (writes sent' ≡ erases blocks (writes sent))

      block-Erased :
          (addr n c goal : ℕ) (sent : Sent) (rest : Sent → Option Sent)
          → c ≢ flashcmd_read_status
          → c < 256
          → addr < 2 ^ 24
          → IsErasable size cmd (addr, n, c)
          → ((sent' : Sent) → Erased (addr + n) goal sent' (rest sent'))
          → Erased addr goal sent (elim (flash_user_erase reply aborted wait addr c sent) [
            | none ↦ none
            | some sent' ↦ rest sent'
          ])
      unfolding Erased
      block-Erased addr n c goal sent rest h byte_c low ok more =
          let (sent1, e1, w1) = user_erase-writes addr c sent h byte_c low in
          let (blocks, sent2, e2, t2, w2) = more sent1 in
          ((addr, n, c) ∷ blocks, sent2, rw e1 e2, (refl, ok, t2), w2 ∙ ap (erases blocks) w1)

      loop-Tiles :
          (fuel addr goal : ℕ) (sent : Sent)
          → addr % 4096 ≡ 0
          → goal % 4096 ≡ 0
          → goal ≤ 2 ^ 24
          → addr ≤ goal
          → goal < addr + fuel * 4096
          → Erased addr goal sent (range_erase_loop reply aborted fuel wait addr goal size cmd sent)
      unfolding Erased range_erase_loop flash_sector_erase
      loop-Tiles zero addr goal sent a g w le enough = absurd (omega arith)
      loop-Tiles (suc fuel) addr goal sent a g w le enough =
          let step : (n : ℕ) (sent' : Sent)
              → addr + n ≤ goal
              → 0 < n
              → n % 4096 ≡ 0
              → Erased (addr + n) goal sent'
                  (range_erase_loop reply aborted fuel wait (add32 addr n) goal size cmd sent') =
            λ n sent' q p r.
              let e : add32 addr n ≡ addr + n = omega arith in
              rw e (loop-Tiles fuel (addr + n) goal sent' (omega arith) g w q (omega arith)) in
          elim (Bool-cases (ltb addr goal && not (aborted sent))) [
            | inr over ↦ ([], sent, rw over refl, ground (arith, over, going sent), refl)
            | inl on ↦
                elim (Bool-cases
                  (and_bits 32 addr (sub32 size 1) == 0 && leb size (sub32 goal addr))) [
                    | inl big ↦
                        rw (on, big)
                          (block-Erased addr size cmd goal sent
                            (λ sent'.
                              range_erase_loop reply aborted fuel wait (add32 addr size) goal size
                                cmd sent')
                            command byte (ground (arith, on))
                            (inr (
                              refl,
                              refl,
                              aligned size addr block (omega arith) (ground (arith, big)),
                            ))
                            (λ sent'.
                              step size sent' (ground (arith, on, big)) block.some_size
                                block.whole))
                    | inr small ↦
                        rw (on, small)
                          (block-Erased addr 4096 flashcmd_sector_erase goal sent
                            (λ sent'.
                              range_erase_loop reply aborted fuel wait (add32 addr 4096) goal size
                                cmd sent')
                            (omega arith) (omega arith) (ground (arith, on)) (inl (refl, refl))
                            (λ sent'. step 4096 sent' (ground (arith, on)) (omega arith) refl))
                  ]
          ]

      -- A range of whole sectors below 16 MiB, where 24 bits address the chip, is erased and the erasing
      -- ends, if the chip becomes ready after each command and nothing aborts it. Each erase is sent
      -- after writes are enabled. The erased blocks lie end to end over the range and nothing else:
      -- each is a sector, or a block of the larger size at a multiple of it, erased with its own command
      -- byte and its address. The larger size is a power of two, of whole sectors, and its command is
      -- a byte other than that to read the status.
      pub range_erase-Tiles :
          (fuel addr count : ℕ) (sent : Sent)
          → addr % 4096 ≡ 0
          → count % 4096 ≡ 0
          → addr + count ≤ 2 ^ 24
          → count < fuel * 4096
          → (blocks : List Block) × (sent' : Sent) × (flash_range_erase reply aborted fuel wait addr
                count size cmd sent
              ≡ some sent')
            × Tiles size cmd addr blocks (addr + count)
            × (writes sent' ≡ erases blocks (writes sent))
      unfolding flash_range_erase Erased
      range_erase-Tiles fuel addr count sent a c w enough =
          let e : add32 addr count ≡ addr + count = omega arith in
          rw e
            (loop-Tiles fuel addr (addr + count) sent a (omega arith) w (omega arith) (omega arith))
