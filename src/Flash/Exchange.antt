-- ===== src/Flash/Exchange.antt =====
-- `flash_put_get` of bootrom/program_flash_generic.c, from its start to the end of its loop, with the
-- FIFOs of the SSI and every order of the steps of code and hardware.
use pico_bootrom_crashdump.Prelude.{ℕ, ◌+◌, ◌^◌, ◌≤◌, ◌<◌, ◌≡◌, false, arith}
use pico_bootrom_crashdump.Buffer.{Buffer}
use pico_bootrom_crashdump.Flash.Transfer.{is_busy, put_get}
use pico_bootrom_crashdump.Flash.Fifo.{
  at_test, System, in_flight, Reach, first, IsBalanced, Reach-IsBalanced,
}

-- The loop begins for `count` bytes, while the bytes to skip are still in flight.
abbrev pub IsStarted : ℕ → ℕ → System → Type 0
IsStarted count skip s =
    (s.code ≡ put_get count skip)
    × (s.place ≡ at_test)
    × (s.taken ≡ 0)
    × (in_flight s ≡ skip)
    × (s.shifting ≤ 2)

module _ (message incoming : Buffer) (count skip : ℕ) where
  pub started-IsBalanced :
      (s : System) → skip ≤ 16 → IsStarted count skip s → IsBalanced message incoming count skip s
  unfolding put_get
  started-IsBalanced s few h = ground (arith, h)

  module _ (word : count < 2 ^ 32) (few : skip ≤ 16) where
    -- While `flash_put_get` runs with at most sixteen bytes in flight at its start, no more than
    -- sixteen bytes are ever in the FIFOs of the SSI and between them.
    pub put_get-bounds :
        {s t : System} → IsStarted count skip s → Reach message incoming s t → in_flight t ≤ 16
    put_get-bounds h r =
        (Reach-IsBalanced message incoming count skip word (started-IsBalanced _ few h) r).bounded

    -- When the loop of `flash_put_get` ends without an abort, the bytes of the message were put in
    -- their order, the bytes received are those that came in behind the ones to skip, and nothing is
    -- left in the FIFOs of the SSI or between them.
    pub put_get-received :
        {s t : System}
        → IsStarted count skip s
        → Reach message incoming s t
        → is_busy t.code ≡ false
        → (t.code.sent ≡ first message count)
          × (t.code.received ≡ first (λ k. incoming (skip + k)) count)
          × (in_flight t ≡ 0)
    unfolding is_busy
    put_get-received h r over =
        let i = Reach-IsBalanced message incoming count skip word (started-IsBalanced _ few h) r in
        ground (arith, over, i)
