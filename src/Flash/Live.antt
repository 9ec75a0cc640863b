-- ===== src/Flash/Live.antt =====
-- `flash_put_get` of bootrom/program_flash_generic.c cannot get stuck: whatever code and hardware did,
-- the loop can still end.
use pico_bootrom_crashdump.Prelude.{
  ℕ, zero, suc, ◌+◌, ◌-◌, ◌*◌, ◌^◌, ◌≤◌, ◌<◌, ◌≡◌, ◌⊎◌, inl, inr, refl, true, false, length, arith,
  Bool-cases, dec_lt,
}
use pico_bootrom_crashdump.Buffer.{Buffer}
use pico_bootrom_crashdump.Flash.Transfer.{is_busy, puts, gets, put_byte, get_byte}
use pico_bootrom_crashdump.Flash.Fifo.{
  Place, at_test, saw_tx, saw_both, System, in_flight, act, shift_out, shift_in, read_tx, read_rx,
  finish_round, Reach, here, next, IsBalanced, Reach-IsBalanced,
}
use pico_bootrom_crashdump.Flash.Exchange.{IsStarted, started-IsBalanced}

-- What is left to do: a byte moves four times.
abbrev work : System → ℕ
work s = 4 * s.code.tx_count + 3 * s.tx_fifo + 2 * s.shifting + s.rx_fifo

module _ (message incoming : Buffer) where
  Reach-trans :
      {s t u : System}
      → Reach message incoming s t
      → Reach message incoming t u
      → Reach message incoming s u
  Reach-trans r here = r
  Reach-trans r (next q st) = next (Reach-trans r q) st

  -- The state after the end of a round.
  abbrev finished : ℕ → ℕ → System → System
  finished t r s =
      act (message (length s.code.sent))
        (record { tx_level = t; rx_level = r; rx_byte = incoming s.taken; aborted = false }) s

  finished-place : (t r : ℕ) (s : System) → (finished t r s).place ≡ at_test
  unfolding act
  finished-place t r s = ground arith

  -- A round adds no work, and does some if it puts or gets a byte.
  finished-work : (t r : ℕ) (s : System) → r ≤ s.rx_fifo → work (finished t r s) ≤ work s
  unfolding act puts gets put_byte get_byte
  finished-work t r s h = ground arith

  finished-work_lt :
      (t r : ℕ) (s : System)
      → r ≤ s.rx_fifo
      → (0 < r) ⊎ ((0 < s.code.tx_count) × (t + r < 14))
      → work (finished t r s) < work s
  unfolding act puts gets put_byte get_byte
  finished-work_lt t r s h e = ground arith

  -- The code runs to the end of a round.
  abbrev through : ℕ → ℕ → System → System
  through t r s = finished t r (record s { place = saw_both t r })

  Reach-through :
      (s : System)
      → s.place ≡ at_test
      → is_busy s.code ≡ true
      → Reach message incoming s (through s.tx_fifo s.rx_fifo s)
  Reach-through s e busy =
      next (next (next here (read_tx e busy)) (read_rx s.tx_fifo refl))
        (finish_round s.tx_fifo s.rx_fifo refl)

  module _ (count skip : ℕ) where
    -- A busy loop with nothing in flight has bytes to put.
    left-tx_count :
        (s : System)
        → IsBalanced message incoming count skip s
        → is_busy s.code ≡ true
        → in_flight s ≡ 0
        → 0 < s.code.tx_count
    unfolding is_busy
    left-tx_count s i busy h = ground (arith, i.balance)

    -- While something is left, code or hardware can do some of it.
    progress :
        (s : System)
        → IsBalanced message incoming count skip s
        → s.place ≡ at_test
        → is_busy s.code ≡ true
        → (t : System) × Reach message incoming s t × (t.place ≡ at_test) × (work t < work s)
    progress s i e busy = elim (dec_lt 0 s.rx_fifo) [
      | yes p ↦ turn (inl p)
      | no p ↦ elim (dec_lt 0 s.shifting) [
        | yes q ↦ (
          record s { shifting = s.shifting - 1; rx_fifo = s.rx_fifo + 1 },
          next here (shift_in q),
          e,
          omega arith,
        )
        | no q ↦ elim (dec_lt 0 s.tx_fifo) [
          | yes w ↦ (
            record s { tx_fifo = s.tx_fifo - 1; shifting = s.shifting + 1 },
            next here (shift_out w (omega arith)),
            e,
            omega arith,
          )
          | no w ↦ turn (inr (some_left (omega arith), omega arith))
        ]
      ]
    ]
      where
        some_left : in_flight s ≡ 0 → 0 < s.code.tx_count
        some_left h = left-tx_count s i busy h

        turn :
            (0 < s.rx_fifo) ⊎ ((0 < s.code.tx_count) × (s.tx_fifo + s.rx_fifo < 14))
            → (t : System) × Reach message incoming s t × (t.place ≡ at_test) × (work t < work s)
        turn h = (
          through s.tx_fifo s.rx_fifo s,
          Reach-through s e busy,
          finished-place s.tx_fifo s.rx_fifo (record s { place = saw_both s.tx_fifo s.rx_fifo }),
          finished-work_lt s.tx_fifo s.rx_fifo (record s { place = saw_both s.tx_fifo s.rx_fifo })
              (omega arith) h,
        )

    module _ (word : count < 2 ^ 32) where
      abbrev Ends : System → Type 0
      Ends s = (t : System) × Reach message incoming s t × (is_busy t.code ≡ false)

      later : {s t : System} → Reach message incoming s t → Ends t → Ends s
      later r (u, q, over) = (u, Reach-trans r q, over)

      ends_from :
          (n : ℕ) (s : System)
          → work s ≤ n
          → IsBalanced message incoming count skip s
          → s.place ≡ at_test
          → Ends s
      ends_from zero s few i e = elim (Bool-cases (is_busy s.code)) [
        | inr over ↦ (s, here, over)
        | inl busy ↦ let less = (progress s i e busy).3 in absurd (omega (arith, few, less))
      ]
      ends_from (suc n) s few i e = elim (Bool-cases (is_busy s.code)) [
        | inr over ↦ (s, here, over)
        | inl busy ↦
            let (t, r, e', less) = progress s i e busy in
            later r (
              ends_from n t (omega arith) (Reach-IsBalanced message incoming count skip word i r)
                e')
      ]

      -- The code runs on to the test of the loop, wherever it is.
      settle :
          (s : System)
          → IsBalanced message incoming count skip s
          → (t : System) × Reach message incoming s t × (t.place ≡ at_test)
      settle s i = from s.place refl
        where
          from :
              (p : Place)
              → s.place ≡ p
              → (t : System) × Reach message incoming s t × (t.place ≡ at_test)
          from at_test e = (s, here, e)
          from (saw_tx t) e = (
            finished t s.rx_fifo (record s { place = saw_both t s.rx_fifo }),
            next (next here (read_rx t e)) (finish_round t s.rx_fifo refl),
            finished-place t s.rx_fifo (record s { place = saw_both t s.rx_fifo }),
          )
          from (saw_both t r) e =
              (finished t r s, next here (finish_round t r e), finished-place t r s)

      -- Whatever `flash_put_get` and the SSI did since the start, with at most sixteen bytes in
      -- flight then, the loop can still end without an abort.
      pub put_get-ends :
          {s t : System}
          → skip ≤ 16
          → IsStarted count skip s
          → Reach message incoming s t
          → (u : System) × Reach message incoming t u × (is_busy u.code ≡ false)
      put_get-ends {s} {t} few h r =
          let i =
            Reach-IsBalanced message incoming count skip word
              (started-IsBalanced message incoming count skip s few h) r in
          let (u, q, e) = settle t i in
          later q (
            ends_from (work u) u (omega arith)
              (Reach-IsBalanced message incoming count skip word i q) e)
