-- ===== src/Flash/Fifo.antt =====
-- `flash_put_get` with the FIFOs of the SSI. A byte that is put goes from the transmit FIFO into the
-- shift registers, which hold two at most, and comes out as a byte of the receive FIFO. The hardware
-- moves bytes at any time, also between the reads of the two levels. The SSI is not code of the
-- repository: what it does here is its documented behaviour.
use pico_bootrom_crashdump.Prelude.{
  ℕ, zero, suc, ◌+◌, ◌-◌, ◌^◌, ◌≤◌, ◌<◌, ◌≡◌, inl, inr, refl, ap, sym, ◌∙◌, true, false, not, ◌&&◌,
  List, [], ◌∷◌, ◌++◌, length, arith, ltb, ◌==◌, if◌then◌else◌, Bool-cases,
}
use pico_bootrom_crashdump.Buffer.{Buffer}
use pico_bootrom_crashdump.Task.Execute.{sub32}
use pico_bootrom_crashdump.Flash.Transfer.{
  PutGet, Reading, is_busy, puts, gets, put_byte, get_byte, round,
}

-- Where the code is: at the test of the loop, or behind the read of one level or both.
pub data Place : Type 0 where
  at_test : Place
  saw_tx : ℕ → Place
  saw_both : ℕ → ℕ → Place

-- The bytes in the FIFOs and between them, how many were taken from the receive FIFO, and the code.
pub record System : Type 0 where
  pub tx_fifo : ℕ
  pub shifting : ℕ
  pub rx_fifo : ℕ
  pub taken : ℕ
  pub place : Place
  pub code : PutGet

abbrev pub in_flight : System → ℕ
in_flight s = s.tx_fifo + s.shifting + s.rx_fifo

-- The code puts a byte, which the hardware takes, and gets one.
abbrev pub put_in : ℕ → System → System
put_in next s = record s { tx_fifo = s.tx_fifo + 1; code = put_byte next s.code }

abbrev pub take_out : ℕ → System → System
take_out byte s = record s {
  rx_fifo = s.rx_fifo - 1;
  taken = s.taken + 1;
  code = get_byte byte s.code;
}

-- The end of a round with the levels that were read.
unfoldable pub act : ℕ → Reading → System → System
act next r s =
    let put = if puts r s.code then put_in next s else s in
    record (if gets r then take_out r.rx_byte put else put) { place = at_test }

-- The code's part of it is the round of the loop.
act-round : (next : ℕ) (r : Reading) (s : System) → (act next r s).code ≡ round next r s.code
unfolding act round
act-round next r s = ground arith

-- `message` has the bytes to put, `incoming` those that come out of the shift registers.
pub data Step (message incoming : Buffer) (s : System) : System → Type 0 where
  shift_out :
      0 < s.tx_fifo
      → s.shifting < 2
      → Step message incoming s (record s { tx_fifo = s.tx_fifo - 1; shifting = s.shifting + 1 })
  shift_in :
      0 < s.shifting
      → Step message incoming s (record s { shifting = s.shifting - 1; rx_fifo = s.rx_fifo + 1 })
  read_tx :
      s.place ≡ at_test
      → is_busy s.code ≡ true
      → Step message incoming s (record s { place = saw_tx s.tx_fifo })
  read_rx :
      (t : ℕ)
      → s.place ≡ saw_tx t
      → Step message incoming s (record s { place = saw_both t s.rx_fifo })
  finish_round :
      (t r : ℕ)
      → s.place ≡ saw_both t r
      → Step message incoming s (
          act
            (message (length s.code.sent))
            (record { tx_level = t; rx_level = r; rx_byte = incoming s.taken; aborted = false })
            s)

pub data Reach (message incoming : Buffer) (s : System) : System → Type 0 where
  here : Reach message incoming s s
  next :
      {t u : System}
      → Reach message incoming s t
      → Step message incoming t u
      → Reach message incoming s u

-- What the levels that were read say of the bytes in flight.
abbrev pub IsSeen : Place → System → Type 0
IsSeen at_test s = Unit {0}
IsSeen (saw_tx t) s = in_flight s ≤ t + s.rx_fifo + 2
IsSeen (saw_both t r) s = (in_flight s ≤ t + r + 2) × (r ≤ s.rx_fifo)

-- The first `n` values of a function.
abbrev pub first : Buffer → ℕ → List ℕ
first f zero = []
first f (suc n) = first f n ++ (f n ∷ [])

pub length-first : (f : Buffer) (n : ℕ) → length (first f n) ≡ n
length-first f zero = refl
length-first f (suc n) = length-snoc (first f n) (f n) ∙ ap suc (length-first f n)
  where
    length-snoc : (xs : List ℕ) (x : ℕ) → length (xs ++ (x ∷ [])) ≡ suc (length xs)
    length-snoc [] x = refl
    length-snoc (y ∷ ys) x = ap suc (length-snoc ys x)

module _ (message incoming : Buffer) (count skip : ℕ) where
  -- No more than sixteen bytes are in flight. Each byte that the code still waits for is in flight or
  -- still to be put. What was put and got are the first bytes of the message, and the first bytes
  -- that came in behind those to skip.
  pub record IsBalanced (s : System) : Type 0 where
    pub bounded : in_flight s ≤ 16
    pub registers : s.shifting ≤ 2
    pub seen : IsSeen s.place s
    pub balance : s.code.tx_count + in_flight s ≡ s.code.rx_skip + s.code.rx_count
    pub to_put : s.code.tx_count ≤ count
    pub to_get : s.code.rx_count ≤ count
    pub taken : s.taken + s.code.rx_skip + s.code.rx_count ≡ skip + count
    pub skipping : 0 < s.code.rx_skip → s.code.rx_count ≡ count
    pub sent : s.code.sent ≡ first message (count - s.code.tx_count)
    pub received : s.code.received ≡ first (λ k. incoming (skip + k)) (count - s.code.rx_count)

  first-suc : (f : Buffer) (n m : ℕ) → m ≡ suc n → first f m ≡ first f n ++ (f n ∷ [])
  first-suc f n m e = rw e refl

  -- A byte is put while the levels leave room for it.
  put-IsBalanced :
      (s : System)
      → IsBalanced s
      → s.place ≡ at_test
      → 0 < s.code.tx_count
      → in_flight s ≤ 15
      → IsBalanced (put_in (message (length s.code.sent)) s)
  unfolding put_byte
  put-IsBalanced s i e more room = record {
    bounded = omega arith;
    registers = i.registers;
    seen = ground arith;
    balance = omega (arith, i.balance);
    to_put = omega (arith, i.to_put);
    to_get = i.to_get;
    taken = i.taken;
    skipping = i.skipping;
    sent =
        rw (i.sent, length-first message (count - s.code.tx_count))
          (sym (
            first-suc message (count - s.code.tx_count) (count - (s.code.tx_count - 1))
              (omega (arith, i.to_put))));
    received = i.received;
  }

  abbrev first_in : ℕ → List ℕ
  first_in = first (λ k. incoming (skip + k))

  module _ (word : count < 2 ^ 32) where
    -- A byte is got that is there.
    get-IsBalanced :
        (s : System)
        → IsBalanced s
        → s.place ≡ at_test
        → 0 < s.rx_fifo
        → IsBalanced (take_out (incoming s.taken) s)
    unfolding get_byte
    get-IsBalanced s i e there = elim (Bool-cases (s.code.rx_skip == 0)) [
      | inl p ↦
          let z : s.code.rx_skip ≡ 0 = ground (arith, p) in
          let waits : 0 < s.code.rx_count = omega (arith, i.balance, z) in
          let less : sub32 s.code.rx_count 1 ≡ s.code.rx_count - 1 = omega (arith, i.to_get) in
          simp p (record {
            bounded = omega (arith, i.bounded);
            registers = i.registers;
            seen = ground arith;
            balance = rw less (omega (arith, i.balance));
            to_put = i.to_put;
            to_get = rw less (omega (arith, i.to_get));
            taken = rw less (omega (arith, i.taken));
            skipping = λ h. absurd (omega (arith, h, z));
            sent = i.sent;
            received =
                rw (less, i.received)
                  (ap (λ (k : ℕ). first_in (count - s.code.rx_count) ++ (incoming k ∷ []))
                      (omega (arith, i.taken, z, i.to_get))
                    ∙ sym (
                        first-suc (λ k. incoming (skip + k)) (count - s.code.rx_count)
                          (count - (s.code.rx_count - 1)) (omega (arith, i.to_get))));
          })
      | inr p ↦ simp p (ground (arith, i))
    ]

    act-IsBalanced :
        (s : System) (t r : ℕ)
        → IsBalanced s
        → in_flight s ≤ t + r + 2
        → r ≤ s.rx_fifo
        → IsBalanced (
            act
              (message (length s.code.sent))
              (record { tx_level = t; rx_level = r; rx_byte = incoming s.taken; aborted = false })
              s)
    unfolding act puts gets
    act-IsBalanced s t r i seen there =
        elim (Bool-cases (not (s.code.tx_count == 0) && ltb (t + r) 14)) [
          | inl p ↦
              let put : IsBalanced (put_in (message (length s.code.sent)) s0) =
                put-IsBalanced s0 i0 refl (ground (arith, p)) (ground (arith, p, seen)) in
              elim (Bool-cases (r == 0)) [
                | inl q ↦ simp (p, q) put
                | inr q ↦
                    simp (p, q)
                      (get-IsBalanced (put_in (message (length s.code.sent)) s0) put refl
                        (ground (arith, q, there)))
              ]
          | inr p ↦ elim (Bool-cases (r == 0)) [
            | inl q ↦ simp (p, q) i0
            | inr q ↦ simp (p, q) (get-IsBalanced s0 i0 refl (ground (arith, q, there)))
          ]
        ]
      where
        s0 : System
        s0 = record s { place = at_test }

        i0 : IsBalanced s0
        i0 = record {
          bounded = i.bounded;
          registers = i.registers;
          seen = tt;
          balance = i.balance;
          to_put = i.to_put;
          to_get = i.to_get;
          taken = i.taken;
          skipping = i.skipping;
          sent = i.sent;
          received = i.received;
        }

    pub Step-IsBalanced : {s t : System} → Step message incoming s t → IsBalanced s → IsBalanced t
    Step-IsBalanced (shift_out a b) i = ground arith
    Step-IsBalanced (shift_in a) i = ground arith
    Step-IsBalanced (read_tx e busy) i = ground arith
    Step-IsBalanced (read_rx t e) i = ground arith
    Step-IsBalanced (finish_round t r e) i =
        let seen = levels t r e i in act-IsBalanced _ t r i seen.0 seen.1
      where
        levels :
            {s : System} (t r : ℕ)
            → s.place ≡ saw_both t r
            → IsBalanced s
            → (in_flight s ≤ t + r + 2) × (r ≤ s.rx_fifo)
        levels t r e i = ground (arith, i.seen)

    pub Reach-IsBalanced : {s t : System} → IsBalanced s → Reach message incoming s t → IsBalanced t
    Reach-IsBalanced i here = i
    Reach-IsBalanced i (next r st) = Step-IsBalanced st (Reach-IsBalanced i r)
