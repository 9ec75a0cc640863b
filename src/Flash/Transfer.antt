-- ===== src/Flash/Transfer.antt =====
-- `flash_put_get` of bootrom/program_flash_generic.c: bytes are put into the transmit FIFO of the SSI
-- and taken from its receive FIFO. What the code reads of the SSI is an argument of each round.
use pico_bootrom_crashdump.Prelude.{
  ℕ, ◌+◌, ◌-◌, Bool, not, ◌&&◌, ◌||◌, List, [], ◌∷◌, ◌++◌, ltb, ◌==◌, if◌then◌else◌,
}
use pico_bootrom_crashdump.Task.Execute.{sub32}

-- `16 - 2`: the depth of the receive FIFO, less the data internal to the SSI
abbrev pub max_in_flight : ℕ
max_in_flight = 14

-- The local variables. `sent` and `received` are what went through the pointers `tx` and `rx`.
pub record PutGet : Type 0 where
  pub tx_count : ℕ
  pub rx_skip : ℕ
  pub rx_count : ℕ
  pub sent : List ℕ
  pub received : List ℕ

-- The locals at the start, from the arguments `count` and `rx_skip`.
unfoldable pub put_get : ℕ → ℕ → PutGet
put_get count skip = record {
  tx_count = count;
  rx_skip = skip;
  rx_count = count;
  sent = [];
  received = [];
}

-- What a round reads: the two levels, the byte in front of the receive FIFO, and whether the command
-- was aborted.
pub record Reading : Type 0 where
  pub tx_level : ℕ
  pub rx_level : ℕ
  pub rx_byte : ℕ
  pub aborted : Bool

-- The condition of the loop.
unfoldable pub is_busy : PutGet → Bool
is_busy s = not (s.tx_count == 0) || (not (s.rx_skip == 0) || not (s.rx_count == 0))

-- Whether the round puts a byte.
unfoldable pub puts : Reading → PutGet → Bool
puts r s = not (s.tx_count == 0) && ltb (r.tx_level + r.rx_level) max_in_flight

-- Whether the round gets a byte.
unfoldable pub gets : Reading → Bool
gets r = not (r.rx_level == 0)

unfoldable pub put_byte : ℕ → PutGet → PutGet
put_byte b s = record s { tx_count = s.tx_count - 1; sent = s.sent ++ (b ∷ []) }

unfoldable pub get_byte : ℕ → PutGet → PutGet
get_byte b s =
    if not (s.rx_skip == 0)
    then record s { rx_skip = s.rx_skip - 1 }
    else record s { rx_count = sub32 s.rx_count 1; received = s.received ++ (b ∷ []) }

-- A round of the loop, where `next` is the byte that `tx` points to, or 0.
unfoldable pub round : ℕ → Reading → PutGet → PutGet
round next r s =
    let put = if puts r s then put_byte next s else s in
    if gets r then get_byte r.rx_byte put else put

-- `if (!did_something && flash_was_aborted()) break;`
unfoldable pub breaks : Reading → PutGet → Bool
breaks r s = not (puts r s || gets r) && r.aborted
