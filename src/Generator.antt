-- ===== src/Generator.antt =====
-- generator/main.c, a program of the build: it compresses the texts that the firmware holds. A text
-- is a buffer and its length; its bytes are below 128, so a byte from 128 on marks a repetition.
pub mod Search
pub mod Roundtrip
pub mod Size
use pico_bootrom_crashdump.Prelude.{
  ℕ, zero, suc, ◌+◌, ◌-◌, ◌≤◌, min, max, Bool, true, false, not, ◌&&◌, Option, none, some, List, [],
  ◌∷◌, ltb, leb, ◌==◌, if◌then◌else◌,
}
use pico_bootrom_crashdump.Buffer.{Buffer, store}
use pico_bootrom_crashdump.Disk.Read.{copy_match}

-- `sizeof(check_buf)`
abbrev pub buf_size : ℕ
buf_size = 4096

-- `!memcmp(a + i, b + j, n)`
unfoldable pub same_bytes : Buffer → ℕ → Buffer → ℕ → ℕ → Bool
same_bytes a i b j zero = true
same_bytes a i b j (suc n) = a i == b j && same_bytes a (i + 1) b (j + 1) n

-- Whether the first `n` bytes have their top bit clear.
unfoldable pub is_text : Buffer → ℕ → Bool
is_text src zero = true
is_text src (suc n) = ltb (src n) 0x80 && is_text src n

-- The loop over `from`, with `fuel` rounds.
unfoldable pub find_from : Buffer → ℕ → ℕ → ℕ → ℕ → Option ℕ
find_from src to n zero from = none
find_from src to n (suc fuel) from =
    let rest = find_from src to n fuel (from + 1) in
    if same_bytes src to src from n then some from else rest

-- The loop over `match_len`, downwards: the first length of which there is an earlier copy.
unfoldable pub find_match : Buffer → ℕ → ℕ → Option (ℕ × ℕ)
find_match src to zero = none
find_match src to (suc m) = elim (ltb (suc m) 3) [
  | true ↦ none
  | false ↦ elim (find_from src to (suc m) (to - (to - 255)) (to - 255)) [
    | some from ↦ some (suc m, from)
    | none ↦ find_match src to m
  ]
]

-- The loop over `to`: the bytes that are put out. A match is followed by the byte behind it, unless
-- it ends the text.
unfoldable pub compress_from : Buffer → ℕ → ℕ → ℕ → List ℕ
compress_from src len zero to = []
compress_from src len (suc fuel) to = elim (leb len to) [
  | true ↦ []
  | false ↦ elim (find_match src to (min 127 (len - to))) [
    | none ↦ src to ∷ compress_from src len fuel (to + 1)
    | some (n, from) ↦ (0x100 - n) ∷ (to - from) ∷ (elim (to + n == len) [
      | true ↦ []
      | false ↦ src (to + n) ∷ compress_from src len fuel (to + n + 1)
    ])
  ]
]

-- What `compress` writes to `buf`; each round takes a byte at least.
abbrev pub compressed : Buffer → ℕ → List ℕ
compressed src len = compress_from src len len 0

-- The loop of `decompress`, at index `n` of a buffer of `size` bytes. A text that ends within a
-- match is not one that `compress` writes.
unfoldable pub decompress_from : ℕ → List ℕ → ℕ → Buffer → ℕ × Buffer
decompress_from size [] n buf = (n, buf)
decompress_from size (b ∷ []) n buf =
    if ltb n size && ltb b 0x80 then (n + 1, store buf n b) else (n, buf)
decompress_from size (b ∷ off ∷ rest) n buf = elim (leb size n) [
  | true ↦ (n, buf)
  | false ↦ elim (ltb b 0x80) [
    | true ↦ decompress_from size (off ∷ rest) (n + 1) (store buf n b)
    | false ↦ decompress_from size rest (n + (0x100 - b)) (copy_match (0x100 - b) off n buf)
  ]
]

-- `decompress`: the length is 0 if the text may not have fitted.
unfoldable pub decompress : List ℕ → Buffer → ℕ → ℕ × Buffer
decompress bytes buf size =
    let (n, b) = decompress_from size bytes 0 buf in (if n == size then 0 else n, b)

-- `compress`: the bytes that it prints, unless it returns 1.
unfoldable pub compress : Buffer → ℕ → Buffer → Option (List ℕ)
compress src len check_buf =
    if not (is_text src len)
    then none
    else let (check_n, check) = decompress (compressed src len) check_buf buf_size in
      if check_n == len && same_bytes src 0 check 0 len then some (compressed src len) else none
