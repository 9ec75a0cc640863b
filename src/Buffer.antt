-- ===== src/Buffer.antt =====
-- Byte buffers and the counted loops that fill them. A buffer is the memory from a pointer on:
-- index `i` is the byte `buf[i]`. Nothing stops an index beyond the object that the pointer leads
-- to, so that a routine stays inside its object is a theorem about it.
mod Loops
unfoldable pub use Loops.{for_up}
pub use Loops.{for_up_outside, for_up_at}
use pico_bootrom_crashdump.Prelude.{
  ℕ, zero, suc, ◌+◌, ◌-◌, ◌*◌, ◌/◌, ◌%◌, ◌^◌, ◌≤◌, ◌<◌, ◌≡◌, ◌⊎◌, refl, Bool, ◌&&◌, List, [], ◌∷◌,
  arith, ltb, leb, ◌==◌, if◌then◌else◌, length, get_or,
}

abbrev pub Buffer : Type 0
Buffer = ℕ → ℕ

-- `buf[i] = v`
abbrev pub store : Buffer → ℕ → ℕ → Buffer
store buf i v j = if i == j then v else buf j

-- `lo <= j && j < lo + n`
abbrev pub within : ℕ → ℕ → ℕ → Bool
within lo n j = leb lo j && ltb j (lo + n)

-- `memset0(buf + i, n)`
abbrev pub memset0 : Buffer → ℕ → ℕ → Buffer
memset0 buf i n j = if within i n j then 0 else buf j

-- `memcpy(buf + i, bytes, sizeof(bytes))` from a list of bytes
abbrev pub store_list : Buffer → ℕ → List ℕ → Buffer
store_list buf i bytes j = if within i (length bytes) j then get_or bytes (j - i) 0 else buf j

-- the bytes of a little-endian 16-bit and 32-bit value
abbrev pub le16 : ℕ → List ℕ
le16 v = v % 256 ∷ v / 256 % 256 ∷ []

abbrev pub le32 : ℕ → List ℕ
le32 v = v % 256 ∷ v / 256 % 256 ∷ v / 65536 % 256 ∷ v / 16777216 % 256 ∷ []

-- `*(uint16_t *) (buf + i)` and `*(uint32_t *) (buf + i)`
abbrev pub load16 : Buffer → ℕ → ℕ
load16 buf i = buf i + 256 * buf (i + 1)

abbrev pub load32 : Buffer → ℕ → ℕ
load32 buf i = buf i + 256 * buf (i + 1) + 65536 * buf (i + 2) + 16777216 * buf (i + 3)

pub store_list-inside :
    (buf : Buffer) (at : ℕ) (bytes : List ℕ) (o : ℕ)
    → o < length bytes
    → store_list buf at bytes (at + o) ≡ get_or bytes o 0
store_list-inside buf at bytes o h = ground (arith, offset)
  where
    offset : at + o - at ≡ o
    offset = omega arith

pub store_list-outside :
    (buf : Buffer) (at : ℕ) (bytes : List ℕ) (j : ℕ)
    → (j < at) ⊎ (at + length bytes ≤ j)
    → store_list buf at bytes j ≡ buf j
store_list-outside buf at bytes j h = ground arith

pub load16-store_list :
    (buf : Buffer) (at v : ℕ) → load16 (store_list buf at (le16 v)) at ≡ v % 2 ^ 16
load16-store_list buf at v = ground arith
