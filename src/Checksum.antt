-- ===== src/Checksum.antt =====
-- src/libchecksum.c: the table-driven CRC-32, and its table.
pub mod Linear
pub mod Reference
mod Tests
use partclone_utils.Base.{
  ℕ, zero, suc, ◌+◌, ◌/◌, ◌%◌, bit_xor, Bool, Option, none, some, List, [], ◌∷◌, ◌==◌,
  if◌then◌else◌, get_elem?, get_or,
}

-- The reflected polynomial.
abbrev pub polynomial : ℕ
polynomial = 0xEDB88320

abbrev pub crc32_seed : ℕ
crc32_seed = 0xFFFFFFFF

abbrev pub crc32_table_len : ℕ
crc32_table_len = 256

-- One round of the inner loop over `init_crc`.
unfoldable pub crc_round : ℕ → ℕ
crc_round x = if x % 2 == 1 then bit_xor (x / 2) polynomial else x / 2

-- The inner loop, with the count of rounds left.
unfoldable pub crc_rounds : ℕ → ℕ → ℕ
crc_rounds zero x = x
crc_rounds (suc n) x = crc_rounds n (crc_round x)

-- The outer loop at `i`, with the count of entries left: the entries from `i` on.
unfoldable pub crc_entries : ℕ → ℕ → List ℕ
crc_entries zero i = []
crc_entries (suc n) i = crc_rounds 8 i ∷ crc_entries n (i + 1)

-- The filled table, as every copy of the loop in the program leaves it.
unfoldable pub crc_table : List ℕ
crc_table = crc_entries crc32_table_len 0

-- `init_crc32`, given the static table: the seed that it returns, and the table that it leaves.
unfoldable pub init_crc32 : List ℕ → ℕ × List ℕ
init_crc32 tab = if get_or tab 0 0 == 0 then (crc32_seed, crc_table) else (crc32_seed, tab)

-- One round of the loop of `update_crc32`; `none` is a read outside the table.
unfoldable pub crc_byte : List ℕ → ℕ → ℕ → Option ℕ
crc_byte tab crc c = elim (get_elem? tab (bit_xor crc c % 256)) [
  | none ↦ none
  | some entry ↦ some (bit_xor (crc / 256) entry)
]

-- `update_crc32` over `size` bytes of `buf`; `none` is a read outside the buffer or the table.
unfoldable pub update_crc32 : List ℕ → ℕ → List ℕ → ℕ → Option ℕ
update_crc32 tab crc buf zero = some crc
update_crc32 tab crc [] (suc size) = none
update_crc32 tab crc (c ∷ buf) (suc size) = elim (crc_byte tab crc c) [
  | none ↦ none
  | some crc' ↦ update_crc32 tab crc' buf size
]
