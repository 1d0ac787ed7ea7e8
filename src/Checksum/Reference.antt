-- ===== src/Checksum/Reference.antt =====
-- The table-driven loop of src/libchecksum.c against the checksum computed bit by bit.
use partclone_utils.Base.{
  ℕ, zero, suc, ◌+◌, ◌/◌, ◌%◌, ◌^◌, ◌≤◌, ◌<◌, bit_xor, ◌≡◌, refl, ap, ◌∙◌, some, List, [], ◌∷◌,
  arith, length, get_elem?, take, IsBytes,
}
use partclone_utils.Base.Xor.{xor-shift, xor-zero, xor-lt}
use partclone_utils.Checksum.{crc_rounds, crc_entries, crc_table, crc_byte, update_crc32}
use partclone_utils.Checksum.Linear.{crc_rounds_split, crc_rounds-lt}

-- The definition of the checksum: each byte is added to the low end, and eight rounds follow.
unfoldable pub crc_bitwise : ℕ → List ℕ → ℕ
crc_bitwise crc [] = crc
crc_bitwise crc (c ∷ buf) = crc_bitwise (crc_rounds 8 (bit_xor crc c)) buf

get_elem?-crc_entries :
    (n i j : ℕ) → j < n → get_elem? (crc_entries n i) j ≡ some (crc_rounds 8 (i + j))
unfolding crc_entries
get_elem?-crc_entries zero i j h = absurd (omega arith)
get_elem?-crc_entries (suc n) i zero h = ap (λ k. some (crc_rounds 8 k)) (omega arith)
get_elem?-crc_entries (suc n) i (suc j) h =
    get_elem?-crc_entries n (i + 1) j (omega arith) ∙ ap (λ k. some (crc_rounds 8 k)) (omega arith)

get_elem?-crc_table : (j : ℕ) → j < 256 → get_elem? crc_table j ≡ some (crc_rounds 8 j)
unfolding crc_table
get_elem?-crc_table j h =
    get_elem?-crc_entries 256 0 j h ∙ ap (λ k. some (crc_rounds 8 k)) (omega arith)

-- One table look-up is eight rounds.
pub crc_byte-rounds :
    (crc c : ℕ) → c < 256 → crc_byte crc_table crc c ≡ some (crc_rounds 8 (bit_xor crc c))
unfolding crc_byte
crc_byte-rounds crc c h =
    let x = bit_xor crc c in
    let gone : c / 2 ^ 8 ≡ 0 = omega arith in
    let shifted : x / 256 ≡ crc / 256 = xor-shift 8 crc c ∙ rw gone (xor-zero (crc / 256)) in
    ground (arith, get_elem?-crc_table (x % 256), crc_rounds_split x)

-- With the filled table, `update_crc32` over the first `size` bytes of a buffer that has them is
-- the bit by bit CRC-32 of those bytes.
pub update_crc32-bitwise :
    (crc : ℕ) (buf : List ℕ) (size : ℕ)
    → IsBytes buf
    → size ≤ length buf
    → update_crc32 crc_table crc buf size ≡ some (crc_bitwise crc (take size buf))
unfolding update_crc32 crc_bitwise
update_crc32-bitwise crc [] zero b h = refl
update_crc32-bitwise crc (c ∷ buf) zero b h = refl
update_crc32-bitwise crc [] (suc size) b h = absurd (omega arith)
update_crc32-bitwise crc (c ∷ buf) (suc size) b h =
    rw (update_crc32, crc_byte-rounds crc c b.0)
      (update_crc32-bitwise (crc_rounds 8 (bit_xor crc c)) buf size b.1 (omega arith))

pub crc_bitwise-lt :
    (crc : ℕ) (buf : List ℕ) → crc < 2 ^ 32 → IsBytes buf → crc_bitwise crc buf < 2 ^ 32
unfolding crc_bitwise
crc_bitwise-lt crc [] h b = h
crc_bitwise-lt crc (c ∷ buf) h b =
    crc_bitwise-lt (crc_rounds 8 (bit_xor crc c)) buf
      (crc_rounds-lt 8 (bit_xor crc c) (xor-lt 32 crc c h (omega arith))) b.1
