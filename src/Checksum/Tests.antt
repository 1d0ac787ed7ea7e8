-- ===== src/Checksum/Tests.antt =====
-- The theorems on the checksum at short buffers.
use partclone_utils.Base.{ℕ, ◌≡◌, refl, some, List, [], ◌∷◌, arith, bit_xor, IsBytes}
use partclone_utils.Checksum.{crc_round, crc_rounds, crc_table, crc32_seed, update_crc32}
use partclone_utils.Checksum.Linear.{crc_rounds-xor}
use partclone_utils.Checksum.Reference.{crc_bitwise, update_crc32-bitwise}

-- "123456789"
abbrev digits : List ℕ
digits = 49 ∷ 50 ∷ 51 ∷ 52 ∷ 53 ∷ 54 ∷ 55 ∷ 56 ∷ 57 ∷ []

digits-IsBytes : IsBytes digits
digits-IsBytes = ground arith

-- The check value of the CRC-32, before its last complement.
digits_test : bit_xor (crc_bitwise crc32_seed digits) crc32_seed ≡ 0xCBF43926
unfolding crc_bitwise crc_rounds crc_round
digits_test = refl

update_crc32-bitwise_example :
    update_crc32 crc_table crc32_seed digits 9 ≡ some (crc_bitwise crc32_seed digits)
update_crc32-bitwise_example = update_crc32-bitwise crc32_seed digits 9 digits-IsBytes (omega arith)

crc_rounds-xor_example : crc_rounds 8 (bit_xor 5 9) ≡ bit_xor (crc_rounds 8 5) (crc_rounds 8 9)
crc_rounds-xor_example = crc_rounds-xor 8 5 9
