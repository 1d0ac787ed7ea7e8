-- ===== src/ChangeFile/Sample.antt =====
-- A change file of two blocks of four bytes, one of them written, and contexts for it.
use partclone_utils.Base.{ℕ, zero, suc, ◌≤◌, ◌≡◌, ◌≢◌, refl, some, List, [], ◌∷◌, ◌++◌, arith}
use partclone_utils.Base.Words.{words_bytes, le_bytes}
use partclone_utils.Checksum.{crc_table, crc_rounds, crc_round}
use partclone_utils.Checksum.Reference.{crc_bitwise}
use partclone_utils.Sysdep.{Array}
use partclone_utils.Sysdep.Memory.{Disk}
use partclone_utils.ChangeFile.{Header, header_bytes, trailer_bytes, trailer_for, Context}
use partclone_utils.ChangeFile.Open.{new_header}
use partclone_utils.ChangeFile.Map.{entry, IsBlock, IsChangeFile}

abbrev pub header : Header
header = record (new_header 2) { cf_flags = 1; cf_used_blocks = 1 }

abbrev pub block_one : List ℕ
block_one = 1 ∷ 2 ∷ 3 ∷ 4 ∷ []

abbrev pub map : Array
map = record { addr = 4096; cells = 0 ∷ 48 ∷ [] }

abbrev pub bytes : List ℕ
bytes =
    header_bytes header
    ++ (words_bytes map.cells
        ++ (block_one ++ trailer_bytes (trailer_for 1 (crc_bitwise 0 block_one))))

abbrev pub context : ℕ → Context
context pos = record {
  addr = 512;
  cfc_header = header;
  cfc_fd = 7;
  cfc_blockmap = some map;
  cfc_blocksize = 4;
  cfc_blockcount = 2;
  cfc_curpos = pos;
  cfc_crc_tab32 = crc_table;
}

abbrev pub disk : Disk
disk = record { file = λ h. bytes; offset = λ h. 0 }

only_one : (i : ℕ) → entry map i ≢ 0 → i ≡ 1
only_one zero h = absurd (h refl)
only_one (suc zero) h = refl
only_one (suc (suc i)) h = absurd (h refl)

behind_map : (i : ℕ) → entry map i ≢ 0 → 48 ≤ entry map i
behind_map zero h = absurd (h refl)
behind_map (suc zero) h = omega arith
behind_map (suc (suc i)) h = absurd (h refl)

whole-IsBlock : (i : ℕ) → entry map i ≢ 0 → IsBlock 4 bytes i (entry map i)
unfolding header_bytes words_bytes trailer_bytes le_bytes crc_bitwise crc_rounds crc_round
whole-IsBlock zero h = absurd (h refl)
whole-IsBlock (suc zero) h = record {
  inside = omega arith;
  is_bytes = (omega arith, (omega arith, (omega arith, (omega arith, tt))));
  trailer = refl;
}
whole-IsBlock (suc (suc i)) h = absurd (h refl)

pub bytes-IsChangeFile : (pos : ℕ) → IsChangeFile (context pos) map bytes
unfolding header_bytes words_bytes trailer_bytes le_bytes crc_bitwise crc_rounds crc_round
bytes-IsChangeFile pos = record {
  loaded = refl;
  fits = refl;
  table = refl;
  few = omega arith;
  short = omega arith;
  map_behind = omega arith;
  map_inside = omega arith;
  behind = behind_map;
  whole = whole-IsBlock;
  apart = λ i j ne p q. absurd (omega (arith, only_one i p, only_one j q, ne));
}
