-- ===== src/Partclone/Load2Tests.antt =====
-- The theorem on version 2 images at an image of three blocks.
use partclone_utils.Base.{ℕ, ◌≡◌, refl, true, some, List, [], ◌∷◌, ◌++◌, arith, replicate, length}
use partclone_utils.Base.Words.{le_bytes, le_value}
use partclone_utils.Checksum.{crc32_seed, crc_round, crc_rounds}
use partclone_utils.Checksum.Reference.{crc_bitwise}
use partclone_utils.Sysdep.Memory.{Disk, memory_contract, memory-HasMemory}
use partclone_utils.Partclone.{PcContext, version_0002, no_flags}
use partclone_utils.Partclone.Head.{image_magic, head_v2}
use partclone_utils.Partclone.Version1.{new_v1}
use partclone_utils.Partclone.Handle.{new_context}
use partclone_utils.Partclone.Load2.{IsVersion2, Loads2, v2_verify-Loads2}

abbrev raw : List ℕ
raw = image_magic ++ (replicate 45 0 ++ ((3 ∷ []) ++ replicate 49 0))

-- The blocks 0 and 2 are held.
abbrev bytes : List ℕ
bytes = raw ++ (5 ∷ le_bytes 4 (crc_bitwise crc32_seed (5 ∷ [])))

abbrev disk : Disk
disk = record { file = λ h. bytes; offset = λ h. 0 }

abbrev loading : PcContext
loading = record (new_context 64) {
  pc_fd = 7;
  pc_verdep = some (new_v1 96);
  pc_dispatch = some version_0002;
  pc_raw_head = raw;
  pc_flags = record no_flags {
    pc_valid = true;
    pc_open = true;
    pc_have_verdep = true;
    pc_version_init = true;
  };
}

bytes-IsVersion2 : IsVersion2 raw bytes 3
unfolding head_v2 le_value le_bytes crc_bitwise crc_rounds crc_round
bytes-IsVersion2 = record {
  few = omega arith;
  magic = refl;
  total_at = refl;
  fits = omega (arith, long);
  is_bytes = ground arith;
  checksum = refl;
}
  where
    long : length bytes ≡ 115
    long = refl

v2_verify-Loads2_example : Loads2 memory_contract loading (new_v1 96) bytes 3 disk
v2_verify-Loads2_example =
    v2_verify-Loads2 memory_contract memory-HasMemory loading (new_v1 96) bytes 3 disk
      bytes-IsVersion2 refl refl refl refl refl
