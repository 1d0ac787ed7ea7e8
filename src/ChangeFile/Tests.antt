-- ===== src/ChangeFile/Tests.antt =====
-- The theorems on change files at the sample file.
use partclone_utils.Base.{ℕ, ◌≡◌, refl, none, some, List, [], ◌∷◌, arith, length}
use partclone_utils.Base.Words.{words_bytes, le_bytes}
use partclone_utils.Checksum.Reference.{crc_bitwise}
use partclone_utils.Sysdep.{Array}
use partclone_utils.Sysdep.Contract.{SameFiles}
use partclone_utils.Sysdep.Memory.{Disk, memory, memory_contract, memory-HasRoom, memory-HasMemory}
use partclone_utils.ChangeFile.{
  header_bytes, trailer_bytes, Context, cf_seek, cf_blockused, cf_crc32,
}
use partclone_utils.ChangeFile.Blocks.{cf_readblock, cf_writeblock}
use partclone_utils.ChangeFile.Map.{stored, cf_crc32-bitwise}
use partclone_utils.ChangeFile.Read.{cf_readblock-some}
use partclone_utils.ChangeFile.Store.{Stores, cf_writeblock-Stores}
use partclone_utils.ChangeFile.Saved.{saved, Saves, cf_sync-Saves}
use partclone_utils.ChangeFile.Durable.{IsMarked, Restores, cf_verify-Restores}
use partclone_utils.ChangeFile.Fresh.{Creates, write_new-Creates}
use partclone_utils.ChangeFile.Past.{cf_seek-faults}
use partclone_utils.ChangeFile.Sample.{
  header, block_one, map, bytes, context, disk, bytes-IsChangeFile,
}

abbrev block_two : List ℕ
block_two = 9 ∷ 8 ∷ 7 ∷ 6 ∷ []

abbrev buffer : List ℕ
buffer = 0 ∷ 0 ∷ 0 ∷ 0 ∷ []

length-bytes : length bytes ≡ 68
unfolding header_bytes words_bytes trailer_bytes le_bytes
length-bytes = refl

cf_writeblock-Stores_example :
    (cfp' : Context) × (map' : Array) × (w' : Disk) × (cf_writeblock memory
        (context 0)
        block_two
        disk
      ≡ some ((0, cfp'), w'))
    × Stores memory_contract (context 0) map disk block_two cfp' map' w'
cf_writeblock-Stores_example =
    cf_writeblock-Stores memory_contract memory-HasRoom disk (bytes-IsChangeFile 0) (omega arith)
      refl (omega (arith, length-bytes)) block_two
      (omega arith, (omega arith, (omega arith, (omega arith, tt)))) refl

cf_readblock-some_example :
    (w' : Disk) × (cf_readblock memory (context 1) buffer disk ≡ some ((0, block_one), w'))
    × SameFiles memory_contract disk w'
unfolding stored header_bytes words_bytes trailer_bytes le_bytes
cf_readblock-some_example =
    cf_readblock-some memory_contract disk (bytes-IsChangeFile 1) (omega arith) buffer block_one
      refl refl refl

cf_sync-Saves_example : Saves memory_contract (context 1) map disk
cf_sync-Saves_example =
    cf_sync-Saves memory_contract memory-HasRoom (context 1) map disk (bytes-IsChangeFile 1) refl

-- The file after a sync, and a context that `cf_init` has opened on it.
abbrev saved_disk : Disk
saved_disk = record { file = λ h. saved (context 1) map bytes; offset = λ h. 0 }

abbrev opened : Context
opened = record (context 0) { cfc_blockmap = none }

header-IsMarked : IsMarked header
header-IsMarked = record {
  is_header = record {
    cf_magic = omega arith;
    cf_version = omega arith;
    cf_flags = omega arith;
    cf_total_blocks = omega arith;
    cf_used_blocks = omega arith;
    cf_blockmap_offset = omega arith;
    cf_magic2 = omega arith;
  };
  magic = refl;
  magic2 = refl;
}

cf_verify-Restores_example : Restores memory_contract (context 1) map bytes opened saved_disk
cf_verify-Restores_example =
    cf_verify-Restores memory_contract memory-HasMemory (context 1) map bytes opened saved_disk
      (bytes-IsChangeFile 1) header-IsMarked refl refl refl refl refl

cf_seek-faults_example :
    (cf_seek (context 1) 2 ≡ (0, context 2))
    × (cf_readblock memory (context 2) buffer disk ≡ none)
    × (cf_writeblock memory (context 2) buffer disk ≡ none)
    × (cf_blockused (context 2) ≡ none)
cf_seek-faults_example = cf_seek-faults memory (bytes-IsChangeFile 1) buffer disk

cf_crc32-bitwise_example : cf_crc32 (context 0) 0 block_two 4 ≡ some (crc_bitwise 0 block_two)
cf_crc32-bitwise_example =
    cf_crc32-bitwise (bytes-IsChangeFile 0) block_two
      (omega arith, (omega arith, (omega arith, (omega arith, tt)))) refl

-- A disk whose files are empty.
abbrev empty_disk : Disk
empty_disk = record { file = λ h. []; offset = λ h. 0 }

write_new-Creates_example : Creates memory_contract 7 3 empty_disk
write_new-Creates_example =
    write_new-Creates memory_contract memory-HasRoom memory-HasMemory 7 3 empty_disk (omega arith)
      refl refl refl
