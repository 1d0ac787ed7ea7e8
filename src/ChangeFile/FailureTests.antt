-- ===== src/ChangeFile/FailureTests.antt =====
-- The theorems on errors at the sample file, on a disk that takes no writes.
use partclone_utils.Base.{ℕ, ◌≡◌, refl, some, arith}
use partclone_utils.Sysdep.{Sysdep}
use partclone_utils.Sysdep.Memory.{Disk, memory, update}
use partclone_utils.Checksum.{crc_byte, crc_table, crc_entries, crc_rounds, crc_round}
use partclone_utils.ChangeFile.{current_entry, cf_crc32}
use partclone_utils.ChangeFile.Sync.{cf_sync}
use partclone_utils.ChangeFile.Blocks.{cf_writeblock}
use partclone_utils.ChangeFile.Sample.{context, disk, block_one}
use partclone_utils.ChangeFile.Failure.{cf_writeblock-failure, cf_sync-failure}

-- Every write fails with `ENOSPC`.
abbrev full : Sysdep Disk
full = record memory { sys_write = λ h bs d. (record { error = 28; nwritten = 0 }, d) }

-- The disk once the offset has been moved.
abbrev moved : ℕ → Disk
moved o = record disk { offset = update disk.offset 7 o }

write_fails : cf_writeblock full (context 1) block_one disk ≡ some ((28, context 1), moved 48)
unfolding cf_writeblock current_entry cf_crc32 crc_byte crc_table crc_entries crc_rounds crc_round
write_fails = refl

cf_writeblock-failure_example : context 1 ≡ context 1
cf_writeblock-failure_example =
    cf_writeblock-failure full (context 1) block_one 28 (context 1) disk (moved 48) write_fails
      (omega arith)

sync_fails : cf_sync full (context 1) disk ≡ some ((28, context 1), moved 0)
unfolding cf_sync
sync_fails = refl

cf_sync-failure_example : context 1 ≡ context 1
cf_sync-failure_example =
    cf_sync-failure full (context 1) 28 (context 1) disk (moved 0) sync_fails (omega arith)
