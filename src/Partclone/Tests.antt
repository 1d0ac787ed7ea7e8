-- ===== src/Partclone/Tests.antt =====
-- The theorems on partclone images at the sample image.
use partclone_utils.Base.{ℕ, ◌≡◌, refl, some, List, [], ◌∷◌, ◌++◌, arith, replicate}
use partclone_utils.Sysdep.Contract.{SameFiles}
use partclone_utils.Sysdep.Memory.{Disk, memory, memory_contract, memory-HasMemory}
use partclone_utils.Partclone.{PcContext}
use partclone_utils.Partclone.Layout.{stored_offset, rblock2offset-stored_offset}
use partclone_utils.Partclone.Handle.{partclone_seek, partclone_readblocks}
use partclone_utils.Partclone.Version1.{sumcount_loop}
use partclone_utils.Partclone.Version2.{unpack_loop}
use partclone_utils.Partclone.Rank.{rank, Filled, sumcount_loop-Filled}
use partclone_utils.Partclone.View.{image_block, image_blocks, placed_at}
use partclone_utils.Partclone.Read.{partclone_seek-rank, readblocks-image_blocks}
use partclone_utils.Partclone.Blocks.{rblock2offset, v1_readblock}
use partclone_utils.Partclone.Seek.{marks, partclone_seek-mixed_count}
use partclone_utils.Partclone.Overlay.{overlaid_at, v1_readblock-absent}
use partclone_utils.ChangeFile.Map.{stored}
use partclone_utils.ChangeFile.Sample.{context, bytes-IsChangeFile}
use partclone_utils.Partclone.Unpack.{Unpacked, unpack_loop-Unpacked}
use partclone_utils.Partclone.Load.{Loads, v1_verify-Loads}
use partclone_utils.Partclone.Verify.{Verifies, partclone_verify-Verifies}
use partclone_utils.Partclone.Sample.{
  bits, block_a, block_c, bytes, disk, fresh, bytes-IsVersion1, bytes_version, bitmap, v1p, ready,
  bits-IsBitmap, ready-IsLoaded, bytes-HoldsBlocks, iffy_v1p, iffy_ready, iffy-IsLoaded, overlaid,
  both, overlaid-IsLoaded, loading,
}

partclone_verify-Verifies_example : Verifies memory_contract fresh bytes 3 disk
partclone_verify-Verifies_example =
    partclone_verify-Verifies memory_contract memory-HasMemory fresh bytes 3 disk bytes-IsVersion1
      bytes_version refl refl refl refl refl refl refl

-- The disk is block a, zeros, block c.
image_blocks_test :
    image_blocks ready.pc_head bits bytes 0 3 ≡ block_a ++ (replicate 4 0 ++ block_c)
unfolding image_blocks image_block rank stored_offset
image_blocks_test = refl

partclone_seek-rank_example : partclone_seek ready 2 ≡ some (0, placed_at ready v1p bitmap 2 2)
partclone_seek-rank_example = partclone_seek-rank ready-IsLoaded bits-IsBitmap refl 2 (omega arith)

partclone_seek-mixed_count_example :
    partclone_seek iffy_ready 2
    ≡ some (
      0,
      record iffy_ready { pc_verdep = some (record iffy_v1p { v1_nvbcount = 2 }); pc_curblock = 2 },
    )
unfolding rank marks
partclone_seek-mixed_count_example = partclone_seek-mixed_count iffy-IsLoaded refl 2 (omega arith)

rblock2offset-stored_offset_example : rblock2offset ready.pc_head 1 ≡ stored_offset ready.pc_head 1
unfolding stored_offset
rblock2offset-stored_offset_example = rblock2offset-stored_offset ready.pc_head 1 (omega arith)

readblocks-image_blocks_example :
    (there : PcContext) × (w' : Disk) × (partclone_seek ready 1 ≡ some (0, there))
    × (partclone_readblocks memory there (replicate 8 7) 2 disk
        ≡ some ((0, image_blocks ready.pc_head bits bytes 1 2, placed_at ready v1p bitmap 3 3), w'))
    × SameFiles memory_contract disk w'
readblocks-image_blocks_example =
    readblocks-image_blocks ready-IsLoaded bits-IsBitmap refl memory_contract bytes
      bytes-HoldsBlocks 1 2 (replicate 8 7) disk refl refl (omega arith) (omega arith) refl

v1_readblock-absent_example :
    (w' : Disk) × (v1_readblock memory (placed_at overlaid v1p bitmap 0 0) (replicate 4 7) both
      ≡ some (
        (
          0,
          image_block ready.pc_head bits bytes 0,
          overlaid_at overlaid v1p bitmap (context 0) 0 1,
        ),
        w',
      ))
    × SameFiles memory_contract both w'
unfolding stored
v1_readblock-absent_example =
    v1_readblock-absent overlaid-IsLoaded bits-IsBitmap memory_contract bytes bytes-HoldsBlocks refl
      0 (replicate 4 7) both refl refl (bytes-IsChangeFile 0) (omega arith) (omega arith) refl refl

v1_verify-Loads_example : Loads memory_contract loading v1p bytes 3 disk
v1_verify-Loads_example =
    v1_verify-Loads memory_contract memory-HasMemory loading v1p bytes 3 disk bytes-IsVersion1 refl
      refl refl refl refl refl

sumcount_loop-Filled_example :
    (out : List ℕ) × (sumcount_loop 1 bits 3 0 0 (7 ∷ 7 ∷ []) ≡ some out) × Filled 1 bits 3 2 out
unfolding rank
sumcount_loop-Filled_example =
    sumcount_loop-Filled 1 bits 3 0 2 (7 ∷ 7 ∷ []) (omega arith) (omega arith)
      (record { same_size = refl; hints = λ k h. absurd (omega arith) })

unpack_loop-Unpacked_example :
    (out : List ℕ) × (unpack_loop (5 ∷ 1 ∷ []) 9 0 ≡ some out) × Unpacked (5 ∷ 1 ∷ []) 9 0 out
unpack_loop-Unpacked_example = unpack_loop-Unpacked (5 ∷ 1 ∷ []) 9 0 (omega arith)
