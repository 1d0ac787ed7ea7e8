-- ===== src/RawImage/Tests.antt =====
-- The theorem on raw images at a file of two blocks.
use partclone_utils.Base.{ℕ, length, some, ◌≡◌, refl, true, List, slice, replicate, ◌++◌, arith}
use partclone_utils.Sysdep.Contract.{SameFiles}
use partclone_utils.Sysdep.Memory.{Disk, memory, memory_contract}
use partclone_utils.RawImage.{RawContext, no_raw_flags, rawimage_seek}
use partclone_utils.RawImage.Handle.{new_raw, rawimage_readblocks}
use partclone_utils.RawImage.Read.{raw_at, rawimage_readblocks-slice}

abbrev bytes : List ℕ
bytes = replicate 512 1 ++ replicate 512 2

abbrev disk : Disk
disk = record { file = λ h. bytes; offset = λ h. 0 }

abbrev ready : RawContext
ready = record (new_raw 64) {
  raw_fd = 7;
  raw_totalblocks = 2;
  raw_flags = record no_raw_flags { raw_valid = true; raw_open = true; raw_verified = true };
}

length-bytes : length bytes ≡ 1024
length-bytes = refl

rawimage_readblocks-slice_example :
    (w' : Disk) × (rawimage_seek ready 1 ≡ (0, raw_at ready 1))
    × (rawimage_readblocks memory (raw_at ready 1) (replicate 512 0) 1 disk
        ≡ some ((0, slice 512 512 bytes, raw_at ready 1), w'))
    × SameFiles memory_contract disk w'
rawimage_readblocks-slice_example =
    rawimage_readblocks-slice memory_contract ready disk refl refl refl
      (omega (arith, length-bytes)) (omega (arith, length-bytes)) 1 1 (replicate 512 0)
      (omega arith) refl
