-- ===== src/Partclone/OverlayTests.antt =====
-- The theorems on a change file in front of an image, at the sample change file.
use partclone_utils.Base.{[], ◌∷◌, List, length, ℕ, ◌≡◌, refl, true, some, arith, replicate}
use partclone_utils.Sysdep.{Array}
use partclone_utils.Sysdep.Contract.{SameFiles}
use partclone_utils.Sysdep.Memory.{Disk, memory, memory_contract, memory-HasRoom}
use partclone_utils.Base.Words.{words_bytes, le_bytes}
use partclone_utils.ChangeFile.{header_bytes, trailer_bytes}
use partclone_utils.ChangeFile.Map.{stored}
use partclone_utils.ChangeFile.Sample.{map, bytes, block_one, context, disk, bytes-IsChangeFile}
use partclone_utils.ChangeFile.{Context}
use partclone_utils.ChangeFile.Store.{Stores}
use partclone_utils.Partclone.Write.{with_cf, v1_writeblock-read_back}
use partclone_utils.Partclone.Blocks.{v1_writeblock}
use partclone_utils.Partclone.Overlay.{moved_to}
use partclone_utils.Partclone.{PcContext, no_flags}
use partclone_utils.Partclone.Version1.{new_v1}
use partclone_utils.Partclone.Blocks.{v1_readblock}
use partclone_utils.Partclone.Handle.{new_context}
use partclone_utils.Partclone.Overlay.{behind, v1_readblock-stored}

-- A context at block `b`, with the sample change file.
abbrev changed : ℕ → PcContext
changed b = record (new_context 64) {
  pc_curblock = b;
  pc_verdep = some (new_v1 96);
  pc_cf_handle = some (context 0);
  pc_flags = record no_flags { pc_valid = true; pc_have_verdep = true };
}

v1_readblock-stored_example :
    (w' : Disk) × (v1_readblock memory (changed 1) (replicate 4 0) disk
      ≡ some ((0, block_one, behind (changed 1) (context 0)), w'))
    × SameFiles memory_contract disk w'
unfolding stored header_bytes words_bytes trailer_bytes le_bytes
v1_readblock-stored_example =
    v1_readblock-stored memory_contract (changed 1) disk refl refl (bytes-IsChangeFile 1)
      (omega arith) (replicate 4 0) block_one refl refl refl

-- The context at block 0 with the flags of one that can be written to.
abbrev writable : PcContext
writable = record (changed 0) {
  pc_flags = record no_flags {
    pc_valid = true;
    pc_open = true;
    pc_verified = true;
    pc_head_valid = true;
    pc_version_init = true;
    pc_have_verdep = true;
    pc_have_cfdep = true;
    pc_cf_verified = true;
  };
}

length-bytes : length bytes ≡ 68
unfolding header_bytes words_bytes trailer_bytes le_bytes
length-bytes = refl

abbrev block_two : List ℕ
block_two = 9 ∷ 8 ∷ 7 ∷ 6 ∷ []

v1_writeblock-read_back_example :
    (cf' : Context) × (map' : Array) × (w' : Disk) × (w'' : Disk) × (v1_writeblock memory writable
        block_two disk
      ≡ some ((0, with_cf writable cf'), w'))
    × Stores memory_contract (moved_to (context 0) 0) map disk block_two cf' map' w'
    × (v1_readblock memory (with_cf writable cf') (replicate 4 0) w'
        ≡ some ((0, block_two, behind (with_cf writable cf') cf'), w''))
v1_writeblock-read_back_example =
    v1_writeblock-read_back memory_contract memory-HasRoom writable disk refl refl refl
      (bytes-IsChangeFile 0) (omega arith) refl (omega (arith, length-bytes)) block_two
      (replicate 4 0) (omega arith, (omega arith, (omega arith, (omega arith, tt)))) refl refl
