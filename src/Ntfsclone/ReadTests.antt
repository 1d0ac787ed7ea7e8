-- ===== src/Ntfsclone/ReadTests.antt =====
-- The theorems on seeks and reads in an image of ntfsclone at the sample image.
use partclone_utils.Base.{refl, true, some, [], ◌∷◌, ◌++◌, arith, replicate}
use partclone_utils.Base.Words.{le_value}
use partclone_utils.Sysdep.Memory.{memory, memory_contract, memory-HasMemory}
use partclone_utils.Ntfsclone.{NcContext, V10Context, version_10_1, image_hdr_of}
use partclone_utils.Ntfsclone.Version10.{new_v10}
use partclone_utils.Ntfsclone.Handle.{ntfsclone_readblocks}
use partclone_utils.Ntfsclone.Verified.{Indexes, scanned, v10_verify-Indexes}
use partclone_utils.Ntfsclone.Sought.{Positions, seek2cluster-Positions}
use partclone_utils.Ntfsclone.Counted.{IsReady}
use partclone_utils.Ntfsclone.Read.{IsPlain, Reads}
use partclone_utils.Ntfsclone.Clusters.{at_cluster, ntfsclone_readblocks-Reads}
use partclone_utils.Ntfsclone.Entered.{Enters, ntfsclone_seek-Enters}
use partclone_utils.Ntfsclone.Opened.{new_v10-IsCounted}
use partclone_utils.Ntfsclone.Sample.{
  cluster_a, cluster_b, sample, bytes, disk, verifying, stack, sample-IsImage,
}

-- The index of the sample.
index : Indexes memory_contract stack 4 verifying 64 sample disk
unfolding image_hdr_of le_value
index =
    v10_verify-Indexes memory_contract memory-HasMemory stack 4 verifying 64 bytes sample disk
      sample-IsImage refl (omega arith) (λ e. omega (arith, e)) (omega arith) refl refl refl refl
      refl refl (omega arith)

abbrev v10p : V10Context
v10p = record (new_v10 64) {
  v10_bitmap = some index.bitmap;
  v10_bucket_offset = some index.offsets;
}

-- The context once the sample is verified.
abbrev opened : NcContext
opened = record (scanned verifying 64 index.bitmap index.offsets) {
  nc_curblock = 0;
  nc_ivblock = some (record { addr = 96; cells = replicate 8 69 });
  nc_flags = record verifying.nc_flags {
    nc_head_valid = true;
    nc_verified = true;
    nc_have_ivblock = true;
  };
}

opened-IsReady : IsReady opened v10p bytes 50 sample
unfolding image_hdr_of le_value
opened-IsReady = record {
  bitmap = index.bitmap;
  offsets = index.offsets;
  dep = refl;
  ready = refl;
  bits = refl;
  starts = refl;
  factor = refl;
  image = sample-IsImage;
  index = index.index;
  few = omega arith;
}

opened-IsPlain : IsPlain opened
unfolding image_hdr_of le_value
opened-IsPlain = record {
  ivblock = record { addr = 96; cells = replicate 8 69 };
  buffer = refl;
  filled = refl;
  alone = refl;
}

seek2cluster-Positions_example : Positions memory_contract stack 4 opened bytes cluster_b 1025 disk
seek2cluster-Positions_example =
    seek2cluster-Positions memory_contract stack 4 opened v10p bytes 50 sample cluster_b 1025 disk
      opened-IsReady (new_v10-IsCounted v10p sample refl refl refl) refl refl refl (omega arith)

ntfsclone_seek-Enters_example : Enters opened v10p bytes 50 sample 1026
unfolding image_hdr_of le_value
ntfsclone_seek-Enters_example =
    ntfsclone_seek-Enters opened v10p bytes 50 sample version_10_1
      (30 ∷ 31 ∷ 32 ∷ 33 ∷ 34 ∷ 35 ∷ 36 ∷ 37 ∷ []) 1026 opened-IsReady refl refl refl refl refl
      (λ e. omega (arith, e))

-- Three clusters, of which one is in use.
ntfsclone_readblocks-Reads_example :
    Reads memory_contract
      (ntfsclone_readblocks memory stack 4 opened (replicate 24 0) 3)
      0
      (cluster_a ++ replicate 16 69)
      (at_cluster opened 3)
      disk
unfolding image_hdr_of le_value
ntfsclone_readblocks-Reads_example =
    ntfsclone_readblocks-Reads memory_contract stack 4 v10p bytes 50 sample version_10_1
      (new_v10-IsCounted v10p sample refl refl refl) (omega arith) 3 opened (replicate 24 0) disk
      (omega arith) refl opened-IsReady opened-IsPlain refl (omega arith) refl refl refl
