-- ===== src/Ntfsclone/Tests.antt =====
-- The theorems on images of ntfsclone at a sample image.
use partclone_utils.Base.{
  ℕ, ◌%◌, ◌≡◌, ◌≢◌, ◌↔◌, refl, subst, Option, none, some, List, [], ◌∷◌, ◌++◌, arith, length,
  replicate,
}
use partclone_utils.Base.Words.{le_bytes, le_value}
use partclone_utils.Sysdep.{Array, array_of}
use partclone_utils.Sysdep.Contract.{SameFiles}
use partclone_utils.Sysdep.Memory.{Disk, memory, memory_contract, memory-HasMemory}
use partclone_utils.Ntfsclone.{NcContext, V10Context, version_10_1, image_hdr_of, image_hdr_bytes}
use partclone_utils.Ntfsclone.Bitmap.{bitmap_set_bit, bitmap_bit_value, free_loop, used_loop}
use partclone_utils.Ntfsclone.Scan.{Scanned, scan_round, scan_loop, scan_atom, note_used}
use partclone_utils.Ntfsclone.Version10.{
  new_v10, v10_init, v10_open_cf, v10_verify, v10_scan, v10_verify_cf,
}
use partclone_utils.Ntfsclone.Seek.{
  enter_bucket, start_of_walk, nc_seek_cf, v10_seek, seek2cluster, walk_loop, walk_atom,
}
use partclone_utils.Ntfsclone.Blocks.{
  v10_readblock, nc_read_cf, nc_read_image, nc_read_used, current_bit,
}
use partclone_utils.Ntfsclone.Handle.{
  ntfsclone_verify, ntfsclone_verify_common, ntfsclone_readblocks, ntfsclone_seek, find_nc_version,
  nc_make_ivblock, nc_read_loop,
}
use partclone_utils.Ntfsclone.Bits.{bitmap_set_bit-bitmap_bit_value}
use partclone_utils.Ntfsclone.Verified.{Indexes, v10_verify-Indexes}
use partclone_utils.Ntfsclone.Read.{clusters_from}
use partclone_utils.Ntfsclone.Opened.{ntfsclone_verify-ntfsclone_readblocks}
use partclone_utils.Ntfsclone.Limits.{
  Rounds, bitmap_set_bit-trailing, enter_bucket-stale, scan_loop-cut_off,
}
use partclone_utils.Ntfsclone.Sample.{
  sample, cluster_b, cluster_c, bytes, head_bytes, disk, fresh, bytes-IsNtfsclone, verifying, stack,
  sample-IsImage,
}

-- The first two clusters, read once the sample is verified.
ntfsclone_verify-ntfsclone_readblocks_example :
    (after after' : NcContext) × (world world' : Disk) × (ntfsclone_verify memory stack 4 fresh disk
      ≡ some ((0, after), world))
    × (ntfsclone_readblocks memory stack 4 after (replicate 16 0) 2 world
        ≡ some ((0, clusters_from 8 sample 2 0, after'), world'))
    × SameFiles memory_contract disk world'
unfolding image_hdr_of le_value
ntfsclone_verify-ntfsclone_readblocks_example =
    ntfsclone_verify-ntfsclone_readblocks memory_contract memory-HasMemory stack 4 fresh bytes
      version_10_1 sample 2 (replicate 16 0) disk bytes-IsNtfsclone refl refl refl refl refl refl
      refl (omega arith) (omega arith) (omega arith) refl

v10_verify-Indexes_example : Indexes memory_contract stack 4 verifying 64 sample disk
unfolding image_hdr_of le_value
v10_verify-Indexes_example =
    v10_verify-Indexes memory_contract memory-HasMemory stack 4 verifying 64 bytes sample disk
      sample-IsImage refl (omega arith) (λ e. omega (arith, e)) (omega arith) refl refl refl refl
      refl refl (omega arith)

-- The index of the sample.
abbrev bitmap : Array
bitmap = record { addr = 128; cells = 1 ∷ (replicate 127 0 ++ (6 ∷ [])) }

abbrev offsets : Array
offsets = record { addr = 256; cells = 50 ∷ 68 ∷ [] }

abbrev v10p : V10Context
v10p = record (new_v10 64) { v10_bitmap = some bitmap; v10_bucket_offset = some offsets }

enter_bucket-stale_example :
    (after : V10Context) × (enter_bucket v10p 1024 ≡ some after)
    × (enter_bucket after 1025 ≡ some after)
    × (start_of_walk after bitmap.cells 1025 ≡ some 1024)
unfolding bitmap_bit_value
enter_bucket-stale_example =
    enter_bucket-stale v10p bitmap 1024 1025 refl refl (omega arith) (λ e. omega (arith, e)) refl
      (λ i bucket below.
        let here : 1024 ≡ i = omega (arith, bucket, below) in
        subst (λ t. bitmap_bit_value bitmap.cells t ≡ some 0) here refl)

bitmap_set_bit-bitmap_bit_value_example :
    (after : List ℕ) × (bitmap_set_bit (0 ∷ 255 ∷ []) 9 0 ≡ some after)
    × (length after ≡ 2)
    × (bitmap_bit_value after 9 ≡ some 0)
    × ((other : ℕ)
        → other ≢ 9
        → bitmap_bit_value after other ≡ bitmap_bit_value (0 ∷ 255 ∷ []) other)
bitmap_set_bit-bitmap_bit_value_example =
    bitmap_set_bit-bitmap_bit_value (0 ∷ 255 ∷ []) 9 0 (omega arith) (omega arith)

bitmap_set_bit-trailing_example : (bitmap_set_bit (7 ∷ []) 8 1 ≡ none) ↔ (8 % 8 ≡ 0)
bitmap_set_bit-trailing_example = bitmap_set_bit-trailing (7 ∷ []) 8 1 (omega arith) refl

-- A file that ends behind the header.
abbrev cut_off : Disk
cut_off = record { file = λ h. head_bytes; offset = λ h. 50 }

abbrev scan_start : Scanned
scan_start = record { cclust = 0; nconsecsync = 0; bits = replicate 129 0; offsets = 0 ∷ 0 ∷ [] }

scan_loop-cut_off_example :
    (last : Scanned) × (after : Disk) × Rounds memory
      (λ left. replicate 9 0)
      verifying
      10
      1000000
      scan_start
      cut_off
      last
      after
    × (last.cclust ≡ 0)
    × (scan_loop memory (λ left. replicate 9 0) 1000000 verifying 10 0 scan_start cut_off ≡ none)
unfolding image_hdr_of le_value
scan_loop-cut_off_example =
    scan_loop-cut_off 1000000 (λ left. replicate 9 0) verifying 10 scan_start cut_off
      (λ left. (refl, refl)) (omega arith) (omega arith) (omega arith)

-- What a read of cluster 1025 gives after a seek to `first` and one to 1025.
abbrev read_after : ℕ → Option (List ℕ)
read_after first = elim (ntfsclone_verify memory stack 4 fresh disk) [
  | none ↦ none
  | some ((e, p), w) ↦ elim (ntfsclone_seek p first) [
    | none ↦ none
    | some (e, p) ↦ elim (ntfsclone_seek p 1025) [
      | none ↦ none
      | some (e, p) ↦ elim (ntfsclone_readblocks memory stack 4 p (replicate 8 0) 1 w) [
        | none ↦ none
        | some ((e, buffer, p), w) ↦ some buffer
      ]
    ]
  ]
]

-- After a seek to the free cluster 1024 it is the data of cluster 1026.
read_after_free : read_after 1024 ≡ some cluster_c
unfolding image_hdr_of image_hdr_bytes le_value le_bytes ntfsclone_verify ntfsclone_verify_common
    find_nc_version v10_init v10_open_cf v10_verify v10_scan v10_verify_cf array_of scan_loop
    scan_round scan_atom note_used bitmap_set_bit bitmap_bit_value nc_make_ivblock ntfsclone_seek
    v10_seek enter_bucket free_loop nc_seek_cf ntfsclone_readblocks nc_read_loop v10_readblock
    nc_read_cf nc_read_image nc_read_used current_bit seek2cluster start_of_walk used_loop walk_loop
    walk_atom
read_after_free = refl

read_after_used : read_after 1026 ≡ some cluster_b
unfolding image_hdr_of image_hdr_bytes le_value le_bytes ntfsclone_verify ntfsclone_verify_common
    find_nc_version v10_init v10_open_cf v10_verify v10_scan v10_verify_cf array_of scan_loop
    scan_round scan_atom note_used bitmap_set_bit bitmap_bit_value nc_make_ivblock ntfsclone_seek
    v10_seek enter_bucket free_loop nc_seek_cf ntfsclone_readblocks nc_read_loop v10_readblock
    nc_read_cf nc_read_image nc_read_used current_bit seek2cluster start_of_walk used_loop walk_loop
    walk_atom
read_after_used = refl
