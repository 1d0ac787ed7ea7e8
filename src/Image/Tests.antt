-- ===== src/Image/Tests.antt =====
-- The theorems on image handles, with the table of src/libntfsclone.c for images of ntfsclone.
use partclone_utils.Base.{◌≡◌, refl, false, none, some, [], ◌∷◌, arith}
use partclone_utils.Sysdep.{array_of, open_ro, eio}
use partclone_utils.Sysdep.Memory.{Disk, memory, update}
use partclone_utils.Partclone.Handle.{
  partclone_probe, partclone_open, open_image, copy_cf_path, partclone_close, partclone_verify,
}
use partclone_utils.RawImage.Handle.{
  rawimage_probe, rawimage_open, raw_open_image, raw_copy_path, rawimage_close, rawimage_verify,
  raw_open_cf,
}
use partclone_utils.Base.Words.{le_bytes, le_value}
use partclone_utils.Ntfsclone.{NcContext, image_hdr_of, image_hdr_bytes}
use partclone_utils.Ntfsclone.Handle.{
  ntfsclone_probe, ntfsclone_open, nc_open_image, nc_copy_cf_path, ntfsclone_close,
  ntfsclone_verify_header_only, ntfsclone_verify_common,
}
use partclone_utils.Ntfsclone.Table.{ntfsclone_image_type}
use partclone_utils.Image.{ntfsclone_kind, ImageType, partclone_kind, raw_kind}
use partclone_utils.Image.Dispatch.{probe_kind, image_open}
use partclone_utils.Image.Stale.{image_open-raw_refused}

-- The table; no file of these tests is an image of ntfsclone, so that no fuel is needed.
abbrev table : ImageType Disk NcContext
table = ntfsclone_image_type memory (λ left. []) 0

-- A disk whose only file holds three bytes.
abbrev disk : Disk
disk = record { file = λ h. 1 ∷ 2 ∷ 3 ∷ []; offset = λ h. 0 }

-- The disk after the first probe, which reads the file, and after the second, which finds its end.
abbrev after_ntfsclone : Disk
after_ntfsclone = record disk { offset = update disk.offset 7 3 }

abbrev after_partclone : Disk
after_partclone = record disk { offset = update after_ntfsclone.offset 7 3 }

ntfsclone_refuses :
    probe_kind memory table ntfsclone_kind (7 ∷ []) disk ≡ some (eio, after_ntfsclone)
unfolding ntfsclone_probe ntfsclone_open nc_open_image nc_copy_cf_path ntfsclone_close
    ntfsclone_verify_header_only ntfsclone_verify_common image_hdr_of image_hdr_bytes le_bytes
    le_value
ntfsclone_refuses = refl

partclone_refuses :
    probe_kind memory table partclone_kind (7 ∷ []) after_ntfsclone ≡ some (eio, after_partclone)
unfolding partclone_probe partclone_open open_image copy_cf_path partclone_close partclone_verify
partclone_refuses = refl

raw_accepts : probe_kind memory table raw_kind (7 ∷ []) after_partclone ≡ some (0, after_partclone)
unfolding rawimage_probe rawimage_open raw_open_image raw_copy_path rawimage_close rawimage_verify
    raw_open_cf array_of
raw_accepts = refl

image_open-raw_refused_example :
    image_open memory table (7 ∷ []) none open_ro false disk ≡ some ((0, none), after_partclone)
image_open-raw_refused_example =
    image_open-raw_refused memory table (7 ∷ []) none open_ro eio eio disk after_ntfsclone
      after_partclone after_partclone ntfsclone_refuses (omega arith) partclone_refuses
      (omega arith) raw_accepts
