-- ===== src/Image/Stale.antt =====
-- `image_open` of src/libimage.c on a path that is not taken by the image types before the raw one.
use partclone_utils.Base.{ℕ, ◌≡◌, ◌≢◌, false, Option, none, some, List, arith}
use partclone_utils.Sysdep.{Sysdep, OpenMode}
use partclone_utils.Image.{ImageType, ntfsclone_kind, partclone_kind, raw_kind}
use partclone_utils.Image.Dispatch.{probe_kind, probe_loop, image_open}

module _ {W N : Type 0} (sys : Sysdep W) (t : ImageType W N) where
  -- When the ntfsclone and the partclone probe fail and the raw probe succeeds, `image_open` that
  -- may not take raw images returns 0, which is success, and stores no handle.
  pub image_open-raw_refused :
      (path : List ℕ) (cfpath : Option (List ℕ)) (omode : OpenMode) (e1 e2 : ℕ) (w w1 w2 w3 : W)
      → probe_kind sys t ntfsclone_kind path w ≡ some (e1, w1)
      → e1 ≢ 0
      → probe_kind sys t partclone_kind path w1 ≡ some (e2, w2)
      → e2 ≢ 0
      → probe_kind sys t raw_kind path w2 ≡ some (0, w3)
      → image_open sys t path cfpath omode false w ≡ some ((0, none), w3)
  unfolding image_open probe_loop
  image_open-raw_refused path cfpath omode e1 e2 w w1 w2 w3 p1 n1 p2 n2 p3 =
      ground (arith, p1, n1, p2, n2, p3)
