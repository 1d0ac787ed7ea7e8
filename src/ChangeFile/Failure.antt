-- ===== src/ChangeFile/Failure.antt =====
-- `cf_writeblock` and `cf_sync` of src/changefile.c when they return an error.
use partclone_utils.Base.{ℕ, ◌≡◌, ◌≢◌, some, List, arith}
use partclone_utils.Sysdep.{Sysdep}
use partclone_utils.ChangeFile.{Context}
use partclone_utils.ChangeFile.Sync.{cf_sync}
use partclone_utils.ChangeFile.Blocks.{cf_writeblock}

module _ {W : Type 0} (sys : Sysdep W) (cfp : Context) where
  -- Whatever the services do, a `cf_writeblock` that returns an error other than 0 leaves its
  -- context, the block map, the count of used blocks and the dirty flag included, as it was.
  pub cf_writeblock-failure :
      (buffer : List ℕ) (error : ℕ) (cfp' : Context) (w w' : W)
      → cf_writeblock sys cfp buffer w ≡ some ((error, cfp'), w')
      → error ≢ 0
      → cfp' ≡ cfp
  unfolding cf_writeblock
  cf_writeblock-failure buffer error cfp' w w' run ne = ground (arith, run, ne)

  -- Whatever the services do, a `cf_sync` that returns an error other than 0 leaves its context
  -- as it was: a dirty change file stays dirty.
  pub cf_sync-failure :
      (error : ℕ) (cfp' : Context) (w w' : W)
      → cf_sync sys cfp w ≡ some ((error, cfp'), w')
      → error ≢ 0
      → cfp' ≡ cfp
  unfolding cf_sync
  cf_sync-failure error cfp' w w' run ne = ground (arith, run, ne)
