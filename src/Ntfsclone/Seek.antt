-- ===== src/Ntfsclone/Seek.antt =====
-- `v10_seek` and `seek2cluster` of src/libntfsclone.c: finding a cluster in the image. The walk over the
-- atoms runs on fuel, with `stack` for the atom's buffer, as the scan does.
use partclone_utils.Base.{
  ℕ, zero, suc, ◌+◌, ◌-◌, ◌*◌, ◌/◌, ◌%◌, ◌^◌, true, false, not, ◌&&◌, ◌||◌, Option, none, some,
  List, ◌==◌, ltb, if◌then◌else◌, get_elem?, overlay,
}
use partclone_utils.Sysdep.{
  Sysdep, M, pure, fault, ◌>>=◌, call, deref, seek_absolute, seek_relative, einval, edeadlk,
}
use partclone_utils.ChangeFile.{Context, cf_seek}
use partclone_utils.Ntfsclone.{
  NcContext, V10Context, vdt_minor, atom_size, atom_to_data_offset, nca_atype, ncau_empty_count,
  ntctx_have_verdep,
}
use partclone_utils.Ntfsclone.Bitmap.{bitmap_bit_value, free_loop, used_loop}
use partclone_utils.Ntfsclone.Scan.{rest_of_cluster}

-- The handle after the free clusters of the bucket of `blockno` have been counted; `none` is an access
-- outside the bitmap.
unfoldable pub enter_bucket : V10Context → ℕ → Option V10Context
enter_bucket v10p blockno =
    let cbn = blockno / 2 ^ v10p.v10_bucket_factor in
    if cbn == v10p.v10_current_bucket then some v10p else elim v10p.v10_bitmap [
      | none ↦ none
      | some bitmap ↦
          let pbn = (cbn * 2 ^ v10p.v10_bucket_factor) % 2 ^ 64 in
          elim (free_loop bitmap.cells (blockno - pbn) pbn 0) [
            | none ↦ none
            | some bsf ↦ some (record v10p { v10_bsfcount = bsf; v10_current_bucket = cbn })
          ]
    ]

-- The seek of the change file that goes with one of the image.
unfoldable pub nc_seek_cf : Option Context → ℕ → ℕ × Option Context
nc_seek_cf none blockno = (0, none)
nc_seek_cf (some cf) blockno = let (error, cf') = cf_seek cf blockno in (error, some cf')

-- `v10_seek`; `none` is an access outside an array, or NULL followed.
unfoldable pub v10_seek : NcContext → ℕ → Option (ℕ × NcContext)
v10_seek ntcp blockno =
    if not (ntctx_have_verdep ntcp) then some (einval, ntcp) else elim ntcp.nc_verdep [
      | none ↦ none
      | some v10p ↦ elim ntcp.nc_dispatch [
        | none ↦ none
        | some version ↦
            let blockno =
              (if vdt_minor version == 0 && blockno == ntcp.nc_head.nr_clusters
                then 0
                else blockno) in
            elim (enter_bucket v10p blockno) [
              | none ↦ none
              | some v10p ↦
                  let (error, cf) = nc_seek_cf ntcp.nc_cf_handle blockno in
                  some (error, record ntcp { nc_verdep = some v10p; nc_cf_handle = cf })
            ]
      ]
    ]

-- Where `seek2cluster` starts to count.
unfoldable pub start_of_walk : V10Context → List ℕ → ℕ → Option ℕ
start_of_walk v10p bitmap cnum =
    let cbucket = cnum / 2 ^ v10p.v10_bucket_factor in
    let base = cbucket * 2 ^ v10p.v10_bucket_factor in
    if cbucket == v10p.v10_current_bucket
    then some ((base + v10p.v10_bsfcount) % 2 ^ 64)
    else used_loop bitmap (cnum - base) base

module _ {W : Type 0} (sys : Sysdep W) (stack : ℕ → List ℕ) where
  -- The `switch` of the walk on an atom that has been read: the error and `cpos`.
  unfoldable pub walk_atom : NcContext → List ℕ → ℕ → M W (ℕ × ℕ)
  walk_atom ntcp ibuf cpos =
      if nca_atype ibuf == 0
      then pure (0, (cpos + ncau_empty_count ibuf) % 2 ^ 64)
      else if nca_atype ibuf == 1
      then (do
        k ← call (sys.sys_seek ntcp.nc_fd (rest_of_cluster ntcp.nc_head) seek_relative)
        pure (k.error, if k.error == 0 then (cpos + 1) % 2 ^ 64 else cpos))
      else pure (edeadlk, cpos)

  -- The loop of `seek2cluster`, from `cpos` on.
  unfoldable pub walk_loop : ℕ → NcContext → ℕ → ℕ → ℕ → M W (ℕ × ℕ)
  walk_loop zero ntcp cnum error cpos =
      if error == 0 && ltb cpos cnum then fault else pure (error, cpos)
  walk_loop (suc left) ntcp cnum error cpos = elim (error == 0 && ltb cpos cnum) [
    | false ↦ pure (error, cpos)
    | true ↦ do
      r ← call (sys.sys_read ntcp.nc_fd atom_size)
      (error, cpos) ←
          (if r.error == 0
            then walk_atom ntcp (overlay r.got (stack left)) cpos
            else pure (r.error, cpos))
      walk_loop left ntcp cnum error cpos
  ]

  -- `seek2cluster`
  unfoldable pub seek2cluster : ℕ → NcContext → ℕ → M W ℕ
  seek2cluster fuel ntcp cnum = do
    v10p ← deref ntcp.nc_verdep
    offsets ← deref v10p.v10_bucket_offset
    imgpos ← deref (get_elem? offsets.cells (cnum / 2 ^ v10p.v10_bucket_factor))
    bitmap ← deref v10p.v10_bitmap
    bit ← deref (bitmap_bit_value bitmap.cells cnum)
    if bit == 0 || imgpos == 0 then pure einval else do
      start ← deref (start_of_walk v10p bitmap.cells cnum)
      k ← call (sys.sys_seek ntcp.nc_fd imgpos seek_absolute)
      (error, cpos) ← walk_loop fuel ntcp cnum k.error start
      if error == 0 && cpos == cnum
          then (do
            k ← call (sys.sys_seek ntcp.nc_fd atom_to_data_offset seek_relative)
            pure k.error)
          else pure error
