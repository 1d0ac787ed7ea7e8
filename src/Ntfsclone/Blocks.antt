-- ===== src/Ntfsclone/Blocks.antt =====
-- One cluster of an ntfsclone image in src/libntfsclone.c: `v10_readblock`, `v10_blockused`,
-- `v10_writeblock` and `v10_sync`. `stack` and `fuel` are those of the walk over the atoms.
use partclone_utils.Base.{
  ℕ, ◌+◌, true, not, Option, none, some, List, ◌++◌, ◌==◌, leb, if◌then◌else◌, length, take,
  overlay, ℤ, pos, negsuc,
}
use partclone_utils.Sysdep.{Sysdep, M, pure, ◌>>=◌, call, deref, in_bounds, einval, eio}
use partclone_utils.ChangeFile.{Context, cf_seek, cf_blockused}
use partclone_utils.ChangeFile.Open.{cf_create}
use partclone_utils.ChangeFile.Sync.{cf_sync}
use partclone_utils.ChangeFile.Blocks.{cf_readblock, cf_writeblock}
use partclone_utils.Partclone.Blocks.{cf_trailer}
use partclone_utils.Ntfsclone.{NcContext, ntctx_have_verdep, ntctx_have_cf_path, ntctx_writeready}
use partclone_utils.Ntfsclone.Bitmap.{bitmap_bit_value}
use partclone_utils.Ntfsclone.Seek.{seek2cluster}

-- `bitmap_bit_value(v10p->v10_bitmap, ntcp->nc_curblock)`; `none` is an access outside an array.
unfoldable pub current_bit : NcContext → Option ℕ
current_bit ntcp = elim ntcp.nc_verdep [
  | none ↦ none
  | some v10p ↦ elim v10p.v10_bitmap [
    | none ↦ none
    | some bitmap ↦ bitmap_bit_value bitmap.cells ntcp.nc_curblock
  ]
]

-- `v10_blockused`: -2, 0 or 1; `none` is an access outside an array.
unfoldable pub v10_blockused : NcContext → Option ℤ
v10_blockused ntcp =
    if not (ntctx_have_verdep ntcp)
    then some (negsuc 1)
    else let bit : Option ℤ = elim (current_bit ntcp) [ none ↦ none | some bit ↦ some (pos bit) ] in
      elim ntcp.nc_cf_handle [
        | none ↦ bit
        | some cf ↦ elim (cf_blockused cf) [
          | none ↦ none
          | some used ↦ if used == 0 then bit else some (pos 1)
        ]
      ]

module _ {W : Type 0} (sys : Sysdep W) where
  -- The first half of `v10_readblock`: the cluster from the change file, `EINVAL` if there is none.
  unfoldable pub nc_read_cf : NcContext → List ℕ → M W (ℕ × List ℕ × NcContext)
  nc_read_cf ntcp buffer = elim ntcp.nc_cf_handle [
    | none ↦ pure (einval, buffer, ntcp)
    | some cf ↦ do
      let sought = (cf_seek cf ntcp.nc_curblock).1
      (error, buffer) ← cf_readblock sys sought buffer
      pure (error, buffer, record ntcp { nc_cf_handle = some sought })
  ]

  -- A used cluster, from the image.
  unfoldable pub nc_read_used : (ℕ → List ℕ) → ℕ → NcContext → List ℕ → M W (ℕ × List ℕ)
  nc_read_used stack fuel ntcp buffer = do
    error ← seek2cluster sys stack fuel ntcp ntcp.nc_curblock
    if not (error == 0) then pure (error, buffer) else do
      let size = ntcp.nc_head.cluster_size
      _ ← in_bounds (leb size (length buffer))
      r ← call (sys.sys_read ntcp.nc_fd size)
      pure (if r.nread == size then 0 else eio, overlay r.got buffer)

  -- The second half of `v10_readblock`.
  unfoldable pub nc_read_image : (ℕ → List ℕ) → ℕ → NcContext → List ℕ → M W (ℕ × List ℕ)
  nc_read_image stack fuel ntcp buffer = do
    bit ← deref (current_bit ntcp)
    if bit == 0
        then (do
          let size = ntcp.nc_head.cluster_size
          ivblock ← deref ntcp.nc_ivblock
          _ ← in_bounds (leb size (length ivblock.cells))
          _ ← in_bounds (leb size (length buffer))
          pure (0, overlay (take size ivblock.cells) buffer))
        else nc_read_used stack fuel ntcp buffer

  -- `v10_readblock`: the error, what the buffer holds afterwards, and the context.
  unfoldable pub v10_readblock :
      (ℕ → List ℕ) → ℕ → NcContext → List ℕ → M W (ℕ × List ℕ × NcContext)
  v10_readblock stack fuel ntcp buffer =
      if not (ntctx_have_verdep ntcp) then pure (einval, buffer, ntcp) else do
        (error, buffer, ntcp) ← nc_read_cf ntcp buffer
        if error == 0 then pure (0, buffer, ntcp) else do
          (error, buffer) ← nc_read_image stack fuel ntcp buffer
          pure (error, buffer, ntcp)

  -- The change file's path, made up from the image's if there is none; the error of the allocation
  -- is overwritten by that of `cf_create`.
  unfoldable pub nc_name_cf : NcContext → M W NcContext
  nc_name_cf ntcp = if ntctx_have_cf_path ntcp then pure ntcp else do
    path ← deref ntcp.nc_path
    a ← call (sys.sys_malloc (length path.cells + length cf_trailer + 1))
    if a.error == 0
        then pure (record ntcp {
          nc_cf_path = some (record { addr = a.addr; cells = path.cells ++ cf_trailer });
          nc_flags = record ntcp.nc_flags { nc_have_cf_path = true };
        })
        else pure (record ntcp { nc_cf_path = none })

  -- The handle after `cf_create` has, or has not, stored one.
  abbrev pub stored_handle : Option Context → Option Context → Option Context
  stored_handle none old = old
  stored_handle (some cf) old = some cf

  -- The first half of `v10_writeblock`: a change file is created or opened unless one is ready.
  unfoldable pub nc_ready_cf : NcContext → M W (ℕ × NcContext)
  nc_ready_cf ntcp = if ntctx_writeready ntcp then pure (0, ntcp) else do
    ntcp ← nc_name_cf ntcp
    path ← deref ntcp.nc_cf_path
    (error, cf) ← cf_create sys path.cells ntcp.nc_head.cluster_size ntcp.nc_head.nr_clusters
    let ntcp = record ntcp { nc_cf_handle = stored_handle cf ntcp.nc_cf_handle }
    if error == 0
        then pure (
          0,
          record ntcp {
            nc_flags = record ntcp.nc_flags { nc_have_cfdep = true; nc_cf_verified = true };
          },
        )
        else pure (error, ntcp)

  -- `v10_writeblock`
  unfoldable pub v10_writeblock : NcContext → List ℕ → M W (ℕ × NcContext)
  v10_writeblock ntcp buffer = if not (ntctx_have_verdep ntcp) then pure (einval, ntcp) else do
    (error, ntcp) ← nc_ready_cf ntcp
    if not (error == 0) then pure (error, ntcp) else do
      cf ← deref ntcp.nc_cf_handle
      (error, cf) ← cf_writeblock sys (cf_seek cf ntcp.nc_curblock).1 buffer
      pure (error, record ntcp { nc_cf_handle = some cf })

  -- `v10_sync`
  unfoldable pub v10_sync : NcContext → M W (ℕ × NcContext)
  v10_sync ntcp = if not (ntctx_writeready ntcp) then pure (einval, ntcp) else do
    cf ← deref ntcp.nc_cf_handle
    (error, cf) ← cf_sync sys cf
    pure (error, record ntcp { nc_cf_handle = some cf })
