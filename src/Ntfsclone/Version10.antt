-- ===== src/Ntfsclone/Version10.antt =====
-- `v10_init`, `v10_verify` and `v10_finish` of src/libntfsclone.c, which both format versions share.
use partclone_utils.Base.{
  ℕ, ◌+◌, ◌-◌, ◌*◌, ◌/◌, ◌%◌, ◌^◌, true, not, ◌&&◌, none, some, List, ◌==◌, if◌then◌else◌,
  replicate, same_bytes,
}
use partclone_utils.Sysdep.{
  Sysdep, M, pure, ◌>>=◌, ◌>>◌, call, deref, in_bounds, array_of, is_writing, seek_absolute, einval,
}
use partclone_utils.ChangeFile.Open.{cf_init, cf_verify}
use partclone_utils.ChangeFile.Sync.{cf_finish, free_array}
use partclone_utils.Ntfsclone.{
  NcContext, V10Context, v10_context_size, v10_default_factor, ntfsclone_magic, is_set, ntctx_valid,
  ntctx_open, ntctx_have_verdep, signed_eighth, signed_shift,
}
use partclone_utils.Ntfsclone.Scan.{scan_loop}

-- The handle as `memset` and the end of `v10_init` leave it.
abbrev pub new_v10 : ℕ → V10Context
new_v10 addr = record {
  v10_addr = addr;
  v10_bitmap = none;
  v10_bucket_offset = none;
  v10_current_bucket = 0;
  v10_bsfcount = 0;
  v10_bucket_factor = v10_default_factor;
}

-- `bmlen`
abbrev pub bitmap_size : ℕ → ℕ
bitmap_size nr = if nr % 8 == 0 then signed_eighth nr else (signed_eighth nr + 1) % 2 ^ 64

-- The size of the array of bucket offsets, and the number of its entries.
abbrev pub offsets_size : ℕ → ℕ → ℕ
offsets_size nr factor = ((signed_shift nr factor + 1) * 8) % 2 ^ 64

module _ {W : Type 0} (sys : Sysdep W) where
  -- The part of `v10_init` that opens the change file; an error of `cf_init` is dropped. The count has one
  -- more for the trailing cluster.
  unfoldable pub v10_open_cf : NcContext → M W NcContext
  v10_open_cf ntcp =
      if is_set ntcp.nc_cf_path && is_writing ntcp.nc_omode
      then (do
        path ← deref ntcp.nc_cf_path
        (error, cf) ←
            cf_init sys path.cells ntcp.nc_head.cluster_size
              ((ntcp.nc_head.nr_clusters + 1) % 2 ^ 64)
        if error == 0
            then pure (record ntcp {
              nc_cf_handle = cf;
              nc_flags = record ntcp.nc_flags { nc_cf_open = true };
            })
            else pure ntcp)
      else if not (is_writing ntcp.nc_omode)
      then pure (record ntcp { nc_flags = record ntcp.nc_flags { nc_read_only = true } })
      else pure ntcp

  -- `v10_init`
  unfoldable pub v10_init : NcContext → M W (ℕ × NcContext)
  v10_init ntcp = if not (ntctx_valid ntcp) then pure (einval, ntcp) else do
    a ← call (sys.sys_malloc v10_context_size)
    if not (a.error == 0) then pure (a.error, ntcp) else do
      let ntcp = record ntcp {
        nc_verdep = some (new_v10 a.addr);
        nc_flags = record ntcp.nc_flags { nc_have_verdep = true; nc_version_init = true };
      }
      ntcp ← v10_open_cf ntcp
      pure (0, ntcp)

  -- The end of `v10_verify`: a change file that is open is verified.
  unfoldable pub v10_verify_cf : ℕ → NcContext → M W (ℕ × NcContext)
  v10_verify_cf error ntcp =
      if not (error == 0) then pure (error, ntcp) else elim ntcp.nc_cf_handle [
        | none ↦ pure (0, ntcp)
        | some cf ↦ do
          (error, cf) ← cf_verify sys cf
          let ntcp = record ntcp { nc_cf_handle = some cf }
          if error == 0
              then pure
                  (0, record ntcp { nc_flags = record ntcp.nc_flags { nc_cf_verified = true } })
              else pure (error, ntcp)
      ]

  -- `v10_verify` once both arrays, of the given addresses, are allocated. To increment the largest
  -- `int64_t` is undefined.
  unfoldable pub v10_scan : (ℕ → List ℕ) → ℕ → NcContext → V10Context → ℕ → ℕ → M W (ℕ × NcContext)
  v10_scan stack fuel ntcp v10p bits_addr offsets_addr = do
    let nr = ntcp.nc_head.nr_clusters
    _ ← call (sys.sys_seek ntcp.nc_fd ntcp.nc_head.offset_to_image_data seek_absolute)
    _ ← in_bounds (not (nr == 2 ^ 63 - 1))
    let ntcp = record ntcp { nc_head = record ntcp.nc_head { nr_clusters = (nr + 1) % 2 ^ 64 } }
    (error, s) ← scan_loop sys stack fuel ntcp v10p.v10_bucket_factor 0 (record {
      cclust = 0;
      nconsecsync = 0;
      bits = replicate (bitmap_size nr) 0;
      offsets = replicate (offsets_size nr v10p.v10_bucket_factor / 8) 0;
    })
    v10_verify_cf error (record ntcp {
      nc_verdep = some (record v10p {
        v10_bitmap = some (record { addr = bits_addr; cells = s.bits });
        v10_bucket_offset = some (record { addr = offsets_addr; cells = s.offsets });
      });
    })

  -- `v10_verify`
  unfoldable pub v10_verify : (ℕ → List ℕ) → ℕ → NcContext → M W (ℕ × NcContext)
  v10_verify stack fuel ntcp =
      if not (ntctx_open ntcp && same_bytes ntcp.nc_head.magic ntfsclone_magic)
      then pure (einval, ntcp)
      else do
        v10p ← deref ntcp.nc_verdep
        let nr = ntcp.nc_head.nr_clusters
        let ntcp = record ntcp { nc_flags = record ntcp.nc_flags { nc_head_valid = true } }
        a ← call (sys.sys_malloc (bitmap_size nr))
        let v10p = record v10p { v10_bitmap = array_of a 256 (bitmap_size nr) }
        if not (a.error == 0) then pure (a.error, record ntcp { nc_verdep = some v10p }) else do
          let size = offsets_size nr v10p.v10_bucket_factor
          b ← call (sys.sys_malloc size)
          let v10p = record v10p { v10_bucket_offset = array_of b (2 ^ 64) (size / 8) }
          if not (b.error == 0) then pure (b.error, record ntcp { nc_verdep = some v10p }) else do
            _ ← deref v10p.v10_bitmap
            _ ← deref v10p.v10_bucket_offset
            v10_scan stack fuel ntcp v10p a.addr b.addr

  -- `v10_finish`; the context that it leaves is about to be freed.
  unfoldable pub v10_finish : NcContext → M W ℕ
  v10_finish ntcp = if not (ntctx_have_verdep ntcp) then pure einval else do
    v10p ← deref ntcp.nc_verdep
    free_array sys v10p.v10_bitmap
    free_array sys v10p.v10_bucket_offset
    _ ← call (sys.sys_free v10p.v10_addr)
    elim ntcp.nc_cf_handle [ none ↦ pure 0 | some cf ↦ cf_finish sys cf ]
