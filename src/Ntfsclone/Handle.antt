-- ===== src/Ntfsclone/Handle.antt =====
-- The public functions of src/libntfsclone.c: `ntfsclone_open` to `ntfsclone_probe`.
use partclone_utils.Base.{
  ℕ, zero, suc, ◌+◌, ◌-◌, ◌%◌, ◌^◌, Bool, true, false, not, ◌&&◌, Option, none, some, List, [], ◌∷◌,
  ◌++◌, ◌==◌, leb, if◌then◌else◌, length, take, drop, replicate, overlay, same_bytes, ℤ, pos,
  negsuc,
}
use partclone_utils.Sysdep.{
  Sysdep, M, pure, ◌>>=◌, ◌>>◌, call, deref, array_of, OpenMode, open_none, open_ro, einval, eio,
  enoent,
}
use partclone_utils.ChangeFile.Sync.{free_array}
use partclone_utils.Ntfsclone.{
  NcContext, NcVersion, version_10_1, version_10_0, ImageHdr, image_hdr_of, image_hdr_bytes,
  image_hdr_size, no_nc_flags, nc_context_size, ntctx_valid, ntctx_open, ntctx_cf_open,
  ntctx_verified, ntctx_readready, ntctx_writeable, ntctx_writeready, ntctx_have_path,
  ntctx_have_cf_path, ntctx_have_verdep, ntctx_have_ivblock, signed_word,
}
use partclone_utils.Ntfsclone.Version10.{v10_init, v10_verify, v10_finish}
use partclone_utils.Ntfsclone.Seek.{v10_seek}
use partclone_utils.Ntfsclone.Blocks.{v10_readblock, v10_blockused, v10_writeblock, v10_sync}

-- `VDT_VERSION_KEY`
abbrev pub vdt_version_key : ℕ → ℕ → List ℕ
vdt_version_key maj min = min ∷ maj ∷ 64 ∷ 19 ∷ []

-- The scan of `version_table`.
unfoldable pub find_nc_version : ImageHdr → Option NcVersion
find_nc_version head =
    let key = vdt_version_key head.major_ver head.minor_ver in
    if same_bytes key (vdt_version_key 10 1)
    then some version_10_1
    else if same_bytes key (vdt_version_key 10 0)
    then some version_10_0
    else none

-- The context as `memset` and the first assignments of `ntfsclone_open` leave it.
abbrev pub new_nc_context : ℕ → NcContext
new_nc_context addr = record {
  nc_addr = addr;
  nc_fd = 0;
  nc_path = none;
  nc_cf_path = none;
  nc_cf_handle = none;
  nc_ivblock = none;
  nc_verdep = none;
  nc_dispatch = none;
  nc_head = image_hdr_of (replicate image_hdr_size 0);
  nc_curblock = 0;
  nc_flags = record no_nc_flags { nc_valid = true };
  nc_omode = open_none;
}

-- `ntfsclone_blocksize`; the `-1` is converted to the type of `cluster_size`, a `uint32_t`.
unfoldable pub ntfsclone_blocksize : NcContext → ℤ
ntfsclone_blocksize ntcp =
    if ntctx_verified ntcp then pos ntcp.nc_head.cluster_size else pos (2 ^ 32 - 1)

-- `ntfsclone_blockcount`
unfoldable pub ntfsclone_blockcount : NcContext → ℤ
ntfsclone_blockcount ntcp =
    if ntctx_verified ntcp then signed_word ntcp.nc_head.nr_clusters else negsuc 0

-- `ntfsclone_seek`; the comparison is unsigned.
unfoldable pub ntfsclone_seek : NcContext → ℕ → Option (ℕ × NcContext)
ntfsclone_seek ntcp blockno =
    if not (ntctx_readready ntcp && leb blockno ntcp.nc_head.nr_clusters)
    then some (einval, ntcp)
    else elim (v10_seek ntcp blockno) [
      | none ↦ none
      | some (error, ntcp') ↦
          some (error, if error == 0 then record ntcp' { nc_curblock = blockno } else ntcp')
    ]

-- `ntfsclone_tell`; `~0` widened to 64 bits.
unfoldable pub ntfsclone_tell : NcContext → ℕ
ntfsclone_tell ntcp = if ntctx_readready ntcp then ntcp.nc_curblock else 2 ^ 64 - 1

-- `ntfsclone_block_used`
unfoldable pub ntfsclone_block_used : NcContext → Option ℤ
ntfsclone_block_used ntcp =
    if not (ntctx_readready ntcp)
    then some (negsuc 1)
    else elim ntcp.nc_dispatch [ none ↦ none | some version ↦ v10_blockused ntcp ]

-- `ntfsclone_tolerant_mode`; `NC_TOLERANT` is the bit `NC_HAVE_CF_PATH`.
unfoldable pub ntfsclone_tolerant_mode : NcContext → NcContext
ntfsclone_tolerant_mode ntcp =
    if ntctx_open ntcp
    then record ntcp { nc_flags = record ntcp.nc_flags { nc_have_cf_path = true } }
    else ntcp

-- `ntcp->nc_curblock++`
abbrev pub next_cluster : NcContext → NcContext
next_cluster ntcp = record ntcp { nc_curblock = (ntcp.nc_curblock + 1) % 2 ^ 64 }

module _ {W : Type 0} (sys : Sysdep W) where
  -- `ntfsclone_close` of a valid handle, which it frees.
  unfoldable pub ntfsclone_close : NcContext → M W ℕ
  ntfsclone_close ntcp = if not (ntctx_valid ntcp) then pure einval else do
    ntcp ←
        (if ntctx_cf_open ntcp
          then (do _ ← deref ntcp.nc_dispatch; (_, synced) ← v10_sync sys ntcp; pure synced)
          else pure ntcp)
    (if ntctx_open ntcp then (do _ ← call (sys.sys_close ntcp.nc_fd); pure tt) else pure tt)
    (if ntctx_have_path ntcp then free_array sys ntcp.nc_path else pure tt)
    (if ntctx_have_cf_path ntcp then free_array sys ntcp.nc_cf_path else pure tt)
    (if ntctx_have_ivblock ntcp then free_array sys ntcp.nc_ivblock else pure tt)
    (if ntctx_have_verdep ntcp
        then elim ntcp.nc_dispatch [
          | none ↦ pure tt
          | some version ↦ (do _ ← v10_finish sys ntcp; pure tt)
        ]
        else pure tt)
    _ ← call (sys.sys_free ntcp.nc_addr)
    pure 0

  -- The copy of the change file's path in `ntfsclone_open`.
  unfoldable pub nc_copy_cf_path : NcContext → Option (List ℕ) → M W (ℕ × NcContext)
  nc_copy_cf_path ntcp none = pure (0, ntcp)
  nc_copy_cf_path ntcp (some cfpath) = do
    a ← call (sys.sys_malloc (length cfpath + 1))
    if a.error == 0
        then pure (
          0,
          record ntcp {
            nc_cf_path = some (record { addr = a.addr; cells = cfpath });
            nc_flags = record ntcp.nc_flags { nc_have_cf_path = true };
          },
        )
        else pure (a.error, ntcp)

  -- The body of `ntfsclone_open` on a fresh context.
  unfoldable pub nc_open_image :
      NcContext → List ℕ → Option (List ℕ) → OpenMode → M W (ℕ × NcContext)
  nc_open_image ntcp path cfpath omode = do
    o ← call (sys.sys_open path open_ro)
    if not (o.error == 0) then pure (o.error, ntcp) else do
      let ntcp = record ntcp {
        nc_fd = o.handle;
        nc_flags = record ntcp.nc_flags { nc_open = true };
      }
      a ← call (sys.sys_malloc (length path + 1))
      if not (a.error == 0)
          then pure (a.error, ntcp)
          else nc_copy_cf_path
              (record ntcp {
                nc_path = some (record { addr = a.addr; cells = path });
                nc_omode = omode;
                nc_flags = record ntcp.nc_flags { nc_have_path = true };
              })
              cfpath

  -- `ntfsclone_open`: the error and the handle, NULL on an error.
  unfoldable pub ntfsclone_open : List ℕ → Option (List ℕ) → OpenMode → M W (ℕ × Option NcContext)
  ntfsclone_open path cfpath omode = do
    a ← call (sys.sys_malloc nc_context_size)
    if a.addr == 0 then pure (a.error, none) else do
      (error, ntcp) ← nc_open_image (new_nc_context a.addr) path cfpath omode
      if error == 0 then pure (0, some ntcp) else (do _ ← ntfsclone_close ntcp; pure (error, none))

  -- The end of `ntfsclone_verify_common`: the buffer that stands for clusters not in use, of bytes 69.
  unfoldable pub nc_make_ivblock : NcContext → M W (ℕ × NcContext)
  nc_make_ivblock ntcp = do
    let size = ntcp.nc_head.cluster_size
    let ntcp = record ntcp {
      nc_curblock = 0;
      nc_flags = record ntcp.nc_flags { nc_verified = true };
    }
    a ← call (sys.sys_malloc size)
    if a.error == 0
        then pure (
          0,
          record ntcp {
            nc_ivblock = some (record { addr = a.addr; cells = replicate size 69 });
            nc_flags = record ntcp.nc_flags { nc_have_ivblock = true };
          },
        )
        else pure (a.error, record ntcp { nc_ivblock = array_of a 256 size })

  -- `ntfsclone_verify_common`
  unfoldable pub ntfsclone_verify_common : (ℕ → List ℕ) → ℕ → NcContext → Bool → M W (ℕ × NcContext)
  ntfsclone_verify_common stack fuel ntcp full =
      if not (ntctx_open ntcp) then pure (einval, ntcp) else do
        r ← call (sys.sys_read ntcp.nc_fd image_hdr_size)
        let ntcp = record ntcp {
          nc_head = image_hdr_of (overlay r.got (image_hdr_bytes ntcp.nc_head));
        }
        if not (r.error == 0 && r.nread == image_hdr_size)
            then pure (if r.error == 0 then eio else r.error, ntcp)
            else elim (find_nc_version ntcp.nc_head) [
              | none ↦ pure (enoent, ntcp)
              | some version ↦ do
                let ntcp = record ntcp { nc_dispatch = some version }
                if not full then pure (0, ntcp) else do
                  (error, ntcp) ← v10_init sys ntcp
                  if not (error == 0) then pure (error, ntcp) else do
                    (error, ntcp) ← v10_verify sys stack fuel ntcp
                    if not (error == 0) then pure (error, ntcp) else nc_make_ivblock ntcp
            ]

  -- `ntfsclone_verify_header_only`
  unfoldable pub ntfsclone_verify_header_only : NcContext → M W (ℕ × NcContext)
  ntfsclone_verify_header_only ntcp = ntfsclone_verify_common (λ left. []) 0 ntcp false

  -- `ntfsclone_verify`
  unfoldable pub ntfsclone_verify : (ℕ → List ℕ) → ℕ → NcContext → M W (ℕ × NcContext)
  ntfsclone_verify stack fuel ntcp = ntfsclone_verify_common stack fuel ntcp true

  -- The loop of `ntfsclone_readblocks` with `left` clusters to go: the last error, the rest of the
  -- buffer, and the context.
  unfoldable pub nc_read_loop :
      (ℕ → List ℕ) → ℕ → ℕ → ℕ → NcContext → List ℕ → M W (ℕ × List ℕ × NcContext)
  nc_read_loop stack fuel zero error ntcp buffer = pure (error, buffer, ntcp)
  nc_read_loop stack fuel (suc left) error ntcp buffer = do
    _ ← deref ntcp.nc_dispatch
    let size = ntcp.nc_head.cluster_size
    (e, block, ntcp) ← v10_readblock sys stack fuel ntcp (take size buffer)
    elim (e == 0) [
      | false ↦ pure (e, block ++ drop size buffer, ntcp)
      | true ↦ do
        (e', rest, ntcp) ← nc_read_loop stack fuel left 0 (next_cluster ntcp) (drop size buffer)
        pure (e', block ++ rest, ntcp)
    ]

  -- `ntfsclone_readblocks`
  unfoldable pub ntfsclone_readblocks :
      (ℕ → List ℕ) → ℕ → NcContext → List ℕ → ℕ → M W (ℕ × List ℕ × NcContext)
  ntfsclone_readblocks stack fuel ntcp buffer nblocks =
      if not (ntctx_readready ntcp)
      then pure (einval, buffer, ntcp)
      else nc_read_loop stack fuel nblocks einval ntcp buffer

  -- The loop of `ntfsclone_writeblocks`.
  unfoldable pub nc_write_loop : ℕ → ℕ → NcContext → List ℕ → M W (ℕ × NcContext)
  nc_write_loop zero error ntcp buffer = pure (error, ntcp)
  nc_write_loop (suc left) error ntcp buffer = do
    _ ← deref ntcp.nc_dispatch
    let size = ntcp.nc_head.cluster_size
    (e, ntcp) ← v10_writeblock sys ntcp (take size buffer)
    elim (e == 0) [
      | false ↦ pure (e, ntcp)
      | true ↦ nc_write_loop left 0 (next_cluster ntcp) (drop size buffer)
    ]

  -- `ntfsclone_writeblocks`
  unfoldable pub ntfsclone_writeblocks : NcContext → List ℕ → ℕ → M W (ℕ × NcContext)
  ntfsclone_writeblocks ntcp buffer nblocks =
      if not (ntctx_writeable ntcp)
      then pure (einval, ntcp)
      else nc_write_loop nblocks einval ntcp buffer

  -- `ntfsclone_sync`
  unfoldable pub ntfsclone_sync : NcContext → M W (ℕ × NcContext)
  ntfsclone_sync ntcp =
      if not (ntctx_writeready ntcp)
      then pure (einval, ntcp)
      else do _ ← deref ntcp.nc_dispatch; v10_sync sys ntcp

  -- `ntfsclone_probe`
  unfoldable pub ntfsclone_probe : List ℕ → M W ℕ
  ntfsclone_probe path = do
    (error, testh) ← ntfsclone_open path none open_ro
    if not (error == 0) then pure error else do
      ntcp ← deref testh
      (error, ntcp) ← ntfsclone_verify_header_only ntcp
      _ ← ntfsclone_close ntcp
      pure error
