-- ===== src/Partclone/Handle.antt =====
-- The public functions of src/libpartclone.c: `partclone_open` to `partclone_probe`.
use partclone_utils.Base.{
  ℕ, zero, suc, ◌+◌, ◌-◌, ◌%◌, ◌^◌, true, false, not, ◌&&◌, Option, none, some, List, ◌++◌, ◌==◌,
  leb, if◌then◌else◌, length, take, drop, replicate, overlay, same_bytes, ℤ, pos, negsuc,
}
use partclone_utils.Sysdep.{
  Sysdep, M, pure, ◌>>=◌, ◌>>◌, call, deref, array_of, OpenMode, open_none, open_ro, einval, eio,
  enoent,
}
use partclone_utils.ChangeFile.Sync.{free_array}
use partclone_utils.Partclone.{
  PcContext, PcHead, Version, version_0001, version_0002, no_flags, pc_context_size, pctx_valid,
  pctx_open, pctx_cf_open, pctx_verified, pctx_readready, pctx_writeable, pctx_writeready,
  pctx_have_path, pctx_have_cf_path, pctx_have_verdep, pctx_have_ivblock,
}
use partclone_utils.Partclone.Head.{head_v1, head_v1_size, version_key}
use partclone_utils.Partclone.Version1.{v1_init, v1_verify, v1_finish, v1_seek}
use partclone_utils.Partclone.Version2.{v2_verify}
use partclone_utils.Partclone.Blocks.{
  block_error, v1_readblock, v1_blockused, v1_writeblock, v1_sync,
}

abbrev pub zero_head : PcHead
zero_head = record {
  head_size = 0;
  block_size = 0;
  totalblock = 0;
  checksum_size = 0;
  device_size = 0;
  blocks_per_checksum = 0;
}

-- The context as `memset` and the first assignments of `partclone_open` leave it.
abbrev pub new_context : ℕ → PcContext
new_context addr = record {
  pc_addr = addr;
  pc_fd = 0;
  pc_path = none;
  pc_cf_path = none;
  pc_cf_handle = none;
  pc_ivblock = none;
  pc_verdep = none;
  pc_dispatch = none;
  pc_raw_head = replicate head_v1_size 0;
  pc_head = zero_head;
  pc_curblock = 0;
  pc_flags = record no_flags { pc_valid = true };
  pc_omode = open_none;
}

-- The scan of `version_table`.
unfoldable pub find_version : List ℕ → Option Version
find_version version =
    if same_bytes version (version_key version_0001)
    then some version_0001
    else if same_bytes version (version_key version_0002)
    then some version_0002
    else none

-- `partclone_blocksize`; the `-1` is converted to the type of `block_size`, an `unsigned int`.
unfoldable pub partclone_blocksize : PcContext → ℤ
partclone_blocksize pcp = if pctx_verified pcp then pos pcp.pc_head.block_size else pos (2 ^ 32 - 1)

-- `partclone_blockcount`
unfoldable pub partclone_blockcount : PcContext → ℤ
partclone_blockcount pcp = if pctx_verified pcp then pos pcp.pc_head.totalblock else negsuc 0

-- `partclone_seek`
unfoldable pub partclone_seek : PcContext → ℕ → Option (ℕ × PcContext)
partclone_seek pcp blockno =
    if not (pctx_readready pcp && leb blockno pcp.pc_head.totalblock)
    then some (einval, pcp)
    else elim pcp.pc_dispatch [
      | none ↦ none
      | some version ↦ elim (v1_seek pcp blockno) [
        | none ↦ none
        | some (error, pcp') ↦
            some (error, if error == 0 then record pcp' { pc_curblock = blockno } else pcp')
      ]
    ]

-- `partclone_tell`; `~0` widened to 64 bits.
unfoldable pub partclone_tell : PcContext → ℕ
partclone_tell pcp = if pctx_readready pcp then pcp.pc_curblock else 2 ^ 64 - 1

-- `partclone_block_used`
unfoldable pub partclone_block_used : PcContext → Option ℤ
partclone_block_used pcp =
    if not (pctx_readready pcp)
    then some block_error
    else elim pcp.pc_dispatch [ none ↦ none | some version ↦ v1_blockused pcp ]

-- `partclone_tolerant_mode`
unfoldable pub partclone_tolerant_mode : PcContext → PcContext
partclone_tolerant_mode pcp =
    if pctx_open pcp
    then record pcp { pc_flags = record pcp.pc_flags { pc_tolerant = true } }
    else pcp

-- `pcp->pc_curblock++`
abbrev pub advance : PcContext → PcContext
advance pcp = record pcp { pc_curblock = (pcp.pc_curblock + 1) % 2 ^ 64 }

module _ {W : Type 0} (sys : Sysdep W) where
  -- `partclone_close` of a valid handle, which it frees.
  unfoldable pub partclone_close : PcContext → M W ℕ
  partclone_close pcp = if not (pctx_valid pcp) then pure einval else do
    pcp ←
        (if pctx_cf_open pcp
          then (do _ ← deref pcp.pc_dispatch; (_, synced) ← v1_sync sys pcp; pure synced)
          else pure pcp)
    (if pctx_open pcp then (do _ ← call (sys.sys_close pcp.pc_fd); pure tt) else pure tt)
    (if pctx_have_path pcp then free_array sys pcp.pc_path else pure tt)
    (if pctx_have_cf_path pcp then free_array sys pcp.pc_cf_path else pure tt)
    (if pctx_have_ivblock pcp then free_array sys pcp.pc_ivblock else pure tt)
    (if pctx_have_verdep pcp
        then elim pcp.pc_dispatch [
          | none ↦ pure tt
          | some version ↦ (do _ ← v1_finish sys pcp; pure tt)
        ]
        else pure tt)
    _ ← call (sys.sys_free pcp.pc_addr)
    pure 0

  -- The copy of the change file's path in `partclone_open`.
  unfoldable pub copy_cf_path : PcContext → Option (List ℕ) → M W (ℕ × PcContext)
  copy_cf_path pcp none = pure (0, pcp)
  copy_cf_path pcp (some cfpath) = do
    a ← call (sys.sys_malloc (length cfpath + 1))
    if a.error == 0
        then pure (
          0,
          record pcp {
            pc_cf_path = some (record { addr = a.addr; cells = cfpath });
            pc_flags = record pcp.pc_flags { pc_have_cf_path = true };
          },
        )
        else pure (a.error, pcp)

  -- The body of `partclone_open` on a fresh context.
  unfoldable pub open_image : PcContext → List ℕ → Option (List ℕ) → OpenMode → M W (ℕ × PcContext)
  open_image pcp path cfpath omode = do
    o ← call (sys.sys_open path open_ro)
    if not (o.error == 0) then pure (o.error, pcp) else do
      let pcp = record pcp { pc_fd = o.handle; pc_flags = record pcp.pc_flags { pc_open = true } }
      a ← call (sys.sys_malloc (length path + 1))
      if not (a.error == 0)
          then pure (a.error, pcp)
          else copy_cf_path
              (record pcp {
                pc_path = some (record { addr = a.addr; cells = path });
                pc_omode = omode;
                pc_flags = record pcp.pc_flags { pc_have_path = true };
              })
              cfpath

  -- `partclone_open`: the error and the handle, NULL on an error.
  unfoldable pub partclone_open : List ℕ → Option (List ℕ) → OpenMode → M W (ℕ × Option PcContext)
  partclone_open path cfpath omode = do
    a ← call (sys.sys_malloc pc_context_size)
    if a.addr == 0 then pure (a.error, none) else do
      (error, pcp) ← open_image (new_context a.addr) path cfpath omode
      if error == 0 then pure (0, some pcp) else (do _ ← partclone_close pcp; pure (error, none))

  -- `version_verify` of the row that was found.
  abbrev pub version_verify : Version → PcContext → M W (ℕ × PcContext)
  version_verify version_0001 = v1_verify sys
  version_verify version_0002 = v2_verify sys

  -- The end of `partclone_verify`: the buffer that stands for blocks that are not in the image.
  unfoldable pub make_ivblock : PcContext → M W (ℕ × PcContext)
  make_ivblock pcp = do
    let bs = pcp.pc_head.block_size
    let pcp = record pcp { pc_curblock = 0; pc_flags = record pcp.pc_flags { pc_verified = true } }
    a ← call (sys.sys_malloc bs)
    if a.error == 0
        then pure (
          0,
          record pcp {
            pc_ivblock = some (record { addr = a.addr; cells = replicate bs 0 });
            pc_flags = record pcp.pc_flags { pc_have_ivblock = true };
          },
        )
        else pure (a.error, record pcp { pc_ivblock = array_of a 256 bs })

  -- `partclone_verify`
  unfoldable pub partclone_verify : PcContext → M W (ℕ × PcContext)
  partclone_verify pcp = if not (pctx_open pcp) then pure (einval, pcp) else do
    r ← call (sys.sys_read pcp.pc_fd head_v1_size)
    let pcp = record pcp { pc_raw_head = overlay r.got pcp.pc_raw_head }
    if not (r.error == 0 && r.nread == head_v1_size)
        then pure (if r.error == 0 then eio else r.error, pcp)
        else elim (find_version (head_v1 pcp.pc_raw_head).version) [
          | none ↦ pure (enoent, pcp)
          | some version ↦ do
            (error, pcp) ← v1_init sys (record pcp { pc_dispatch = some version })
            if not (error == 0) then pure (error, pcp) else do
              (error, pcp) ← version_verify version pcp
              if not (error == 0) then pure (error, pcp) else make_ivblock pcp
        ]

  -- The loop of `partclone_readblocks` with `left` blocks to go: the last error, the rest of the
  -- buffer, and the context.
  unfoldable pub read_loop : ℕ → ℕ → PcContext → List ℕ → M W (ℕ × List ℕ × PcContext)
  read_loop zero error pcp buffer = pure (error, buffer, pcp)
  read_loop (suc left) error pcp buffer = do
    _ ← deref pcp.pc_dispatch
    let bs = pcp.pc_head.block_size
    (e, block, pcp) ← v1_readblock sys pcp (take bs buffer)
    elim (e == 0) [
      | false ↦ pure (e, block ++ drop bs buffer, pcp)
      | true ↦ do
        (e', rest, pcp) ← read_loop left 0 (advance pcp) (drop bs buffer)
        pure (e', block ++ rest, pcp)
    ]

  -- `partclone_readblocks`
  unfoldable pub partclone_readblocks : PcContext → List ℕ → ℕ → M W (ℕ × List ℕ × PcContext)
  partclone_readblocks pcp buffer nblocks =
      if not (pctx_readready pcp)
      then pure (einval, buffer, pcp)
      else read_loop nblocks einval pcp buffer

  -- The loop of `partclone_writeblocks`.
  unfoldable pub write_loop : ℕ → ℕ → PcContext → List ℕ → M W (ℕ × PcContext)
  write_loop zero error pcp buffer = pure (error, pcp)
  write_loop (suc left) error pcp buffer = do
    _ ← deref pcp.pc_dispatch
    let bs = pcp.pc_head.block_size
    (e, pcp) ← v1_writeblock sys pcp (take bs buffer)
    elim (e == 0) [
      | false ↦ pure (e, pcp)
      | true ↦ write_loop left 0 (advance pcp) (drop bs buffer)
    ]

  -- `partclone_writeblocks`
  unfoldable pub partclone_writeblocks : PcContext → List ℕ → ℕ → M W (ℕ × PcContext)
  partclone_writeblocks pcp buffer nblocks =
      if not (pctx_writeable pcp) then pure (einval, pcp) else write_loop nblocks einval pcp buffer

  -- `partclone_sync`
  unfoldable pub partclone_sync : PcContext → M W (ℕ × PcContext)
  partclone_sync pcp =
      if not (pctx_writeready pcp)
      then pure (einval, pcp)
      else do _ ← deref pcp.pc_dispatch; v1_sync sys pcp

  -- `partclone_probe`
  unfoldable pub partclone_probe : List ℕ → M W ℕ
  partclone_probe path = do
    (error, testh) ← partclone_open path none open_ro
    if not (error == 0) then pure error else do
      pcp ← deref testh
      (error, pcp) ← partclone_verify pcp
      _ ← partclone_close pcp
      pure error
