-- ===== src/Partclone/Blocks.antt =====
-- One block of a partclone image in src/libpartclone.c: its offset, its checksum, `v1_readblock`,
-- `v1_blockused`, `v1_writeblock` and `v1_sync`.
use partclone_utils.Base.{
  ℕ, zero, suc, ◌+◌, ◌*◌, ◌/◌, ◌%◌, ◌^◌, true, not, Option, none, some, List, [], ◌∷◌, ◌++◌, ◌==◌,
  leb, if◌then◌else◌, length, get_elem?, take, overlay, ℤ, pos, negsuc,
}
use partclone_utils.Checksum.{crc_byte}
use partclone_utils.Sysdep.{
  Sysdep, M, pure, ◌>>=◌, call, deref, in_bounds, seek_absolute, einval, eio,
}
use partclone_utils.ChangeFile.{Context, cf_seek, cf_blockused}
use partclone_utils.ChangeFile.Open.{cf_create}
use partclone_utils.ChangeFile.Sync.{cf_sync}
use partclone_utils.ChangeFile.Blocks.{cf_readblock, cf_writeblock}
use partclone_utils.Partclone.{
  PcContext, PcHead, V1Context, pctx_have_verdep, pctx_have_cf_path, pctx_writeready,
}

-- ".cf", without the final NUL
abbrev pub cf_trailer : List ℕ
cf_trailer = 46 ∷ 99 ∷ 102 ∷ []

-- `BLOCK_ERROR`, -2
abbrev pub block_error : ℤ
block_error = negsuc 1

-- `rblock2offset`
unfoldable pub rblock2offset : PcHead → ℕ → ℕ
rblock2offset head rbnum =
    let offset = (head.head_size + rbnum * head.block_size) % 2 ^ 64 in
    if head.blocks_per_checksum == 0
    then offset
    else (offset + rbnum / head.blocks_per_checksum * head.checksum_size) % 2 ^ 64

-- `v1_crc32`: the first byte of the buffer, `size` times over. `char c` is signed, and the mask
-- takes its low byte again.
unfoldable pub v1_crc32 : V1Context → ℕ → List ℕ → ℕ → Option ℕ
v1_crc32 v1p crc buf zero = some crc
v1_crc32 v1p crc buf (suc size) = elim (get_elem? buf 0) [
  | none ↦ none
  | some c ↦ elim (crc_byte v1p.v1_crc_tab32 crc (c % 256)) [
    | none ↦ none
    | some crc' ↦ v1_crc32 v1p crc' buf size
  ]
]

-- `v1_blockused`: -2, or a bitmap byte; `none` is an access outside an array.
unfoldable pub v1_blockused : PcContext → Option ℤ
v1_blockused pcp =
    if not (pctx_have_verdep pcp)
    then some block_error
    else let bitmap_byte : Option ℤ = elim pcp.pc_verdep [
      | none ↦ none
      | some v1p ↦ elim v1p.v1_bitmap [
        | none ↦ none
        | some bitmap ↦ elim (get_elem? bitmap.cells pcp.pc_curblock) [
          | none ↦ none
          | some bit ↦ some (pos bit)
        ]
      ]
    ] in
      elim pcp.pc_cf_handle [
        | none ↦ bitmap_byte
        | some cf ↦ elim (cf_blockused cf) [
          | none ↦ none
          | some used ↦ if used == 0 then bitmap_byte else some (pos 1)
        ]
      ]

module _ {W : Type 0} (sys : Sysdep W) where
  -- The first half of `v1_readblock`: the block from the change file, `EINVAL` if there is none.
  unfoldable pub read_cf : PcContext → List ℕ → M W (ℕ × List ℕ × PcContext)
  read_cf pcp buffer = elim pcp.pc_cf_handle [
    | none ↦ pure (einval, buffer, pcp)
    | some cf ↦ do
      let sought = (cf_seek cf pcp.pc_curblock).1
      (error, buffer) ← cf_readblock sys sought buffer
      pure (error, buffer, record pcp { pc_cf_handle = some sought })
  ]

  -- The second half of `v1_readblock`: the block from the image.
  unfoldable pub read_image : PcContext → List ℕ → M W (ℕ × List ℕ × PcContext)
  read_image pcp buffer = do
    v1p ← deref pcp.pc_verdep
    bitmap ← deref v1p.v1_bitmap
    bit ← deref (get_elem? bitmap.cells pcp.pc_curblock)
    let bs = pcp.pc_head.block_size
    _ ← in_bounds (leb bs (length buffer))
    if bit == 0
        then (do
          ivblock ← deref pcp.pc_ivblock
          _ ← in_bounds (leb bs (length ivblock.cells))
          pure (0, overlay (take bs ivblock.cells) buffer, pcp))
        else (do
          s ←
              call
                (sys.sys_seek pcp.pc_fd (rblock2offset pcp.pc_head v1p.v1_nvbcount) seek_absolute)
          if not (s.error == 0) then pure (s.error, buffer, pcp) else do
            r ← call (sys.sys_read pcp.pc_fd bs)
            pure (
              if r.nread == bs then 0 else eio,
              overlay r.got buffer,
              record pcp {
                pc_verdep = some (record v1p { v1_nvbcount = (v1p.v1_nvbcount + 1) % 2 ^ 64 });
              },
            ))

  -- `v1_readblock`: the error, what the buffer holds afterwards, and the context.
  unfoldable pub v1_readblock : PcContext → List ℕ → M W (ℕ × List ℕ × PcContext)
  v1_readblock pcp buffer = if not (pctx_have_verdep pcp) then pure (einval, buffer, pcp) else do
    (error, buffer, pcp) ← read_cf pcp buffer
    if error == 0 then pure (0, buffer, pcp) else read_image pcp buffer

  -- The change file's path, made up from the image's if there is none; the error of the allocation
  -- is overwritten by that of `cf_create`.
  unfoldable pub name_cf : PcContext → M W PcContext
  name_cf pcp = if pctx_have_cf_path pcp then pure pcp else do
    path ← deref pcp.pc_path
    a ← call (sys.sys_malloc (length path.cells + length cf_trailer + 1))
    if a.error == 0
        then pure (record pcp {
          pc_cf_path = some (record { addr = a.addr; cells = path.cells ++ cf_trailer });
          pc_flags = record pcp.pc_flags { pc_have_cf_path = true };
        })
        else pure (record pcp { pc_cf_path = none })

  -- The handle after `cf_create` has, or has not, stored one.
  abbrev pub keep_handle : Option Context → Option Context → Option Context
  keep_handle none old = old
  keep_handle (some cf) old = some cf

  -- The first half of `v1_writeblock`: a change file is created or opened unless one is ready.
  unfoldable pub ready_cf : PcContext → M W (ℕ × PcContext)
  ready_cf pcp = if pctx_writeready pcp then pure (0, pcp) else do
    pcp ← name_cf pcp
    path ← deref pcp.pc_cf_path
    (error, cf) ← cf_create sys path.cells pcp.pc_head.block_size pcp.pc_head.totalblock
    let pcp = record pcp { pc_cf_handle = keep_handle cf pcp.pc_cf_handle }
    if error == 0
        then pure (
          0,
          record pcp {
            pc_flags = record pcp.pc_flags { pc_have_cfdep = true; pc_cf_verified = true };
          },
        )
        else pure (error, pcp)

  -- `v1_writeblock`
  unfoldable pub v1_writeblock : PcContext → List ℕ → M W (ℕ × PcContext)
  v1_writeblock pcp buffer = if not (pctx_have_verdep pcp) then pure (einval, pcp) else do
    (error, pcp) ← ready_cf pcp
    if not (error == 0) then pure (error, pcp) else do
      cf ← deref pcp.pc_cf_handle
      (error, cf) ← cf_writeblock sys (cf_seek cf pcp.pc_curblock).1 buffer
      pure (error, record pcp { pc_cf_handle = some cf })

  -- `v1_sync`
  unfoldable pub v1_sync : PcContext → M W (ℕ × PcContext)
  v1_sync pcp = if not (pctx_writeready pcp) then pure (einval, pcp) else do
    cf ← deref pcp.pc_cf_handle
    (error, cf) ← cf_sync sys cf
    pure (error, record pcp { pc_cf_handle = some cf })
