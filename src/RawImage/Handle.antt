-- ===== src/RawImage/Handle.antt =====
-- The functions of src/librawimage.c that call the system: `rawimage_open` to `rawimage_probe`.
use partclone_utils.Base.{
  ℕ, zero, suc, ◌+◌, ◌*◌, ◌/◌, ◌%◌, ◌^◌, true, false, not, ◌&&◌, Option, none, some, List, [], ◌∷◌,
  ◌++◌, ◌==◌, ltb, leb, if◌then◌else◌, length, take, drop, overlay,
}
use partclone_utils.Sysdep.{
  Sysdep, M, pure, ◌>>=◌, ◌>>◌, call, deref, in_bounds, array_of, OpenMode, open_none, open_ro,
  is_writing, seek_absolute, einval, enxio,
}
use partclone_utils.ChangeFile.{Context, cf_seek}
use partclone_utils.ChangeFile.Open.{cf_init, cf_verify, cf_create}
use partclone_utils.ChangeFile.Sync.{cf_sync, cf_finish, free_array}
use partclone_utils.ChangeFile.Blocks.{cf_readblock, cf_writeblock}
use partclone_utils.RawImage.{
  RawContext, no_raw_flags, raw_default_blocksize, raw_context_size, is_set, rawctx_open,
  rawctx_cf_open, rawctx_verified, rawctx_writeable, rawctx_writeready, rawctx_have_path,
  rawctx_have_cf_path, raw_offset,
}

-- The context as `memset` and the first assignments of `rawimage_open` leave it.
abbrev pub new_raw : ℕ → RawContext
new_raw addr = record {
  raw_addr = addr;
  raw_fd = 0;
  raw_path = none;
  raw_cf_path = none;
  raw_cf_handle = none;
  raw_blocksize = raw_default_blocksize;
  raw_totalblocks = 0;
  raw_curblock = 0;
  raw_flags = record no_raw_flags { raw_valid = true };
  raw_omode = open_none;
}

-- `rcp->raw_curblock++`
abbrev pub raw_advance : RawContext → RawContext
raw_advance rcp = record rcp { raw_curblock = (rcp.raw_curblock + 1) % 2 ^ 64 }

-- ".cf", without the final NUL
abbrev pub raw_cf_trailer : List ℕ
raw_cf_trailer = 46 ∷ 99 ∷ 102 ∷ []

-- The bytes before the first NUL, `strlen` of them; `none` leaves the array.
unfoldable pub c_string : List ℕ → Option (List ℕ)
c_string [] = none
c_string (c ∷ cells) = elim (c == 0) [
  | true ↦ some []
  | false ↦ elim (c_string cells) [ none ↦ none | some rest ↦ some (c ∷ rest) ]
]

-- The handle after `cf_create` has, or has not, stored one.
abbrev pub keep_handle : Option Context → Option Context → Option Context
keep_handle none old = old
keep_handle (some cf) old = some cf

module _ {W : Type 0} (sys : Sysdep W) where
  -- `rawimage_close` of a valid handle, which it frees.
  unfoldable pub rawimage_close : RawContext → M W ℕ
  rawimage_close rcp = if not rcp.raw_flags.raw_valid then pure einval else do
    (if rawctx_open rcp then (do _ ← call (sys.sys_close rcp.raw_fd); pure tt) else pure tt)
    (if rawctx_have_path rcp then free_array sys rcp.raw_path else pure tt)
    (if rawctx_have_cf_path rcp then free_array sys rcp.raw_cf_path else pure tt)
    (if rawctx_cf_open rcp
        then (do
          cf ← deref rcp.raw_cf_handle
          (_, cf) ← cf_sync sys cf
          _ ← cf_finish sys cf
          pure tt)
        else pure tt)
    _ ← call (sys.sys_free rcp.raw_addr)
    pure 0

  -- The copy of the change file's path in `rawimage_open`.
  unfoldable pub raw_copy_path : RawContext → Option (List ℕ) → M W (ℕ × RawContext)
  raw_copy_path rcp none = pure (0, rcp)
  raw_copy_path rcp (some cfpath) = do
    a ← call (sys.sys_malloc (length cfpath + 1))
    if a.error == 0
        then pure (
          0,
          record rcp {
            raw_cf_path = some (record { addr = a.addr; cells = cfpath });
            raw_flags = record rcp.raw_flags { raw_have_cf_path = true };
          },
        )
        else pure (a.error, rcp)

  -- The body of `rawimage_open` on a fresh context. The image's path is allocated and not copied.
  unfoldable pub raw_open_image :
      RawContext → List ℕ → Option (List ℕ) → OpenMode → M W (ℕ × RawContext)
  raw_open_image rcp path cfpath omode = do
    o ← call (sys.sys_open path open_ro)
    if not (o.error == 0) then pure (o.error, rcp) else do
      let rcp = record rcp { raw_fd = o.handle }
      f ← call (sys.sys_file_size rcp.raw_fd)
      if not (f.error == 0) then pure (f.error, rcp) else do
        let bs = if ltb 100000000000 f.nbytes then 4096 else raw_default_blocksize
        let rcp = record rcp {
          raw_blocksize = bs;
          raw_totalblocks = f.nbytes / bs;
          raw_flags = record rcp.raw_flags { raw_open = true };
        }
        a ← call (sys.sys_malloc (length path + 1))
        if not (a.error == 0)
            then pure (a.error, rcp)
            else raw_copy_path
                (record rcp {
                  raw_path = array_of a 256 (length path + 1);
                  raw_omode = omode;
                  raw_flags = record rcp.raw_flags { raw_have_path = true };
                })
                cfpath

  -- `rawimage_open`: the error and the handle, NULL on an error.
  unfoldable pub rawimage_open : List ℕ → Option (List ℕ) → OpenMode → M W (ℕ × Option RawContext)
  rawimage_open path cfpath omode = do
    a ← call (sys.sys_malloc raw_context_size)
    if a.addr == 0 then pure (a.error, none) else do
      (error, rcp) ← raw_open_image (new_raw a.addr) path cfpath omode
      if error == 0 then pure (0, some rcp) else (do _ ← rawimage_close rcp; pure (error, none))

  -- The part of `rawimage_verify` that opens the change file.
  unfoldable pub raw_open_cf : RawContext → M W (ℕ × RawContext)
  raw_open_cf rcp = do
    path ← deref rcp.raw_cf_path
    (error, cf) ← cf_init sys path.cells rcp.raw_blocksize rcp.raw_totalblocks
    if not (error == 0) then pure (0, rcp) else do
      opened ← deref cf
      (error, verified) ← cf_verify sys opened
      let rcp = record rcp {
        raw_cf_handle = some verified;
        raw_flags = record rcp.raw_flags { raw_cf_open = true };
      }
      if error == 0
          then pure (0, record rcp { raw_flags = record rcp.raw_flags { raw_cf_verified = true } })
          else pure (error, rcp)

  -- `rawimage_verify`
  unfoldable pub rawimage_verify : RawContext → M W (ℕ × RawContext)
  rawimage_verify rcp = if not (rawctx_open rcp) then pure (einval, rcp) else do
    (error, rcp) ←
        (if is_set rcp.raw_cf_path && is_writing rcp.raw_omode
          then raw_open_cf rcp
          else if not (is_writing rcp.raw_omode)
          then pure (0, record rcp { raw_flags = record rcp.raw_flags { raw_read_only = true } })
          else pure (0, rcp))
    if error == 0
        then pure (0, record rcp { raw_flags = record rcp.raw_flags { raw_verified = true } })
        else pure (error, rcp)

  -- The body of the loop of `rawimage_readblocks`: a block from the change file, or, if that says
  -- `ENXIO`, from the image.
  unfoldable pub raw_readblock : RawContext → List ℕ → M W (ℕ × List ℕ × RawContext)
  raw_readblock rcp buffer = do
    cf ← deref rcp.raw_cf_handle
    let cf = (cf_seek cf rcp.raw_curblock).1
    let rcp = record rcp { raw_cf_handle = some cf }
    (error, buffer) ← cf_readblock sys cf buffer
    if not (error == enxio) then pure (error, buffer, rcp) else do
      s ← call (sys.sys_seek rcp.raw_fd (raw_offset rcp rcp.raw_curblock) seek_absolute)
      if not (s.error == 0) then pure (s.error, buffer, rcp) else do
        _ ← in_bounds (leb rcp.raw_blocksize (length buffer))
        r ← call (sys.sys_read rcp.raw_fd rcp.raw_blocksize)
        pure (r.error, overlay r.got buffer, rcp)

  -- The loop of `rawimage_readblocks` with `left` blocks to go.
  unfoldable pub raw_read_loop : ℕ → ℕ → RawContext → List ℕ → M W (ℕ × List ℕ × RawContext)
  raw_read_loop zero error rcp buffer = pure (error, buffer, rcp)
  raw_read_loop (suc left) error rcp buffer = do
    let bs = rcp.raw_blocksize
    (e, block, rcp) ← raw_readblock rcp (take bs buffer)
    elim (e == 0) [
      | false ↦ pure (e, block ++ drop bs buffer, rcp)
      | true ↦ do
        (e', rest, rcp) ← raw_read_loop left 0 (raw_advance rcp) (drop bs buffer)
        pure (e', block ++ rest, rcp)
    ]

  -- `rawimage_readblocks`; with no change file all blocks are read at once, and the current
  -- position stays.
  unfoldable pub rawimage_readblocks : RawContext → List ℕ → ℕ → M W (ℕ × List ℕ × RawContext)
  rawimage_readblocks rcp buffer nblocks =
      if not (rawctx_verified rcp) then pure (einval, buffer, rcp) else elim rcp.raw_cf_handle [
        | some cf ↦ raw_read_loop nblocks einval rcp buffer
        | none ↦ do
          s ← call (sys.sys_seek rcp.raw_fd (raw_offset rcp rcp.raw_curblock) seek_absolute)
          if not (s.error == 0) then pure (s.error, buffer, rcp) else do
            let size = (nblocks * rcp.raw_blocksize) % 2 ^ 64
            _ ← in_bounds (leb size (length buffer))
            r ← call (sys.sys_read rcp.raw_fd size)
            pure (r.error, overlay r.got buffer, rcp)
      ]

  -- The change file's path in `rawimage_writeblocks`, made up from the image's if there is none.
  -- `strlen` of the image's path reads memory that was never filled: no NUL need be in it.
  unfoldable pub raw_name_cf : RawContext → M W RawContext
  raw_name_cf rcp = if rawctx_have_cf_path rcp then pure rcp else do
    path ← deref rcp.raw_path
    name ← deref (c_string path.cells)
    a ← call (sys.sys_malloc (length name + length raw_cf_trailer + 1))
    if a.error == 0
        then pure (record rcp {
          raw_cf_path = some (record { addr = a.addr; cells = name ++ raw_cf_trailer });
          raw_flags = record rcp.raw_flags { raw_have_cf_path = true };
        })
        else pure (record rcp { raw_cf_path = none })

  -- The change file is created or opened unless one is ready.
  unfoldable pub raw_ready_cf : RawContext → M W (ℕ × RawContext)
  raw_ready_cf rcp = if rawctx_writeready rcp then pure (0, rcp) else do
    rcp ← raw_name_cf rcp
    path ← deref rcp.raw_cf_path
    (error, cf) ← cf_create sys path.cells rcp.raw_blocksize rcp.raw_totalblocks
    let rcp = record rcp { raw_cf_handle = keep_handle cf rcp.raw_cf_handle }
    if error == 0
        then pure (
          0,
          record rcp {
            raw_flags = record rcp.raw_flags {
              raw_have_cfdep = true;
              raw_cf_verified = true;
              raw_cf_open = true;
            };
          },
        )
        else pure (error, rcp)

  -- The loop of `rawimage_writeblocks`.
  unfoldable pub raw_write_loop : ℕ → RawContext → List ℕ → M W (ℕ × RawContext)
  raw_write_loop zero rcp buffer = pure (0, rcp)
  raw_write_loop (suc left) rcp buffer = do
    let bs = rcp.raw_blocksize
    cf ← deref rcp.raw_cf_handle
    (e, cf) ← cf_writeblock sys (cf_seek cf rcp.raw_curblock).1 (take bs buffer)
    let rcp = record rcp { raw_cf_handle = some cf }
    elim (e == 0) [
      | false ↦ pure (e, rcp)
      | true ↦ raw_write_loop left (raw_advance rcp) (drop bs buffer)
    ]

  -- `rawimage_writeblocks`
  unfoldable pub rawimage_writeblocks : RawContext → List ℕ → ℕ → M W (ℕ × RawContext)
  rawimage_writeblocks rcp buffer nblocks =
      if not (rawctx_writeable rcp) then pure (einval, rcp) else do
        (error, rcp) ← raw_ready_cf rcp
        if not (error == 0) then pure (error, rcp) else raw_write_loop nblocks rcp buffer

  -- `rawimage_sync`
  unfoldable pub rawimage_sync : RawContext → M W (ℕ × RawContext)
  rawimage_sync rcp = if not (rawctx_writeready rcp) then pure (einval, rcp) else do
    cf ← deref rcp.raw_cf_handle
    (error, cf) ← cf_sync sys cf
    pure (error, record rcp { raw_cf_handle = some cf })

  -- `rawimage_probe`
  unfoldable pub rawimage_probe : List ℕ → M W ℕ
  rawimage_probe path = do
    (error, testh) ← rawimage_open path none open_ro
    if not (error == 0) then pure error else do
      rcp ← deref testh
      (error, rcp) ← rawimage_verify rcp
      _ ← rawimage_close rcp
      pure error
