-- ===== src/ChangeFile/Open.antt =====
-- Opening a change file: `cf_init`, `cf_verify` and `cf_create` of src/changefile.c.
use partclone_utils.Base.{
  ℕ, ◌+◌, ◌/◌, ◌%◌, ◌^◌, not, ◌&&◌, ◌||◌, Option, none, some, List, ◌==◌, if◌then◌else◌, replicate,
  overlay,
}
use partclone_utils.Base.Words.{words_bytes, words_of}
use partclone_utils.Checksum.{crc_table}
use partclone_utils.Sysdep.{
  Sysdep, M, pure, ◌>>=◌, call, deref, array_of, open_rw, create, seek_absolute, enodev,
}
use partclone_utils.ChangeFile.{
  cf_magic_1, cf_magic_2, cf_version_1, Header, header_size, header_bytes, header_of, Context,
  context_size, zero_header, words_size, or_eio,
}

-- The header that `cf_create` writes.
abbrev pub new_header : ℕ → Header
new_header blockcount = record {
  cf_magic = cf_magic_1;
  cf_version = cf_version_1;
  cf_flags = 0;
  cf_total_blocks = blockcount;
  cf_used_blocks = 0;
  cf_blockmap_offset = header_size;
  cf_magic2 = cf_magic_2;
}

module _ {W : Type 0} (sys : Sysdep W) where
  -- `cf_init`: the context is zeroed, then filled once the file is open.
  unfoldable pub cf_init : List ℕ → ℕ → ℕ → M W (ℕ × Option Context)
  cf_init cfpath blocksize blockcount = do
    a ← call (sys.sys_malloc context_size)
    if a.error == 0
        then (do
          o ← call (sys.sys_open cfpath open_rw)
          if o.error == 0
              then pure (
                0,
                some (record {
                  addr = a.addr;
                  cfc_header = zero_header;
                  cfc_fd = o.handle;
                  cfc_blockmap = none;
                  cfc_blocksize = blocksize;
                  cfc_blockcount = blockcount;
                  cfc_curpos = 0;
                  cfc_crc_tab32 = crc_table;
                }),
              )
              else (do _ ← call (sys.sys_free a.addr); pure (o.error, none)))
        else pure (a.error, none)

  -- The second half of `cf_verify`: allocate, find and read the block map.
  unfoldable pub load_blockmap : Context → M W (ℕ × Context)
  load_blockmap cfp = do
    let bhsize = words_size cfp.cfc_header.cf_total_blocks
    a ← call (sys.sys_malloc bhsize)
    let cfp = record cfp { cfc_blockmap = array_of a (2 ^ 64) (bhsize / 8) }
    if a.error == 0
        then (do
          s ← call (sys.sys_seek cfp.cfc_fd cfp.cfc_header.cf_blockmap_offset seek_absolute)
          if s.error == 0
              then (do
                map ← deref cfp.cfc_blockmap
                r ← call (sys.sys_read cfp.cfc_fd bhsize)
                let filled = words_of (bhsize / 8) (overlay r.got (words_bytes map.cells))
                let cfp = record cfp { cfc_blockmap = some (record map { cells = filled }) }
                if r.error == 0 && r.nread == bhsize
                    then pure (r.error, cfp)
                    else pure (or_eio r.error, cfp))
              else pure (s.error, cfp))
        else pure (a.error, cfp)

  -- `cf_verify`
  unfoldable pub cf_verify : Context → M W (ℕ × Context)
  cf_verify cfp = do
    _ ← call (sys.sys_seek cfp.cfc_fd 0 seek_absolute)
    r ← call (sys.sys_read cfp.cfc_fd header_size)
    let header = header_of (overlay r.got (header_bytes cfp.cfc_header))
    let cfp = record cfp { cfc_header = header }
    if r.error == 0 && r.nread == header_size
        then (if header.cf_magic == cf_magic_1
              && (header.cf_magic2 == cf_magic_2
                  && (header.cf_total_blocks == cfp.cfc_blockcount
                      || header.cf_total_blocks == (cfp.cfc_blockcount + 1) % 2 ^ 64))
            then load_blockmap cfp
            else pure (enodev, cfp))
        else pure (or_eio r.error, cfp)

  -- The writes of `cf_create` to a new file: the error that they leave.
  unfoldable pub write_new : ℕ → ℕ → M W ℕ
  write_new cfh blockcount = do
    let bmsize = words_size blockcount
    a ← call (sys.sys_malloc bmsize)
    if not (a.error == 0) then pure a.error else do
      h ← call (sys.sys_write cfh (header_bytes (new_header blockcount)))
      error ←
          (if not (h.error == 0 && h.nwritten == header_size) then pure h.error else do
            b ← call (sys.sys_write cfh (replicate bmsize 0))
            if b.error == 0 && b.nwritten == bmsize
                then (do _ ← call (sys.sys_close cfh); pure b.error)
                else pure b.error)
      _ ← call (sys.sys_free a.addr)
      pure error

  -- `cf_create`
  unfoldable pub cf_create : List ℕ → ℕ → ℕ → M W (ℕ × Option Context)
  cf_create cfpath blocksize blockcount = do
    o ← call (sys.sys_open cfpath open_rw)
    error ←
        (if o.error == 0 then pure 0 else do
          c ← call (sys.sys_open cfpath create)
          if c.error == 0 then write_new c.handle blockcount else pure c.error)
    if not (error == 0) then pure (error, none) else do
      (e, cfp) ← cf_init cfpath blocksize blockcount
      if not (e == 0)
          then pure (e, none)
          else do opened ← deref cfp; (v, verified) ← cf_verify opened; pure (v, some verified)
