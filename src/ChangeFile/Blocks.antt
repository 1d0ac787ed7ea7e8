-- ===== src/ChangeFile/Blocks.antt =====
-- One block: `cf_readblock` and `cf_writeblock` of src/changefile.c.
use partclone_utils.Base.{
  ℕ, ◌+◌, ◌%◌, ◌^◌, not, ◌&&◌, some, List, ◌==◌, leb, if◌then◌else◌, length, set, take, overlay,
}
use partclone_utils.Sysdep.{
  Sysdep, M, pure, ◌>>=◌, call, deref, in_bounds, Array, seek_absolute, seek_end, enxio, esrch,
}
use partclone_utils.ChangeFile.{
  trailer_size, trailer_bytes, trailer_of, Context, set_dirty, current_entry, cf_crc32, trailer_for,
  trailer_fits, or_eio,
}

-- The context after the first write of the current block, at offset `curpos` of the file.
abbrev pub record_block : Context → Array → ℕ → Context
record_block cfp map curpos = record cfp {
  cfc_blockmap = some (record map { cells = set map.cells cfp.cfc_curpos curpos });
  cfc_header = record cfp.cfc_header {
    cf_used_blocks = (cfp.cfc_header.cf_used_blocks + 1) % 2 ^ 64;
    cf_flags = set_dirty cfp.cfc_header.cf_flags;
  };
}

module _ {W : Type 0} (sys : Sysdep W) where
  -- `cf_readblock`: the error, and what the buffer holds afterwards.
  unfoldable pub cf_readblock : Context → List ℕ → M W (ℕ × List ℕ)
  cf_readblock cfp buffer = do
    entry ← deref (current_entry cfp)
    if entry == 0 then pure (enxio, buffer) else do
      s ← call (sys.sys_seek cfp.cfc_fd entry seek_absolute)
      if not (s.error == 0) then pure (s.error, buffer) else do
        _ ← in_bounds (leb cfp.cfc_blocksize (length buffer))
        r ← call (sys.sys_read cfp.cfc_fd cfp.cfc_blocksize)
        let buffer = overlay r.got buffer
        if not (r.error == 0 && r.nread == cfp.cfc_blocksize)
            then pure (or_eio r.error, buffer)
            else do
              t ← call (sys.sys_read cfp.cfc_fd trailer_size)
              if not (t.error == 0 && t.nread == trailer_size)
                  then pure (or_eio t.error, buffer)
                  else do
                    crc ← deref (cf_crc32 cfp 0 buffer cfp.cfc_blocksize)
                    if trailer_fits (trailer_of t.got) cfp.cfc_curpos crc
                        then pure (0, buffer)
                        else pure (esrch, buffer)

  -- `cf_writeblock`
  unfoldable pub cf_writeblock : Context → List ℕ → M W (ℕ × Context)
  cf_writeblock cfp buffer = do
    nbloffs ← deref (current_entry cfp)
    map ← deref cfp.cfc_blockmap
    s ← call (sys.sys_seek cfp.cfc_fd nbloffs (if nbloffs == 0 then seek_end else seek_absolute))
    if not (s.error == 0) then pure (s.error, cfp) else do
      crc ← deref (cf_crc32 cfp 0 buffer cfp.cfc_blocksize)
      b ← call (sys.sys_write cfp.cfc_fd (take cfp.cfc_blocksize buffer))
      if not (b.error == 0 && b.nwritten == cfp.cfc_blocksize) then pure (b.error, cfp) else do
        t ← call (sys.sys_write cfp.cfc_fd (trailer_bytes (trailer_for cfp.cfc_curpos crc)))
        if t.error == 0 && t.nwritten == trailer_size
            then pure (0, if nbloffs == 0 then record_block cfp map s.offset else cfp)
            else pure (t.error, cfp)
