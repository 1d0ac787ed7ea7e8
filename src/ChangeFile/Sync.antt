-- ===== src/ChangeFile/Sync.antt =====
-- Writing back and closing: `cf_sync` and `cf_finish` of src/changefile.c.
use partclone_utils.Base.{
  ℕ, ◌*◌, not, ◌&&◌, Option, none, some, ◌==◌, leb, if◌then◌else◌, length, take,
}
use partclone_utils.Base.Words.{words_bytes}
use partclone_utils.Sysdep.{
  Sysdep, M, pure, ◌>>=◌, ◌>>◌, call, deref, in_bounds, Array, seek_absolute,
}
use partclone_utils.ChangeFile.{
  header_size, header_bytes, Context, is_dirty, clear_dirty, words_size,
}

module _ {W : Type 0} (sys : Sysdep W) where
  -- `cf_sync`
  unfoldable pub cf_sync : Context → M W (ℕ × Context)
  cf_sync cfp = do
    let oheader = record cfp.cfc_header { cf_flags = clear_dirty cfp.cfc_header.cf_flags }
    let bmsize = words_size oheader.cf_total_blocks
    s ← call (sys.sys_seek cfp.cfc_fd 0 seek_absolute)
    if not (s.error == 0) then pure (s.error, cfp) else do
      h ← call (sys.sys_write cfp.cfc_fd (header_bytes oheader))
      if not (h.error == 0 && h.nwritten == header_size) then pure (h.error, cfp) else do
        t ← call (sys.sys_seek cfp.cfc_fd oheader.cf_blockmap_offset seek_absolute)
        if not (t.error == 0) then pure (t.error, cfp) else do
          map ← deref cfp.cfc_blockmap
          _ ← in_bounds (leb bmsize (8 * length map.cells))
          b ← call (sys.sys_write cfp.cfc_fd (take bmsize (words_bytes map.cells)))
          if b.error == 0 && b.nwritten == bmsize
              then pure (
                0,
                record cfp {
                  cfc_header = record cfp.cfc_header {
                    cf_flags = clear_dirty cfp.cfc_header.cf_flags;
                  };
                },
              )
              else pure (b.error, cfp)

  -- The release of a pointer that may be NULL.
  abbrev pub free_array : Option Array → M W (Unit {0})
  free_array none = pure tt
  free_array (some map) = do _ ← call (sys.sys_free map.addr); pure tt

  -- `cf_finish`
  unfoldable pub cf_finish : Context → M W ℕ
  cf_finish cfp = do
    cfp ←
        (if is_dirty cfp.cfc_header.cf_flags
          then (do (_, synced) ← cf_sync cfp; pure synced)
          else pure cfp)
    free_array cfp.cfc_blockmap
    _ ← call (sys.sys_close cfp.cfc_fd)
    call (sys.sys_free cfp.addr)
